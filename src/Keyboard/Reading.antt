-- ===== src/Keyboard/Reading.antt =====
-- `keyboard_test_loop` while it reads scan codes.
use metal_to_app.Base.{
  ℕ, zero, suc, ◌+◌, ◌*◌, ◌%◌, ◌<◌, ◌==◌, ◌≡◌, ◌≢◌, refl, sym, ap, ◌∙◌, Bool-cases, inl, inr, true,
  false, ne→==, some, List, [], ◌∷◌, ℤ, test_bit, arith,
}
use mathlib.Core.Path.{subst}
use metal_to_app.Keyboard.Presses.{events, process_scancode_lem}
use metal_to_app.Keyboard.Queue.{queue_length}
use metal_to_app.Keyboard.Ports.{Ports, Answers, inb}
use metal_to_app.Keyboard.Loop.{Keyboard, usb_word, process_usb_codes, read_codes, await_command}
use metal_to_app.Keyboard.Polite.{
  Did, DidTake, DidTake-trans, DidTake-none, DidTake-one, Did-refl, Did-trans, When, When-map,
  When-bind, When-some, Did-status, Did-say, Did-read,
}
use metal_to_app.Keyboard.Replies.{IsResponsive}

process_usb_codes-Did :
    (answers : Answers) (keys : List ℤ) (s : Ports) → Did answers [] s (process_usb_codes keys s)
unfolding process_usb_codes
process_usb_codes-Did answers [] s = Did-refl s
process_usb_codes-Did answers (key ∷ keys) s =
    Did-trans (Did-say answers (usb_word key) s) (process_usb_codes-Did answers keys _)

reads-process_usb_codes : (keys : List ℤ) (s : Ports) → (process_usb_codes keys s).reads ≡ s.reads
unfolding process_usb_codes
reads-process_usb_codes [] s = refl
reads-process_usb_codes (key ∷ keys) s = reads-process_usb_codes keys _

-- Reading scan codes only takes bytes and leaves the queue.
pub record Read (answers : Answers) (k k' : Keyboard) : Type 0 where
  pub queue : k'.queue ≡ k.queue
  pub did : DidTake answers k.ports k'.ports

pub Read-trans :
    {answers : Answers} {k k' k'' : Keyboard}
    → Read answers k k'
    → Read answers k' k''
    → Read answers k k''
Read-trans h h' = record { queue = h'.queue ∙ h.queue; did = DidTake-trans h.did h'.did }

module _ (answers : Answers) where
  -- The state of the keyboard behind a scan code.
  abbrev decoded : Keyboard → List ℤ → ℕ → Keyboard
  decoded k keys buffer = record k {
    code_buffer = buffer;
    ports = process_usb_codes keys (inb answers 0x60 (inb answers 0x64 k.ports).1).1;
  }

  decoded-Read :
      (k : Keyboard) (keys : List ℤ) (buffer : ℕ)
      → test_bit (inb answers 0x64 k.ports).0 0 ≡ true
      → Read answers k (decoded k keys buffer)
  decoded-Read k keys buffer there = record {
    queue = refl;
    did =
        DidTake-trans (DidTake-one (Did-read answers k.ports there))
          (DidTake-none (process_usb_codes-Did answers keys _));
  }

  read_codes-Read : (fuel : ℕ) (k : Keyboard) → When (Read answers k) (read_codes answers fuel k)
  unfolding read_codes
  read_codes-Read zero k = tt
  read_codes-Read (suc fuel) k = elim (Bool-cases (test_bit (inb answers 0x64 k.ports).0 0)) [
    | inr none_left ↦
        rw (none_left, read_codes)
          (record { queue = refl; did = DidTake-none (Did-status answers k.ports) })
    | inl there ↦
        let (d, e, run) =
          process_scancode_lem k.code_buffer (inb answers 0x60 (inb answers 0x64 k.ports).1).0 in
        rw (there, run, read_codes)
          (When-map (read_codes answers fuel (decoded k (events d.0) d.1))
            (λ k'. Read-trans (decoded-Read k _ d.1 there))
            (read_codes-Read fuel (decoded k (events d.0) d.1)))
  ]

  -- It ends when the controller has no more scan codes.
  read_codes_ends :
      (fuel i : ℕ) (k : Keyboard)
      → i < fuel
      → test_bit (answers (k.ports.reads + 2 * i) 0x64 % 256) 0 ≡ false
      → (k' : Keyboard) × (read_codes answers fuel k ≡ some k')
  unfolding read_codes inb
  read_codes_ends zero i k lt e = absurd (omega arith)
  read_codes_ends (suc fuel) zero k lt e =
      let at : k.ports.reads + 2 * 0 ≡ k.ports.reads = omega arith in
      let now = subst (λ i. test_bit (answers i 0x64 % 256) 0 ≡ false) at e in
      rw (now, read_codes) (_, refl)
  read_codes_ends (suc fuel) (suc i) k lt e =
      elim (Bool-cases (test_bit (answers k.ports.reads 0x64 % 256) 0)) [
        | inr none_left ↦ rw (none_left, read_codes) (_, refl)
        | inl there ↦
            let (d, e', run) =
              process_scancode_lem k.code_buffer
                (inb answers 0x60 (inb answers 0x64 k.ports).1).0 in
            let at : k.ports.reads + 2 * suc i ≡ (decoded k (events d.0) d.1).ports.reads + 2 * i =
              omega (
                arith,
                reads-process_usb_codes (events d.0)
                    (inb answers 0x60 (inb answers 0x64 k.ports).1).1,
              ) in
            let less : i < fuel = omega arith in
            rw (there, run, read_codes)
              (read_codes_ends fuel i (decoded k (events d.0) d.1) less
                (subst (λ i. test_bit (answers i 0x64 % 256) 0 ≡ false) at e))
      ]

  pub await_command-Read :
      (fuel n : ℕ) (k : Keyboard) → When (Read answers k) (await_command answers fuel n k)
  unfolding await_command
  await_command-Read fuel zero k = tt
  await_command-Read fuel (suc n) k =
      When-bind _ _ (read_codes answers fuel k) _ (read_codes-Read fuel k) λ k' h.
        elim (Bool-cases (queue_length k'.queue == 0)) [
          | inl empty ↦
              rw (empty, await_command)
                (When-map (await_command answers fuel n k') (λ k''. Read-trans h)
                  (await_command-Read fuel n k'))
          | inr full ↦ rw (full, await_command) h
        ]

  await_command-found :
      (fuel n : ℕ) (k k' : Keyboard)
      → read_codes answers fuel k ≡ some k'
      → (queue_length k'.queue == 0) ≡ false
      → await_command answers fuel (suc n) k ≡ some k'
  unfolding await_command
  await_command-found fuel n k k' e f = rw (e, f, await_command) refl

  -- With a command in the queue one round is enough.
  pub await_command_lem :
      (fuel n : ℕ) (k : Keyboard)
      → IsResponsive answers fuel
      → queue_length k.queue ≢ 0
      → (k' : Keyboard) × (await_command answers fuel (suc n) k ≡ some k') × Read answers k k'
  await_command_lem fuel n k h full =
      let (i, lt, e) = h.empties k.ports.reads in
      let (k', run) = read_codes_ends fuel i k lt e in
      let read = When-some _ (read_codes answers fuel k) k' run (read_codes-Read fuel k) in
      let still : (queue_length k'.queue == 0) ≡ false =
        ne→== (queue_length k'.queue) 0 (λ x. full (sym (ap queue_length read.queue) ∙ x)) in
      (k', await_command-found fuel n k k' run still, read)
