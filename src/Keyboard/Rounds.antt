-- ===== src/Keyboard/Rounds.antt =====
-- The rounds of `keyboard_test_loop`.
use metal_to_app.Base.{
  ℕ, zero, suc, ◌+◌, ◌≤◌, ◌<◌, ◌==◌, ◌≡◌, ◌≢◌, refl, ap, ◌∙◌, if◌then◌else◌, Bool, Bool-cases, inl,
  inr, true, false, ◌||◌, ne→==, Option, none, some, List, [], ◌∷◌, ◌++◌, arith,
}
use mathlib.Core.Path.{subst}
use metal_to_app.Keyboard.Queue.{Command, halts, front, pop, queue_length}
use metal_to_app.Keyboard.Ports.{Ports, Answers, ps2data, ps2_read_spin, initps2}
use metal_to_app.Keyboard.Loop.{
  Keyboard, wait_if_empty, await_command, data_byte, send_data, send_command, finish_command, round,
  rounds, keyboard_test_loop,
}
use metal_to_app.Keyboard.Polite.{
  Transfer, took, gave, OnlyTook, IsPolite, Did, transfers, Did-refl, Did-behind, Did-trans, When,
  When-map, When-bind, When-some, Did-stop, ps2data-Did, ps2_read_spin-Did,
}
use metal_to_app.Keyboard.Replies.{IsResponsive, ps2_read_spin_lem, ps2data_lem}
use metal_to_app.Keyboard.Setup.{initps2-Polite}
use metal_to_app.Base.{lt-cases}
use metal_to_app.Keyboard.Reading.{await_command-Read, await_command_lem}

-- The data bytes of a command as they are sent, the latest first.
abbrev pub data_sent : ℕ → ℕ → Command → List Transfer
data_sent zero i cmd = []
data_sent (suc n) i cmd =
    data_sent n (i + 1) cmd ++ (gave (if i == 0 then cmd.data_bytes.0 else cmd.data_bytes.1) ∷ [])

-- The byte `i` of the data.
abbrev byte_at : ℕ → Command → ℕ
byte_at i cmd = if i == 0 then cmd.data_bytes.0 else cmd.data_bytes.1

data_byte-in : (i : ℕ) (cmd : Command) → i < 2 → data_byte i cmd ≡ some (byte_at i cmd)
data_byte-in zero cmd lt = refl
data_byte-in (suc zero) cmd lt = refl
data_byte-in (suc (suc i)) cmd lt = absurd (omega arith)

data_byte-out : (i : ℕ) (cmd : Command) → 2 ≤ i → data_byte i cmd ≡ none
data_byte-out i cmd le = rw (ne→== i 0 (λ e. omega arith), ne→== i 1 (λ e. omega arith)) refl

module _ (answers : Answers) where
  send_data-Did :
      (fuel n i : ℕ) (cmd : Command) (s : Ports)
      → When (Did answers (data_sent n i cmd) s) (send_data answers fuel n i cmd s)
  unfolding send_data
  send_data-Did fuel zero i cmd s = Did-refl s
  send_data-Did fuel (suc n) i cmd s = elim (lt-cases i 2) [
    | inl lt ↦
        rw (data_byte-in i cmd lt, send_data)
          (When-bind _ _ (ps2data answers fuel (byte_at i cmd) s) _
            (ps2data-Did answers fuel (byte_at i cmd) s)
            λ s' d.
              When-map (send_data answers fuel n (i + 1) cmd s') (λ s''. Did-trans d)
                (send_data-Did fuel n (i + 1) cmd s'))
    | inr le ↦ rw (data_byte-out i cmd le, send_data) tt
  ]

  send_data-found :
      (fuel n i : ℕ) (cmd : Command) (s s₁ s₂ : Ports)
      → i < 2
      → ps2data answers fuel (byte_at i cmd) s ≡ some s₁
      → send_data answers fuel n (i + 1) cmd s₁ ≡ some s₂
      → send_data answers fuel (suc n) i cmd s ≡ some s₂
  unfolding send_data
  send_data-found fuel n i cmd s s₁ s₂ lt e₁ e₂ = rw (data_byte-in i cmd lt, e₁, e₂, send_data) refl

  send_data_ends :
      (fuel n i : ℕ) (cmd : Command) (s : Ports)
      → IsResponsive answers fuel
      → i + n ≤ 2
      → (s' : Ports) × (send_data answers fuel n i cmd s ≡ some s')
  unfolding send_data
  send_data_ends fuel zero i cmd s h le = (s, refl)
  send_data_ends fuel (suc n) i cmd s h le =
      let (s₁, e₁, d) = ps2data_lem answers fuel (byte_at i cmd) s h in
      let (s₂, e₂) = send_data_ends fuel n (i + 1) cmd s₁ h (omega arith) in
      (s₂, send_data-found fuel n i cmd s s₁ s₂ (omega arith) e₁ e₂)

  -- The bytes of a command as they are sent, the latest first.
  abbrev pub command_sent : Command → List Transfer
  command_sent cmd = data_sent cmd.data_length 0 cmd ++ (gave cmd.command ∷ [])

  send_command-Did :
      (fuel : ℕ) (cmd : Command) (s : Ports)
      → When
          (λ r. Did answers (took r.0 ∷ command_sent cmd) s r.1)
          (send_command answers fuel cmd s)
  unfolding send_command
  send_command-Did fuel cmd s =
      When-bind _ _ (ps2data answers fuel cmd.command s) _ (ps2data-Did answers fuel cmd.command s)
        λ s₁ d₁.
          When-bind _ _ (send_data answers fuel cmd.data_length 0 cmd s₁) _
            (send_data-Did fuel cmd.data_length 0 cmd s₁)
            λ s₂ d₂.
              When-map (ps2_read_spin answers fuel s₂) (λ r d₃. Did-trans d₁ (Did-trans d₂ d₃))
                (ps2_read_spin-Did answers fuel s₂)

  send_command-found :
      (fuel v : ℕ) (cmd : Command) (s s₁ s₂ s₃ : Ports)
      → ps2data answers fuel cmd.command s ≡ some s₁
      → send_data answers fuel cmd.data_length 0 cmd s₁ ≡ some s₂
      → ps2_read_spin answers fuel s₂ ≡ some (v, s₃)
      → send_command answers fuel cmd s ≡ some (v, s₃)
  unfolding send_command
  send_command-found fuel v cmd s s₁ s₂ s₃ e₁ e₂ e₃ = rw (e₁, e₂, e₃, send_command) refl

  send_command_lem :
      (fuel : ℕ) (cmd : Command) (s : Ports)
      → IsResponsive answers fuel
      → cmd.data_length ≤ 2
      → (v : ℕ) × (s' : Ports) × (send_command answers fuel cmd s ≡ some (v, s'))
        × Did answers (took v ∷ command_sent cmd) s s'
  send_command_lem fuel cmd s h le =
      let (s₁, e₁, d₁) = ps2data_lem answers fuel cmd.command s h in
      let (s₂, e₂) = send_data_ends fuel cmd.data_length 0 cmd s₁ h (omega arith) in
      let (v, s₃, e₃, small, d₃) = ps2_read_spin_lem answers fuel s₂ h in
      let run = send_command-found fuel v cmd s s₁ s₂ s₃ e₁ e₂ e₃ in
      (
        v,
        s₃,
        run,
        When-some _ (send_command answers fuel cmd s) (v, s₃) run (send_command-Did fuel cmd s),
      )

  Did-wait : (k : Keyboard) → Did answers [] k.ports (wait_if_empty k).ports
  unfolding transfers
  Did-wait k = elim (Bool-cases (halts k.queue)) [
    | inl empty ↦ rw empty (record { polite = λ p. (tt, p); real = λ r. r; transferred = refl })
    | inr full ↦ rw full (Did-refl k.ports)
  ]

  -- The end of a command.
  finish_command-Did :
      (v : ℕ) (k : Keyboard)
      → Did answers [] k.ports (finish_command v k).1.ports
        × ((finish_command v k).0 ≡ (v == 0xfa || v == 0xfe))
        × ((finish_command v k).1.queue ≡ (if v == 0xfa then pop k.queue else k.queue))
  unfolding finish_command
  finish_command-Did v k = elim (Bool-cases (v == 0xfa)) [
    | inl ack ↦ rw ack (Did-wait k, refl, refl)
    | inr nak ↦ elim (Bool-cases (v == 0xfe)) [
      | inl resend ↦ rw (nak, resend) (Did-refl k.ports, refl, refl)
      | inr unknown ↦ rw (nak, unknown) (Did-stop answers v k.ports, refl, refl)
    ]
  ]

  round-found :
      (fuel v : ℕ) (k k₁ : Keyboard) (s : Ports)
      → await_command answers fuel fuel k ≡ some k₁
      → send_command answers fuel (front k₁.queue) (wait_if_empty k₁).ports ≡ some (v, s)
      → round answers fuel k ≡ some (finish_command v (record k₁ { ports = s }))
  unfolding round
  round-found fuel v k k₁ s e₁ e₂ = rw (e₁, e₂, round) refl

  -- The driver goes on as it should.
  abbrev Polite : Keyboard → Bool × Keyboard → Type 0
  Polite k r = IsPolite k.ports.events → IsPolite r.1.ports.events

  round-Polite : (fuel : ℕ) (k : Keyboard) → When (Polite k) (round answers fuel k)
  unfolding round
  round-Polite fuel k =
      When-bind _ _ (await_command answers fuel fuel k) _ (await_command-Read answers fuel fuel k)
        λ k₁ read.
          When-bind _ _ (send_command answers fuel (front k₁.queue) (wait_if_empty k₁).ports) _
            (send_command-Did fuel (front k₁.queue) (wait_if_empty k₁).ports)
            λ r d. λ p.
              (finish_command-Did r.0 (record k₁ { ports = r.1 })).0.polite
                (d.polite ((Did-wait k₁).polite (read.did.did.polite p)))

  rounds-Polite : (fuel n : ℕ) (k : Keyboard) → When (Polite k) (rounds answers fuel n k)
  unfolding rounds
  rounds-Polite fuel zero k = λ p. p
  rounds-Polite fuel (suc n) k =
      next (λ k'. rounds-Polite fuel n k') (round answers fuel k) (round-Polite fuel k)
    where
      next :
          ((k' : Keyboard) → When (Polite k') (rounds answers fuel n k'))
          → (x : Option (Bool × Keyboard)) → When (Polite k) x
          → When (Polite k) (elim x [
            | none ↦ none
            | some (true, k') ↦ rounds answers fuel n k'
            | some (false, k') ↦ some (false, k')
          ])
      next more none h = tt
      next more (some (true, k')) h =
          When-map (rounds answers fuel n k') (λ r g p. g (h p)) (more k')
      next more (some (false, k')) h = h

pub keyboard_test_loop-IsPolite :
    (answers : Answers) (fuel n : ℕ) (k : Keyboard)
    → IsPolite k.ports.events
    → When (λ r. IsPolite r.1.ports.events) (keyboard_test_loop answers fuel n k)
unfolding keyboard_test_loop
keyboard_test_loop-IsPolite answers fuel n k p =
    When-bind _ _ (initps2 answers fuel k.ports) _ (initps2-Polite answers fuel k.ports) λ s d.
      When-map (rounds answers fuel n (record k { ports = s })) (λ r h. h (d p))
        (rounds-Polite answers fuel n (record k { ports = s }))

-- With a controller as for initps2 and a command of at most two data bytes at the front of the
-- queue, a round of keyboard_test_loop returns, and what went over the ports is, in this order:
-- scan codes that are read, the byte of the command, its data, and a result that is read behind
-- them. The command leaves the queue exactly when this result is 0xFA, and the loop goes on
-- exactly for 0xFA and 0xFE; the log stays as it should be in the sense of initps2.
pub round_lem :
    (answers : Answers) (fuel : ℕ) (k : Keyboard)
    → IsResponsive answers fuel
    → queue_length k.queue ≢ 0
    → (front k.queue).data_length ≤ 2
    → (v : ℕ) × (k' : Keyboard) × (codes : List Transfer) × (round answers fuel k
        ≡ some (v == 0xfa || v == 0xfe, k'))
      × OnlyTook codes
      × Did answers (took v ∷ (command_sent answers (front k.queue) ++ codes)) k.ports k'.ports
      × (k'.queue ≡ (if v == 0xfa then pop k.queue else k.queue))
round_lem answers zero k h full le = let (i, lt, e) = h.takes 0 in absurd (omega (arith, lt))
round_lem answers (suc fuel) k h full le =
    let (k₁, e₁, read) = await_command_lem answers (suc fuel) fuel k h full in
    let same : front k₁.queue ≡ front k.queue = ap front read.queue in
    let (v, s, e₂, d) =
      send_command_lem answers (suc fuel) (front k₁.queue) (wait_if_empty k₁).ports h
        (rw same le) in
    let k₂ : Keyboard = record k₁ { ports = s } in
    let (d', goes, queue) = finish_command-Did answers v k₂ in
    let sent =
      subst (λ c. Did answers (took v ∷ command_sent answers c) (wait_if_empty k₁).ports s) same
        d in
    (
      v,
      (finish_command v k₂).1,
      read.did.taken,
      round-found answers (suc fuel) v k k₁ s e₁ e₂
          ∙ ap (λ b. some (b, (finish_command v k₂).1)) goes,
      read.did.only_took,
      Did-trans read.did.did (Did-behind (Did-wait answers k₁) (Did-trans sent d')),
      queue ∙ ap (λ q. if v == 0xfa then pop q else q) read.queue,
    )
