-- ===== src/Keyboard/Replies.antt =====
-- A controller that answers, and the loops that wait for it.
use metal_to_app.Base.{
  ℕ, zero, suc, ◌+◌, ◌%◌, ◌*◌, ◌<◌, ◌≡◌, refl, ap, Bool-cases, inl, inr, true, false, some, [], ◌∷◌,
  test_bit, arith,
}
use mathlib.Core.Path.{subst}
use metal_to_app.Keyboard.Ports.{Ports, Answers, inb, ps2data, ps2_read_spin, flush}
use metal_to_app.Keyboard.Polite.{
  took, gave, Did, DidTake, DidTake-trans, DidTake-none, DidTake-one, When, When-map, When-some,
  Did-status, Did-read, ps2data-Did, ps2_read_spin-Did,
}

-- Within fuel the controller takes a byte, has one to give, and has none more.
pub record IsResponsive (answers : Answers) (fuel : ℕ) : Type 0 where
  pub takes : (n : ℕ) → (k : ℕ) × (k < fuel) × (test_bit (answers (n + k) 0x64 % 256) 1 ≡ false)
  pub gives : (n : ℕ) → (k : ℕ) × (k < fuel) × (test_bit (answers (n + k) 0x64 % 256) 0 ≡ true)
  pub empties :
      (n : ℕ) → (k : ℕ) × (k < fuel) × (test_bit (answers (n + 2 * k) 0x64 % 256) 0 ≡ false)

module _ (answers : Answers) where
  later : (n k port : ℕ) → answers (n + suc k) port ≡ answers (n + 1 + k) port
  later n k port = ap (λ i. answers i port) (omega arith)

  ps2data_ends :
      (fuel k byte : ℕ) (s : Ports)
      → k < fuel
      → test_bit (answers (s.reads + k) 0x64 % 256) 1 ≡ false
      → (s' : Ports) × (ps2data answers fuel byte s ≡ some s')
  unfolding ps2data inb
  ps2data_ends zero k byte s lt e = absurd (omega arith)
  ps2data_ends (suc fuel) zero byte s lt e =
      let at : s.reads + 0 ≡ s.reads = omega arith in
      let now = subst (λ i. test_bit (answers i 0x64 % 256) 1 ≡ false) at e in
      rw (now, ps2data) (_, refl)
  ps2data_ends (suc fuel) (suc k) byte s lt e =
      elim (Bool-cases (test_bit (answers s.reads 0x64 % 256) 1)) [
        | inr free ↦ rw (free, ps2data) (_, refl)
        | inl busy ↦
            rw (busy, ps2data)
              (ps2data_ends fuel k byte (inb answers 0x64 s).1 (omega arith)
                (subst (λ x. test_bit (x % 256) 1 ≡ false) (later s.reads k 0x64) e))
      ]

  ps2_read_spin_ends :
      (fuel k : ℕ) (s : Ports)
      → k < fuel
      → test_bit (answers (s.reads + k) 0x64 % 256) 0 ≡ true
      → (r : ℕ × Ports) × (ps2_read_spin answers fuel s ≡ some r)
  unfolding ps2_read_spin inb
  ps2_read_spin_ends zero k s lt e = absurd (omega arith)
  ps2_read_spin_ends (suc fuel) zero s lt e =
      let at : s.reads + 0 ≡ s.reads = omega arith in
      let now = subst (λ i. test_bit (answers i 0x64 % 256) 0 ≡ true) at e in
      rw (now, ps2_read_spin) (_, refl)
  ps2_read_spin_ends (suc fuel) (suc k) s lt e =
      elim (Bool-cases (test_bit (answers s.reads 0x64 % 256) 0)) [
        | inl there ↦ rw (there, ps2_read_spin) (_, refl)
        | inr none_yet ↦
            rw (none_yet, ps2_read_spin)
              (ps2_read_spin_ends fuel k (inb answers 0x64 s).1 (omega arith)
                (subst (λ x. test_bit (x % 256) 0 ≡ true) (later s.reads k 0x64) e))
      ]

  pub flush_ends :
      (fuel k : ℕ) (s : Ports)
      → k < fuel
      → test_bit (answers (s.reads + 2 * k) 0x64 % 256) 0 ≡ false
      → (s' : Ports) × (flush answers fuel s ≡ some s')
  unfolding flush inb
  flush_ends zero k s lt e = absurd (omega arith)
  flush_ends (suc fuel) zero s lt e =
      let at : s.reads + 2 * 0 ≡ s.reads = omega arith in
      let now = subst (λ i. test_bit (answers i 0x64 % 256) 0 ≡ false) at e in
      rw (now, flush) (_, refl)
  flush_ends (suc fuel) (suc k) s lt e =
      elim (Bool-cases (test_bit (answers s.reads 0x64 % 256) 0)) [
        | inr none_left ↦ rw (none_left, flush) (_, refl)
        | inl there ↦
            let at : s.reads + 2 * suc k ≡ s.reads + 1 + 1 + 2 * k = omega arith in
            rw (there, flush)
              (flush_ends fuel k (inb answers 0x60 (inb answers 0x64 s).1).1 (omega arith)
                (subst (λ i. test_bit (answers i 0x64 % 256) 0 ≡ false) at e))
      ]

  pub flush-DidTake : (fuel : ℕ) (s : Ports) → When (DidTake answers s) (flush answers fuel s)
  unfolding flush
  flush-DidTake zero s = tt
  flush-DidTake (suc fuel) s = elim (Bool-cases (test_bit (inb answers 0x64 s).0 0)) [
    | inl there ↦
        rw (there, flush)
          (When-map (flush answers fuel (inb answers 0x60 (inb answers 0x64 s).1).1)
            (λ s'. DidTake-trans (DidTake-one (Did-read answers s there)))
            (flush-DidTake fuel (inb answers 0x60 (inb answers 0x64 s).1).1))
    | inr none_left ↦ rw (none_left, flush) (DidTake-none (Did-status answers s))
  ]

  -- The byte that was read is a byte.
  ps2_read_spin-Byte : (fuel : ℕ) (s : Ports) → When (λ r. r.0 < 256) (ps2_read_spin answers fuel s)
  unfolding ps2_read_spin inb
  ps2_read_spin-Byte zero s = tt
  ps2_read_spin-Byte (suc fuel) s = elim (Bool-cases (test_bit (inb answers 0x64 s).0 0)) [
    | inl there ↦ rw (there, ps2_read_spin) (omega arith)
    | inr none_yet ↦ rw (none_yet, ps2_read_spin) (ps2_read_spin-Byte fuel (inb answers 0x64 s).1)
  ]

  -- A read and a write that come to their end.
  pub ps2_read_spin_lem :
      (fuel : ℕ) (s : Ports)
      → IsResponsive answers fuel
      → (v : ℕ) × (s' : Ports) × (ps2_read_spin answers fuel s ≡ some (v, s'))
        × (v < 256)
        × Did answers (took v ∷ []) s s'
  ps2_read_spin_lem fuel s h =
      let (k, lt, e) = h.gives s.reads in
      let ((v, s'), run) = ps2_read_spin_ends fuel k s lt e in
      (
        v,
        s',
        run,
        When-some _ (ps2_read_spin answers fuel s) (v, s') run (ps2_read_spin-Byte fuel s),
        When-some _ (ps2_read_spin answers fuel s) (v, s') run (ps2_read_spin-Did answers fuel s),
      )

  pub ps2data_lem :
      (fuel byte : ℕ) (s : Ports)
      → IsResponsive answers fuel
      → (s' : Ports) × (ps2data answers fuel byte s ≡ some s') × Did answers (gave byte ∷ []) s s'
  ps2data_lem fuel byte s h =
      let (k, lt, e) = h.takes s.reads in
      let (s', run) = ps2data_ends fuel k byte s lt e in
      (s', run, When-some _ (ps2data answers fuel byte s) s' run (ps2data-Did answers fuel byte s))
