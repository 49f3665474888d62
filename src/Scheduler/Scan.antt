-- ===== src/Scheduler/Scan.antt =====
-- The two loops of `scheduler` against a search by offsets.
use metal_to_app.Base.{
  ℕ, zero, suc, ◌+◌, ◌%◌, ◌≤◌, ◌<◌, ◌≡◌, ◌≢◌, refl, inl, inr, ◌==◌, if◌then◌else◌, eq-cases, ne→==,
  eq→==, arith,
}
use metal_to_app.Scheduler.Task.{null}
use metal_to_app.Scheduler.Select.{
  Kernel, Pick, found, exhausted, half, task_at, scan_high, scan_round,
}

-- The slot that lies `i` places behind `s` in the upper half of a row, going round at its end.
abbrev pub slot_behind : ℕ → ℕ → ℕ
slot_behind s i = half + (s + i) % half

module _ (k : Kernel) (cpu : ℕ) where
  -- The first executable task among the `n` offsets from `j` on.
  pub first_ready : ℕ → ℕ → ℕ → Pick
  first_ready s zero j = exhausted
  first_ready s (suc n) j =
      let rest = first_ready s n (j + 1) in
      let t = task_at k cpu (slot_behind s j) in
      if t == null then rest else found t ((s + j) % half)

  -- The loop looks at 127 of the 128 slots, in this order, and ends before its fuel does.
  pub scan_round-first_ready :
      (s n fuel j : ℕ)
      → s < half
      → n + j ≡ 127
      → n < fuel
      → scan_round k cpu ((s + 127) % half) fuel ((s + j) % half) ≡ first_ready s n j
  unfolding scan_round first_ready
  scan_round-first_ready s n zero j hs e h = absurd (omega arith)
  scan_round-first_ready s zero (suc fuel) j hs e h =
      rw (eq→== ((s + j) % half) ((s + 127) % half) (omega arith))
  scan_round-first_ready s (suc n) (suc fuel) j hs e h =
      let step : ((s + j) % half + 1) % half ≡ (s + (j + 1)) % half = omega arith in
      rw (
        ne→== ((s + j) % half) ((s + 127) % half) (omega arith),
        step,
        scan_round-first_ready s n fuel (j + 1) hs (omega arith) (omega arith),
      )

  abbrev pub NoneBefore : ℕ → ℕ → ℕ → Type 0
  NoneBefore s j i = (m : ℕ) → j ≤ m → m < i → task_at k cpu (slot_behind s m) ≡ null

  pub first_ready-found :
      (s n j i : ℕ)
      → j ≤ i
      → i < j + n
      → NoneBefore s j i
      → task_at k cpu (slot_behind s i) ≢ null
      → first_ready s n j ≡ found (task_at k cpu (slot_behind s i)) ((s + i) % half)
  unfolding first_ready
  first_ready-found s zero j i lo hi before ready = absurd (omega arith)
  first_ready-found s (suc n) j i lo hi before ready = elim (eq-cases j i) [
    | inl e ↦ rw (e, ne→== (task_at k cpu (slot_behind s i)) null ready)
    | inr ne ↦ rw (before j (omega arith) (omega arith)) (
        first_ready-found s n (j + 1) i (omega arith) (omega arith)
          (λ m l h. before m (omega arith) h) ready)
  ]

  pub first_ready-exhausted : (s n j : ℕ) → NoneBefore s j (j + n) → first_ready s n j ≡ exhausted
  unfolding first_ready
  first_ready-exhausted s zero j before = refl
  first_ready-exhausted s (suc n) j before =
      rw (before j (omega arith) (omega arith))
        (first_ready-exhausted s n (j + 1) (λ m l h. before m (omega arith) (omega arith)))

  -- The first loop: a first executable task among `n` slots from `slot` on, or NULL.
  pub scan_high-found :
      (n slot i : ℕ)
      → slot ≤ i
      → i < slot + n
      → ((m : ℕ) → slot ≤ m → m < i → task_at k cpu m ≡ null)
      → task_at k cpu i ≢ null
      → scan_high k cpu n slot ≡ task_at k cpu i
  unfolding scan_high
  scan_high-found zero slot i lo hi before ready = absurd (omega arith)
  scan_high-found (suc n) slot i lo hi before ready = elim (eq-cases slot i) [
    | inl e ↦ rw (e, ne→== (task_at k cpu i) null ready)
    | inr ne ↦ rw (before slot (omega arith) (omega arith)) (
        scan_high-found n (slot + 1) i (omega arith) (omega arith)
          (λ m l h. before m (omega arith) h) ready)
  ]

  pub scan_high-null :
      (n slot : ℕ)
      → ((m : ℕ) → slot ≤ m → m < slot + n → task_at k cpu m ≡ null)
      → scan_high k cpu n slot ≡ null
  unfolding scan_high
  scan_high-null zero slot before = refl
  scan_high-null (suc n) slot before =
      rw (before slot (omega arith) (omega arith))
        (scan_high-null n (slot + 1) (λ m l h. before m (omega arith) (omega arith)))
