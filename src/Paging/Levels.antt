-- ===== src/Paging/Levels.antt =====
-- The levels of the page tables by their number, 0 being the last, and the place of an address in
-- them: its entry at a level is one of the entries of that level counted over all tables.
use native.Mathlib.Nat.{div-div-eq-div-mul}
use mathlib.Core.Path.{subst}
use metal_to_app.Base.{
  ℕ, zero, suc, ◌+◌, ◌*◌, ◌/◌, ◌%◌, ◌^◌, ◌≤◌, ◌≡◌, refl, sym, ap, ◌∙◌, inl, inr, eq-cases, List, [],
  ◌∷◌, arith,
}
use metal_to_app.Paging.{entry_idx, shifts}

-- The shift of a level, and the shifts of the levels below one.
abbrev pub shift_of : ℕ → ℕ
shift_of zero = 12
shift_of (suc c) = shift_of c + 9

abbrev pub levels : ℕ → List ℕ
levels zero = []
levels (suc c) = shift_of (suc c) ∷ levels c

shifts-levels : shifts ≡ levels 3
shifts-levels = refl

-- The number of the entry of an address at a level.
abbrev pub spot : ℕ → ℕ → ℕ
spot zero ptr = ptr / 0x1000
spot (suc c) ptr = spot c ptr / 512

pow_nine : (n : ℕ) → 2 ^ (n + 9) ≡ 2 ^ n * 512
pow_nine n =
    let e : n + 9 ≡ suc (suc (suc (suc (suc (suc (suc (suc (suc n)))))))) = omega arith in
    rw e (omega arith)

div-pow_suc : (ptr n : ℕ) → ptr / 2 ^ (n + 9) ≡ ptr / 2 ^ n / 512
div-pow_suc ptr n = ap (λ d. ptr / d) (pow_nine n) ∙ sym (div-div-eq-div-mul ptr (2 ^ n) 512)

pub div-shift_of : (c ptr : ℕ) → ptr / 2 ^ shift_of c ≡ spot c ptr
div-shift_of zero ptr = refl
div-shift_of (suc c) ptr = div-pow_suc ptr (shift_of c) ∙ ap (λ x. x / 512) (div-shift_of c ptr)

pub entry_idx-spot : (c ptr : ℕ) → entry_idx ptr (shift_of c) ≡ spot c ptr % 512
entry_idx-spot c ptr = ap (λ x. x % 512) (div-shift_of c ptr)

-- Addresses with the same entry at a level have the same entries at the levels above.
pub spot-above : (c d ptr ptr' : ℕ) → c ≤ d → spot c ptr' ≡ spot c ptr → spot d ptr' ≡ spot d ptr
spot-above zero zero ptr ptr' le e = e
spot-above (suc c) zero ptr ptr' le e = absurd (omega arith)
spot-above c (suc d) ptr ptr' le e = elim (eq-cases c (suc d)) [
  | inl at ↦ subst (λ x. spot x ptr' ≡ spot x ptr) at e
  | inr ne ↦ ap (λ x. x / 512) (spot-above c d ptr ptr' (omega arith) e)
]
