-- ===== src/Base/Tests.antt =====
-- Boolean tests on the native numbers, the conditional, and splits on computed values.
use Prim.Native.Nat.{ℕ, zero, suc, ◌+◌, ◌≤◌, ◌<◌, compare, Ordering}
use mathlib.Core.Path.{◌≡◌, refl}
use mathlib.Core.Logic.{◌⊎◌, inl, inr, ◌≢◌}
use mathlib.Core.Bool.{Bool, true, false}
use mathlib.Core.Option.{Option, none, some}
use native.Mathlib.Omega.{arith}

abbrev pub ltb : ℕ → ℕ → Bool
ltb a b = elim (compare a b) [ Ordering.lt ↦ true | _ ↦ false ]

abbrev pub leb : ℕ → ℕ → Bool
leb a b = elim (compare a b) [ Ordering.gt ↦ false | _ ↦ true ]

infix 50 ◌==◌
abbrev pub ◌==◌ : ℕ → ℕ → Bool
a == b = elim (compare a b) [ Ordering.eq ↦ true | _ ↦ false ]

infix 1 if◌then◌else◌
abbrev pub if◌then◌else◌ {ℓ} : {A : Type ℓ} → Bool → A → A → A
if true then x else y = x
if false then x else y = y

pub ltb→lt : (a b : ℕ) → ltb a b ≡ true → a < b
ltb→lt a b h = ground arith

pub lt→ltb : (a b : ℕ) → a < b → ltb a b ≡ true
lt→ltb a b h = ground arith

pub ==→eq : (a b : ℕ) → (a == b) ≡ true → a ≡ b
==→eq a b h = ground arith

pub eq→== : (a b : ℕ) → a ≡ b → (a == b) ≡ true
eq→== a b h = ground arith

pub ==→ne : (a b : ℕ) → (a == b) ≡ false → a ≢ b
==→ne a b h = ground arith

pub ne→== : (a b : ℕ) → a ≢ b → (a == b) ≡ false
ne→== a b h = ground arith

-- To split on a computed value and keep the equation.
pub Bool-cases : (b : Bool) → (b ≡ true) ⊎ (b ≡ false)
Bool-cases true = inl refl
Bool-cases false = inr refl

pub Option-cases {ℓ} : {A : Type ℓ} (o : Option A) → (o ≡ none) ⊎ ((a : A) × (o ≡ some a))
Option-cases none = inl refl
Option-cases (some a) = inr (a, refl)

-- Equal or not, as a disjunction that the tactics take apart.
pub eq-cases : (a b : ℕ) → (a ≡ b) ⊎ (a ≢ b)
eq-cases a b = ground arith

pub lt-cases : (a b : ℕ) → (a < b) ⊎ (b ≤ a)
lt-cases a b = ground arith

-- No number from `j` up to and not with `i` has a value of `f` other than 0.
abbrev pub ZeroBetween : (ℕ → ℕ) → ℕ → ℕ → Type 0
ZeroBetween f j i = (m : ℕ) → j ≤ m → m < i → f m ≡ 0

-- A first number among the `n` from `j` on at which `f` is not 0, or none.
pub first_nonzero :
    (f : ℕ → ℕ) (n j : ℕ)
    → ((i : ℕ) × (j ≤ i) × (i < j + n) × ZeroBetween f j i × (f i ≢ 0)) ⊎ ZeroBetween f j (j + n)
first_nonzero f zero j = inr (λ m l h. absurd (omega arith))
first_nonzero f (suc n) j = elim (eq-cases (f j) 0) [
  | inr here ↦ inl (j, omega arith, omega arith, λ m l h. absurd (omega arith), here)
  | inl empty ↦ elim (first_nonzero f n (j + 1)) [
    | inl (i, lo, hi, before, here) ↦ inl (
      i,
      omega arith,
      omega arith,
      λ m l h. elim (eq-cases m j) [ inl e ↦ rw e empty | inr ne ↦ before m (omega arith) h ],
      here,
    )
    | inr before ↦ inr λ m l h. elim (eq-cases m j) [
      | inl e ↦ rw e empty
      | inr ne ↦ before m (omega arith) (omega arith)
    ]
  ]
]
