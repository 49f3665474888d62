-- ===== src/Base/Members.antt =====
-- Membership in a list of numbers as a test, and lists without repetition.
use Prim.Native.Nat.{ℕ}
use mathlib.Core.Path.{◌≡◌, refl, sym, ap, ◌∙◌}
use mathlib.Core.Bool.{Bool, true, false, ◌||◌, or_assoc}
use mathlib.Core.List.{List, [], ◌∷◌, ◌++◌}
use native.Mathlib.Omega.{arith}
use mathlib.Core.Logic.{inl, inr, ◌≢◌}
use metal_to_app.Base.Tests.{◌==◌, eq-cases}

abbrev pub has : ℕ → List ℕ → Bool
has a [] = false
has a (x ∷ xs) = a == x || has a xs

abbrev pub Distinct : List ℕ → Type 0
Distinct [] = Unit
Distinct (x ∷ xs) = (has x xs ≡ false) × Distinct xs

abbrev pub All {κ} : (ℕ → Type κ) → List ℕ → Type κ
All P [] = Unit
All P (x ∷ xs) = P x × All P xs

pub All-has {κ} : (P : ℕ → Type κ) (a : ℕ) (xs : List ℕ) → All P xs → has a xs ≡ true → P a
All-has P a [] h e = absurd (cc e)
All-has P a (x ∷ xs) h e = elim (eq-cases a x) [
  | inl same ↦ rw same h.0
  | inr ne ↦ All-has P a xs h.1 (ground arith)
]

pub All-map {κ} :
    (P Q : ℕ → Type κ) (xs : List ℕ) → ((a : ℕ) → has a xs ≡ true → P a → Q a) → All P xs → All Q xs
All-map P Q [] f h = h
All-map P Q (x ∷ xs) f h =
    (f x (ground arith) h.0, All-map P Q xs (λ a e p. f a (ground arith) p) h.1)

pub has-append : (a : ℕ) (xs ys : List ℕ) → has a (xs ++ ys) ≡ (has a xs || has a ys)
has-append a [] ys = refl
has-append a (x ∷ xs) ys = rw (has-append a xs ys, or_assoc)

-- Taking one item out of the middle.
pub Distinct-remove :
    (a : ℕ) (xs ys : List ℕ)
    → Distinct (xs ++ (a ∷ ys))
    → Distinct (xs ++ ys) × (has a (xs ++ ys) ≡ false)
Distinct-remove a [] ys d = (d.1, d.0)
Distinct-remove a (x ∷ xs) ys d =
    let (rest, out) = Distinct-remove a xs ys d.1 in
    (
      (ground (arith, d.0, has-append x xs (a ∷ ys), has-append x xs ys), rest),
      ground (arith, d.0, has-append x xs (a ∷ ys), has-append a xs ys, out),
    )

pub has-remove :
    (b a : ℕ) (xs ys : List ℕ) → has b (xs ++ ys) ≡ true → has b (xs ++ (a ∷ ys)) ≡ true
has-remove b a xs ys h = ground (arith, has-append b xs (a ∷ ys), has-append b xs ys)

pub All-remove {κ} :
    (P : ℕ → Type κ) (a : ℕ) (xs ys : List ℕ) → All P (xs ++ (a ∷ ys)) → All P (xs ++ ys) × P a
All-remove P a [] ys h = (h.1, h.0)
All-remove P a (x ∷ xs) ys h = let (rest, p) = All-remove P a xs ys h.1 in ((h.0, rest), p)

pub ne_of_has : (a b : ℕ) (xs : List ℕ) → has a xs ≡ true → has b xs ≡ false → a ≢ b
ne_of_has a b xs h out e = cc (sym h ∙ ap (λ x. has x xs) e ∙ out)
