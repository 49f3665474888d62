-- ===== src/Klib/Laws.antt =====
-- What the loops of klib come to.
use metal_to_app.Base.{
  ℕ, zero, suc, ◌+◌, ◌-◌, ◌%◌, ◌≤◌, ◌<◌, ◌≡◌, ◌≢◌, ◌⊎◌, ltb, leb, if◌then◌else◌, ◌&&◌, some, Mem,
  update, arith, eq→==, ne→==,
}
use native.Mathlib.Nat.{add-zero}
use mathlib.Core.Path.{subst}
use metal_to_app.Klib.{memset, memcpy, strlen}

-- memset fills its range with the low byte of the value and writes nowhere else.
pub memset_lem :
    (n : ℕ) (m : Mem) (dest value p : ℕ)
    → memset n m dest value p ≡ (if leb dest p && ltb p (dest + n) then value % 256 else m p)
unfolding memset
memset_lem zero m dest value p = ground arith
memset_lem (suc n) m dest value p =
    ground (arith, memset_lem n (update m dest (value % 256)) (dest + 1) value p)

-- Where the destination does not lie behind the start of the source within its range, memcpy
-- copies every byte of the source as it was and writes nowhere else.
pub memcpy_lem :
    (n : ℕ) (m : Mem) (dest src p : ℕ)
    → (dest ≤ src) ⊎ (src + n ≤ dest)
    → memcpy n m dest src p ≡ (if leb dest p && ltb p (dest + n) then m (src + (p - dest)) else m p)
unfolding memcpy
memcpy_lem zero m dest src p h = ground arith
memcpy_lem (suc n) m dest src p h =
    ground (arith, memcpy_lem n (update m dest (m src)) (dest + 1) (src + 1) p)

shift : (s i : ℕ) → s + suc i ≡ s + 1 + i
shift s i = omega arith

-- strlen of a string whose first zero byte is at distance n returns n for any fuel above n.
pub strlen_lem :
    (n fuel : ℕ) (m : Mem) (s : ℕ)
    → n < fuel
    → ((i : ℕ) → i < n → m (s + i) ≢ 0)
    → m (s + n) ≡ 0
    → strlen fuel m s ≡ some n
unfolding strlen
strlen_lem n zero m s lt full end = absurd (omega arith)
strlen_lem zero (suc fuel) m s lt full end =
    rw (eq→== (m s) 0 (subst (λ a. m a ≡ 0) (add-zero s) end), strlen)
strlen_lem (suc n) (suc fuel) m s lt full end =
    let here : m s ≢ 0 = subst (λ a. m a ≢ 0) (add-zero s) (full 0 (omega arith)) in
    let rest =
      strlen_lem n fuel m (s + 1) (omega arith)
        (λ i l. subst (λ a. m a ≢ 0) (shift s i) (full (suc i) (omega arith)))
        (subst (λ a. m a ≡ 0) (shift s n) end) in
    rw (ne→== (m s) 0 here, rest, strlen)
