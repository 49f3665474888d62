-- ===== src/Base/Bytes.antt =====
-- Byte-addressed memory with little-endian words of any width, memset and memcpy.
use Prim.Native.Nat.{ℕ, zero, suc, ◌+◌, ◌*◌, ◌/◌, ◌%◌, ◌^◌, ◌≤◌, ◌<◌}
use mathlib.Core.Path.{◌≡◌, refl}
use mathlib.Core.Logic.{◌⊎◌}
use native.Mathlib.Nat.{pow-suc}
use native.Mathlib.Omega.{arith}
use metal_to_app.Base.Tests.{◌==◌, if◌then◌else◌}

-- The byte at each address.
abbrev pub Mem : Type 0
Mem = ℕ → ℕ

abbrev pub update : Mem → ℕ → ℕ → Mem
update m a v p = if p == a then v else m p

-- The n-byte little-endian word at `a`.
unfoldable pub load : ℕ → Mem → ℕ → ℕ
load zero m a = 0
load (suc n) m a = m a + 256 * load n m (a + 1)

unfoldable pub store : ℕ → Mem → ℕ → ℕ → Mem
store zero m a v = m
store (suc n) m a v = update (store n m (a + 1) (v / 256)) a (v % 256)

pub store_outside : (n : ℕ) (m : Mem) (a v p : ℕ) → (p < a) ⊎ (a + n ≤ p) → store n m a v p ≡ m p
unfolding store
store_outside zero m a v p h = refl
store_outside (suc n) m a v p h = ground (arith, store_outside n m (a + 1) (v / 256) p)

-- Words agree where their bytes agree.
pub load_agree :
    (n : ℕ) (m m' : Mem) (a : ℕ)
    → ((p : ℕ) → a ≤ p → p < a + n → m p ≡ m' p)
    → load n m a ≡ load n m' a
unfolding load
load_agree zero m m' a h = refl
load_agree (suc n) m m' a h = omega (
  arith,
  h a (omega arith) (omega arith),
  load_agree n m m' (a + 1) (λ p lo hi. h p (omega arith) (omega arith)),
)

pub load-store_self : (n : ℕ) (m : Mem) (a v : ℕ) → v < 256 ^ n → load n (store n m a v) a ≡ v
unfolding load store
load-store_self zero m a v h = omega arith
load-store_self (suc n) m a v h =
    let small : v / 256 < 256 ^ n = omega (arith, pow-suc 256 n) in
    let rest = load-store_self n m (a + 1) (v / 256) small in
    let same =
      load_agree n (update (store n m (a + 1) (v / 256)) a (v % 256)) (store n m (a + 1) (v / 256))
        (a + 1) (λ p lo hi. ground arith) in
    ground (arith, rest, same)

-- A write to a disjoint range leaves a word alone.
pub load-store_ne :
    (n k : ℕ) (m : Mem) (a b v : ℕ)
    → (a + n ≤ b) ⊎ (b + k ≤ a)
    → load n (store k m b v) a ≡ load n m a
load-store_ne n k m a b v h =
    load_agree n (store k m b v) m a λ p lo hi. store_outside k m b v p (ground arith)

pub load-update_ne :
    (n : ℕ) (m : Mem) (a p v : ℕ) → (p < a) ⊎ (a + n ≤ p) → load n (update m p v) a ≡ load n m a
load-update_ne n m a p v h = load_agree n (update m p v) m a λ q lo hi. ground arith
