-- ===== src/Frame/Pool.antt =====
-- The contract of the allocator: a pool of free frames, named by their physical addresses.
use metal_to_app.Base.{
  ℕ, ◌+◌, ◌%◌, ◌^◌, ◌≤◌, ◌<◌, ◌≡◌, ◌⊎◌, ◌==◌, if◌then◌else◌, Bool, ◌&&◌, ◌||◌, leb, ltb, Option,
  none, some, List, [], ◌∷◌, has, Distinct, All,
}

-- The frames handed back, the last one first, and the range not handed out yet.
pub record Pool : Type 0 where
  pub free : List ℕ
  pub low : ℕ
  pub high : ℕ

-- The last frame handed back goes out first, then the range from below.
unfoldable pub alloc_from_range : ℕ → ℕ → Option (ℕ × Pool)
alloc_from_range low high =
    if low == high then none else some (low, record { free = []; low = low + 0x1000; high = high })

unfoldable pub alloc_from : List ℕ → ℕ → ℕ → Option (ℕ × Pool)
unfolding alloc_from_range
alloc_from [] low high = alloc_from_range low high
alloc_from (a ∷ free) low high = some (a, record { free = free; low = low; high = high })

unfoldable pub alloc : Pool → Option (ℕ × Pool)
unfolding alloc_from
alloc p = alloc_from p.free p.low p.high

unfoldable pub dealloc : ℕ → Pool → Pool
dealloc a p = record p { free = a ∷ p.free }

abbrev pub available : ℕ → Pool → Bool
available a p = has a p.free || (leb p.low a && ltb a p.high)

-- A frame of the linear window other than its first.
abbrev pub IsFrame : ℕ → Type 0
IsFrame a = (0 < a) × (a % 0x1000 ≡ 0) × (a + 0x1000 ≤ 2 ^ 39)

pub record IsPool (p : Pool) : Type 0 where
  pub ordered : p.low ≤ p.high
  pub aligned : (p.low % 0x1000 ≡ 0) × (p.high % 0x1000 ≡ 0)
  pub window : (0 < p.low) × (p.high ≤ 2 ^ 39)
  pub frames : All (λ a. IsFrame a × ((a < p.low) ⊎ (p.high ≤ a))) p.free
  pub distinct : Distinct p.free
