-- ===== src/Frame/Taken.antt =====
-- What an allocation does to the pool.
use mathlib.Core.Path.{subst₂}
use metal_to_app.Base.{
  ℕ, ◌+◌, ◌≡◌, ◌≢◌, sym, ◌∙◌, inl, inr, true, false, List, [], ◌∷◌, arith, none, some, eq→==, ne→==,
  eq-cases,
}
use metal_to_app.Frame.Pool
use metal_to_app.Frame.Pool.{Pool, IsPool, IsFrame, available}

-- What allocation does to the pool.
pub record Taken (a : ℕ) (p p' : Pool) : Type 0 where
  pub gone : available a p' ≡ false
  pub frame : IsFrame a
  pub was : available a p ≡ true
  pub kept : (b : ℕ) → available b p ≡ false → available b p' ≡ false

abbrev next_pool : ℕ → ℕ → Pool
next_pool low high = record { free = []; low = low + 0x1000; high = high }

Taken-next :
    (low high : ℕ)
    → IsPool (record { free = []; low = low; high = high })
    → low ≢ high
    → Taken low (record { free = []; low = low; high = high }) (next_pool low high)
Taken-next low high v ne = record {
  gone = ground arith;
  frame = (omega arith, omega arith, omega arith);
  was = ground arith;
  kept = λ b h. ground arith;
}

Taken-range :
    (low high a : ℕ) {p' : Pool}
    → IsPool (record { free = []; low = low; high = high })
    → Pool.alloc_from_range low high ≡ some (a, p')
    → Taken a (record { free = []; low = low; high = high }) p'
unfolding Pool.alloc_from_range
Taken-range low high a {p'} v e = elim (eq-cases low high) [
  | inl full ↦ cc (sym (refused full) ∙ e)
  | inr ne ↦
      let at_a : low ≡ a = cc (sym (given ne) ∙ e) in
      let at_p : next_pool low high ≡ p' = cc (sym (given ne) ∙ e) in
      subst₂ (λ b q. Taken b (record { free = []; low = low; high = high }) q) at_a at_p
        (Taken-next low high v ne)
]
  where
    refused : low ≡ high → Pool.alloc_from_range low high ≡ none
    refused h = rw (eq→== low high h)

    given : low ≢ high → Pool.alloc_from_range low high ≡ some (low, next_pool low high)
    given h = rw (ne→== low high h)

Taken-list :
    (a : ℕ) (free : List ℕ) (low high : ℕ)
    → IsPool (record { free = a ∷ free; low = low; high = high })
    → Taken a
        (record { free = a ∷ free; low = low; high = high })
        (record { free = free; low = low; high = high })
Taken-list a free low high v = record {
  gone = ground arith;
  frame = v.frames.0.0;
  was = ground arith;
  kept = λ b h. ground arith;
}

Taken-from :
    (free : List ℕ) (low high a : ℕ) {p' : Pool}
    → IsPool (record { free = free; low = low; high = high })
    → Pool.alloc_from free low high ≡ some (a, p')
    → Taken a (record { free = free; low = low; high = high }) p'
unfolding Pool.alloc_from
Taken-from [] low high a v e = Taken-range low high a v e
Taken-from (b ∷ free) low high a {p'} v e =
    let at_a : b ≡ a = cc e in
    let at_p : record { free = free; low = low; high = high } ≡ p' = cc e in
    subst₂ (λ c q. Taken c (record { free = b ∷ free; low = low; high = high }) q) at_a at_p
      (Taken-list b free low high v)

pub alloc-Taken :
    (p : Pool) (a : ℕ) {p' : Pool} → IsPool p → Pool.alloc p ≡ some (a, p') → Taken a p p'
unfolding Pool.alloc
alloc-Taken p a v e = Taken-from p.free p.low p.high a v e
