-- ===== src/Paging/Grow.antt =====
-- A zeroed table is entered where there was none.
use metal_to_app.Base.{
  ℕ, zero, suc, ◌+◌, ◌*◌, ◌%◌, ◌≤◌, ◌<◌, ◌≡◌, ◌≢◌, refl, sym, ap, ◌∙◌, inl, inr, true, false, none,
  Mem, load, load_agree, test_bit, arith,
}
use mathlib.Core.Path.{subst}
use metal_to_app.Frame.Pool.{Pool}
use metal_to_app.Paging.{entry_idx, entry_word, entry_address}
use metal_to_app.Paging.Slots.{Owned, slot, entry_word-lem}
use metal_to_app.Paging.Tables.{word_at}
use metal_to_app.Paging.Ensure.{load-zeros}
use metal_to_app.Paging.Levels.{shift_of, levels, spot, entry_idx-spot}
use metal_to_app.Paging.Placed.{
  Labels, Here, IsPlaced, placed-Here, Reaches, Reaches-self, Changed, word-other, Here-kept,
  walk_last, walk-step,
}
use metal_to_app.Paging.Mmu.{page_of, cpu_walk, same_frame, walk_absent, walk_next}

-- The table `a` at the level `d` behind the entry `i` of `t`, which had none.
pub record Entered (d t n i a : ℕ) (l l' : Labels) (m m' : Mem) (p p' : Pool) : Type 0 where
  pub changed : Changed (suc d) t n i l l' m m' p p'
  pub absent : test_bit (load 8 m (t + 8 * i)) 0 ≡ false
  pub word : load 8 m' (t + 8 * i) ≡ entry_word a true
  pub owned : Owned p' a
  pub at_level : l'.level a ≡ d
  pub at_place : l'.place a ≡ n * 512 + i
  pub zeros : (q : ℕ) → a ≤ q → q < a + 0x1000 → m' q ≡ 0
  pub in_table : i < 512

zero_word :
    (m : Mem) (a ptr shift : ℕ)
    → ((q : ℕ) → a ≤ q → q < a + 0x1000 → m q ≡ 0)
    → word_at m a ptr shift ≡ 0
zero_word m a ptr shift zeros =
    load_agree 8 m (λ q. 0) (slot a ptr shift) (λ q lo hi. zeros q (omega arith) (omega arith))
    ∙ load-zeros 8 (slot a ptr shift)

-- A table of zeros: nothing is there, and the CPU faults.
zero_walk :
    (d : ℕ) (m : Mem) (a ptr : ℕ)
    → ((q : ℕ) → a ≤ q → q < a + 0x1000 → m q ≡ 0)
    → cpu_walk (levels d) m a ptr ≡ none
zero_walk zero m a ptr zeros =
    walk_last m a ptr ∙ ap (λ w. page_of w ptr) (zero_word m a ptr 12 zeros)
zero_walk (suc d) m a ptr zeros =
    walk_absent (shift_of (suc d)) (levels d) m a ptr
      (rw (zero_word m a ptr (shift_of (suc d)) zeros) refl)

zero-IsPlaced :
    (d : ℕ) (l : Labels) (m : Mem) (p : Pool) (a ptr : ℕ)
    → ((q : ℕ) → a ≤ q → q < a + 0x1000 → m q ≡ 0)
    → Here l p d a ptr
    → IsPlaced d l m p a ptr
zero-IsPlaced zero l m p a ptr zeros h = h
zero-IsPlaced (suc d) l m p a ptr zeros h =
    rw (zero_word m a ptr (shift_of (suc d)) zeros) (h, refl, inl refl)

module _ (d t n i a : ℕ) (l l' : Labels) (m m' : Mem) (p p' : Pool)
    (g : Entered d t n i a l l' m m' p p') where
  -- What an address below the entry has.
  abbrev pub Below : ℕ → ℕ → ℕ → Type 0
  Below c x ptr =
      IsPlaced c l' m' p' x ptr
      × (cpu_walk (levels c) m' x ptr ≡ cpu_walk (levels c) m x ptr)
      × Reaches c m' x ptr d a

  at_table :
      (ptr : ℕ) → Here l p (suc d) t ptr → spot (suc d) ptr ≡ n * 512 + i → Below (suc d) t ptr
  at_table ptr h e =
      let lt = g.in_table in
      let shift : ℕ = shift_of (suc d) in
      let idx : entry_idx ptr shift ≡ i =
        entry_idx-spot (suc d) ptr ∙ ap (λ x. x % 512) e ∙ omega arith in
      let old : test_bit (word_at m t ptr shift) 0 ≡ false =
        ap (λ x. test_bit (load 8 m (t + 8 * x)) 0) idx ∙ g.absent in
      let word : word_at m' t ptr shift ≡ entry_word a true =
        ap (λ x. load 8 m' (t + 8 * x)) idx ∙ g.word in
      let (bit, small, back, size) = entry_word-lem a true g.owned.0 in
      let there : test_bit (word_at m' t ptr shift) 0 ≡ true = rw word bit in
      let next : entry_address (word_at m' t ptr shift) ≡ a = rw word back in
      let here : Here l' p' d a ptr = record {
        owned = g.owned;
        at_level = g.at_level;
        at_place = g.at_place ∙ sym e;
      } in
      let placed = zero-IsPlaced d l' m' p' a ptr g.zeros here in
      (
        (
          Here-kept (suc d) t n i l l' m m' p p' g.changed (suc d) t ptr h,
          rw word small,
          inr (subst (λ y. IsPlaced d l' m' p' y ptr) (sym next) placed),
        ),
        walk_next shift (levels d) m' t ptr a there (rw word small)
              (same_frame (word_at m' t ptr shift) (rw next g.owned.0) ∙ next)
            ∙ zero_walk d m' a ptr g.zeros
            ∙ sym (walk_absent shift (levels d) m t ptr old),
        inr (
          omega arith,
          there,
          subst (λ y. Reaches d m' y ptr d a) (sym next) (Reaches-self d m' a ptr),
        ),
      )

  pub below :
      (c x ptr : ℕ)
      → IsPlaced c l m p x ptr
      → Reaches c m x ptr (suc d) t
      → spot (suc d) ptr ≡ n * 512 + i
      → Below c x ptr
  below zero x ptr h (e, at) s = absurd (omega (arith, e))
  below (suc c) x ptr h (inl (e, at)) s =
      let level : d ≡ c = omega (arith, e) in
      let here : Here l p (suc d) t ptr =
        subst (λ y. Here l p (suc d) y ptr) at (subst (λ y. Here l p y x ptr) (sym e) h.0) in
      subst (λ y. Below (suc y) x ptr) level
        (subst (λ y. Below (suc d) y ptr) (sym at) (at_table ptr here s))
  below (suc c) x ptr (here, small, way) (inr (le, there, rest)) s =
      let shift : ℕ = shift_of (suc c) in
      let next : ℕ = entry_address (word_at m x ptr shift) in
      let ne : x ≢ t = λ q. omega (arith, here.at_level, ap l.level q, g.changed.at_level) in
      let same = word-other (suc d) t n i l l' m m' p p' g.changed x ptr shift here.owned ne in
      let kept = Here-kept (suc d) t n i l l' m m' p p' g.changed (suc c) x ptr here in
      elim way [
        | inl absent ↦ absurd (cc (sym absent ∙ there))
        | inr deeper ↦
            let (placed, walk, reach) = below c next ptr deeper rest s in
            (
              rw same (kept, small, inr placed),
              walk-step shift (levels c) m m' x ptr same small
                  (placed-Here c l m p next ptr deeper).owned.0 walk,
              inr (omega arith, rw same there, rw same reach),
            )
      ]
