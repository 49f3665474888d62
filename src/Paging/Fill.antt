-- ===== src/Paging/Fill.antt =====
-- An entry of a table of the last level is written.
use metal_to_app.Base.{
  ℕ, zero, suc, ◌+◌, ◌*◌, ◌%◌, ◌<◌, ◌≡◌, ◌≢◌, sym, ap, ◌∙◌, inl, inr, Mem, load, arith,
}
use mathlib.Core.Path.{subst}
use metal_to_app.Frame.Pool.{Pool}
use metal_to_app.Paging.{entry_idx, entry_address}
use metal_to_app.Paging.Tables.{word_at}
use metal_to_app.Paging.Levels.{shift_of, levels, spot, entry_idx-spot}
use metal_to_app.Paging.Placed.{
  Labels, Here, IsPlaced, placed-Here, Reaches, Changed, word-other, Here-kept, walk_last,
}
use metal_to_app.Paging.Mmu.{page_of, cpu_walk, same_frame, walk_next}

module _ (t n i w : ℕ) (l l' : Labels) (m m' : Mem) (p p' : Pool)
    (g : Changed 0 t n i l l' m m' p p') (lt : i < 512) (word : load 8 m' (t + 8 * i) ≡ w) where
  -- What an address of the page of the entry has.
  abbrev pub Paged : ℕ → ℕ → ℕ → Type 0
  Paged c x ptr = IsPlaced c l' m' p' x ptr × (cpu_walk (levels c) m' x ptr ≡ page_of w ptr)

  at_last : (ptr : ℕ) → Here l p 0 t ptr → spot 0 ptr ≡ n * 512 + i → Paged 0 t ptr
  at_last ptr h e =
      let idx : entry_idx ptr (shift_of 0) ≡ i =
        entry_idx-spot 0 ptr ∙ ap (λ x. x % 512) e ∙ omega arith in
      (
        Here-kept 0 t n i l l' m m' p p' g 0 t ptr h,
        walk_last m' t ptr
            ∙ ap (λ x. page_of (load 8 m' (t + 8 * x)) ptr) idx
            ∙ ap (λ x. page_of x ptr) word,
      )

  pub paged :
      (c x ptr : ℕ)
      → IsPlaced c l m p x ptr
      → Reaches c m x ptr 0 t
      → spot 0 ptr ≡ n * 512 + i
      → Paged c x ptr
  paged zero x ptr h (e, at) s =
      subst (λ y. Paged 0 y ptr) (sym at) (at_last ptr (subst (λ y. Here l p 0 y ptr) at h) s)
  paged (suc c) x ptr h (inl (e, at)) s = absurd (omega (arith, e))
  paged (suc c) x ptr (here, small, way) (inr (le, there, rest)) s =
      let shift : ℕ = shift_of (suc c) in
      let next : ℕ = entry_address (word_at m x ptr shift) in
      let ne : x ≢ t = λ q. omega (arith, here.at_level, ap l.level q, g.at_level) in
      let same = word-other 0 t n i l l' m m' p p' g x ptr shift here.owned ne in
      let kept = Here-kept 0 t n i l l' m m' p p' g (suc c) x ptr here in
      elim way [
        | inl absent ↦ absurd (cc (sym absent ∙ there))
        | inr deeper ↦
            let (placed, walk) = paged c next ptr deeper rest s in
            let frame = (placed-Here c l m p next ptr deeper).owned.0 in
            (
              rw same (kept, small, inr placed),
              walk_next shift (levels c) m' x ptr next (rw same there) (rw same small)
                    (rw same (same_frame (word_at m x ptr shift) frame))
                  ∙ walk,
            )
      ]
