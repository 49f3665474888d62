-- ===== src/Paging/Mapping.antt =====
-- `mmap` and `munmap` against the translation that the CPU makes.
use metal_to_app.Base.{
  ℕ, ◌+◌, ◌/◌, ◌%◌, ◌^◌, ◌≤◌, ◌<◌, ◌≡◌, sym, ap, ◌∙◌, Bool, false, none, some, List, [], ◌∷◌, All,
  arith,
}
use mathlib.Core.Path.{subst}
use metal_to_app.Memory.{linear_start}
use metal_to_app.Frame.{FrameState}
use metal_to_app.Frame.Pool.{Pool, available}
use metal_to_app.Frame.Invariant.{Represents}
use metal_to_app.Paging.{entry_word, entry_address, shifts, mmap, munmap}
use metal_to_app.Paging.Slots.{Owned}
use metal_to_app.Paging.Tables.{
  word_at, tables, leaf, IsWay, IsWhole, KeepsBut, Shrinks, tables-above,
}
use metal_to_app.Paging.Ensure.{Gives}
use metal_to_app.Paging.Way.{resolve-Resolved}
use metal_to_app.Paging.Mmu.{page_of, translate, leaf-Owned, whole-resolve_from}
use metal_to_app.Paging.Entry.{
  page_word, write_leaf, write_leaf-Put, mmap-eq, munmap-eq, translate-leaf, page_of-word,
}

-- What is known after `mmap`.
pub record Mapped (root page ptr : ℕ) (usermode : Bool) (above : List ℕ) (s s' : FrameState)
    (p p' : Pool) : Type 0 where
  pub represents : Represents s' p'
  pub shrinks : Shrinks p p'
  pub whole : IsWhole shifts s'.mem p' root ptr above
  pub holds : word_at s'.mem (leaf shifts s'.mem root ptr) ptr 12 ≡ entry_word page usermode
  pub keeps : KeepsBut p (tables shifts s'.mem root ptr) s.mem s'.mem

pub mmap-Mapped :
    (root page ptr : ℕ) (usermode : Bool) (above : List ℕ) (s : FrameState) (p : Pool)
    → Represents s p
    → Gives 3 p
    → All (λ b. available b p ≡ false) above
    → IsWay shifts s.mem p root ptr above
    → page % 0x1000 ≡ 0
    → page < 2 ^ 52
    → (s' : FrameState) × (p' : Pool) × (mmap (linear_start + root) page ptr usermode s ≡ some s')
      × Mapped root page ptr usermode above s s' p p'
mmap-Mapped root page ptr usermode above s p r g clear way aligned small =
    let (s₁, p₁, found, res) = resolve-Resolved shifts root ptr above s p r g clear way in
    let word : ℕ = entry_word page usermode in
    let size = (page_word page usermode aligned small).4 in
    let o = leaf-Owned shifts s₁.mem p₁ root ptr above res.whole in
    let put = write_leaf-Put root ptr word above s₁ p₁ size res.represents res.whole in
    (
      write_leaf root ptr word s₁,
      p₁,
      mmap-eq root ptr s s₁ o.0 found page usermode,
      record {
        represents = put.represents;
        shrinks = res.shrinks;
        whole = put.whole;
        holds = put.holds;
        keeps =
            subst (λ ts. KeepsBut p ts s.mem (write_leaf root ptr word s₁).mem) (sym put.on_way)
              (λ a q oa out lo hi.
                put.keeps a q (oa.0, res.shrinks a oa.1) out lo hi ∙ res.keeps a q oa out lo hi);
      },
    )

-- Where the pool can give three frames and the way to the address, as far as it is there, has no
-- big entry and goes through distinct frames that the allocator does not have, mmap of a page
-- below 2^52 returns, and the CPU then reaches that page through every address of the page of
-- the mapping; the pool is still represented, and the way is whole.
pub translate-mmap :
    (root page ptr ptr' : ℕ) (usermode : Bool) (s : FrameState) (p : Pool)
    → Represents s p
    → Gives 3 p
    → IsWay shifts s.mem p root ptr []
    → page % 0x1000 ≡ 0
    → page < 2 ^ 52
    → ptr' / 0x1000 ≡ ptr / 0x1000
    → (s' : FrameState) × (p' : Pool) × (mmap (linear_start + root) page ptr usermode s ≡ some s')
      × (translate s'.mem root ptr' ≡ some (page + ptr' % 0x1000))
      × Represents s' p'
      × IsWhole shifts s'.mem p' root ptr []
translate-mmap root page ptr ptr' usermode s p r g way aligned small same =
    let (s', p', e, m) = mmap-Mapped root page ptr usermode [] s p r g tt way aligned small in
    (
      s',
      p',
      e,
      translate-leaf s'.mem p' root ptr ptr' [] same m.whole
          ∙ ap (λ w. page_of w ptr') m.holds
          ∙ page_of-word page ptr' usermode aligned small,
      m.represents,
      m.whole,
    )

-- Under the same conditions mmap leaves every byte of a frame as it was that the allocator did
-- not have and that the way to the address avoids.
mmap_keeps :
    (root page ptr : ℕ) (usermode : Bool) (s s' : FrameState) (p : Pool) (a q : ℕ)
    → Represents s p
    → Gives 3 p
    → Owned p a
    → IsWay shifts s.mem p root ptr (a ∷ [])
    → page % 0x1000 ≡ 0
    → page < 2 ^ 52
    → mmap (linear_start + root) page ptr usermode s ≡ some s'
    → a ≤ q
    → q < a + 0x1000
    → s'.mem q ≡ s.mem q
mmap_keeps root page ptr usermode s s' p a q r g o way aligned small e lo hi =
    let (s₁, p₁, e₁, m) =
      mmap-Mapped root page ptr usermode (a ∷ []) s p r g (o.1, tt) way aligned small in
    let same : s₁ ≡ s' = cc (sym e₁ ∙ e) in
    let avoided = tables-above shifts s₁.mem p₁ root ptr (a ∷ []) a m.whole (ground arith) in
    subst (λ t. t.mem q ≡ s.mem q) same (m.keeps a q o avoided lo hi)

-- Under the same conditions munmap of what mmap mapped returns the page, and the CPU then faults
-- on every address of its page; the pool is still represented, and the way is whole.
pub munmap-mmap :
    (root page ptr ptr' : ℕ) (usermode : Bool) (s : FrameState) (p : Pool)
    → Represents s p
    → Gives 3 p
    → IsWay shifts s.mem p root ptr []
    → page % 0x1000 ≡ 0
    → page < 2 ^ 52
    → ptr' / 0x1000 ≡ ptr / 0x1000
    → (s₁ : FrameState) × (s₂ : FrameState) × (p' : Pool) × (mmap
          (linear_start + root)
          page
          ptr
          usermode
          s
        ≡ some s₁)
      × (munmap (linear_start + root) ptr s₁ ≡ some (page, s₂))
      × (translate s₂.mem root ptr' ≡ none)
      × Represents s₂ p'
      × IsWhole shifts s₂.mem p' root ptr []
munmap-mmap root page ptr ptr' usermode s p r g way aligned small same =
    let (s₁, p', e, m) = mmap-Mapped root page ptr usermode [] s p r g tt way aligned small in
    let o = leaf-Owned shifts s₁.mem p' root ptr [] m.whole in
    let found = whole-resolve_from shifts s₁ p' root ptr [] m.whole in
    let put = write_leaf-Put root ptr 0 [] s₁ p' (omega arith) m.represents m.whole in
    let back = (page_word page usermode aligned small).2 in
    (
      s₁,
      write_leaf root ptr 0 s₁,
      p',
      e,
      munmap-eq root ptr s₁ s₁ o.0 found
          ∙ ap (λ w. some (entry_address w, write_leaf root ptr 0 s₁)) m.holds
          ∙ ap (λ a. some (a, write_leaf root ptr 0 s₁)) back,
      translate-leaf (write_leaf root ptr 0 s₁).mem p' root ptr ptr' [] same put.whole
          ∙ ap (λ w. page_of w ptr') put.holds,
      put.represents,
      put.whole,
    )
