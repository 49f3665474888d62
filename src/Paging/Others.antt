-- ===== src/Paging/Others.antt =====
-- `mmap` in an address space whose lower half is a tree: one page is translated anew, and the
-- translation of every other address stays.
use metal_to_app.Base.{
  ℕ, ◌+◌, ◌*◌, ◌/◌, ◌%◌, ◌^◌, ◌≤◌, ◌<◌, ◌≡◌, ◌≢◌, refl, sym, ap, ◌∙◌, ◌⊎◌, inl, inr, ◌==◌,
  if◌then◌else◌, Bool, some, store, load-store_self, store_outside, eq-cases, eq→==, ne→==, arith,
}
use metal_to_app.Memory.{linear_start}
use metal_to_app.Frame.{FrameState}
use metal_to_app.Frame.Pool.{Pool}
use metal_to_app.Frame.Invariant.{Represents}
use metal_to_app.Paging.{entry_idx, entry_ptr, entry_word, resolve_from, resolve_pageentry, mmap}
use metal_to_app.Paging.Slots.{Owned, entry_idx-lt, write_entry-eq, Represents-store}
use metal_to_app.Paging.Ensure.{Gives}
use metal_to_app.Paging.Levels.{levels, entry_idx-spot}
use metal_to_app.Paging.Placed.{
  Labels, Here, IsPlaced, IsLow, IsSpace, placed-Reaches, Reaches-self, Reaches-spot, Changed, off,
}
use metal_to_app.Paging.Fill.{paged}
use metal_to_app.Paging.Step.{Kept, Kept-trans}
use metal_to_app.Paging.Search.{more, Searched, resolve-Searched}
use metal_to_app.Paging.Mmu.{page_of, translate}
use metal_to_app.Paging.Entry.{page_word, page_of-word, mmap-found}

-- What `mmap` of a page at an address leaves.
pub record Remapped (n root page ptr : ℕ) (l : Labels) (s s' : FrameState) (p p' : Pool)
    : Type 0 where
  pub new_labels : Labels
  pub represents : Represents s' p'
  pub gives : Gives n p'
  pub space : IsSpace new_labels s'.mem p' root
  pub kept : Kept l new_labels s.mem s'.mem p p'
  pub walks :
      (q : ℕ)
      → IsLow q
      → translate s'.mem root q
        ≡ (if q / 0x1000 == ptr / 0x1000 then some (page + q % 0x1000) else translate s.mem root q)

module _ (n u root ptr word : ℕ) (l : Labels) (s s₁ : FrameState) (p p₁ : Pool)
    (h : Searched n u root ptr l s s₁ p p₁) (low : IsLow ptr) (size : word < 2 ^ 64) where
  abbrev idx : ℕ
  idx = entry_idx ptr 12

  abbrev pub written : FrameState
  written = record s₁ { mem = store 8 s₁.mem (u + 8 * idx) word }

  pub at_u : Here h.new_labels p₁ 0 u ptr
  at_u = placed-Reaches 3 h.new_labels s₁.mem p₁ root ptr 0 u (h.space ptr low) h.reaches

  written-Changed :
      Changed 0 u (h.new_labels.place u) idx h.new_labels h.new_labels s₁.mem written.mem p₁ p₁
  written-Changed = record {
    owned = at_u.owned;
    at_level = at_u.at_level;
    at_place = refl;
    shrinks = λ b e. e;
    labels = λ b e. (refl, refl);
    keeps = λ b q o lo hi apart.
        store_outside 8 s₁.mem (u + 8 * idx) word q (outside b q o lo hi apart);
  }
    where
      outside :
          (b q : ℕ)
          → Owned p₁ b
          → b ≤ q
          → q < b + 0x1000
          → (b ≢ u) ⊎ ((q < u + 8 * idx) ⊎ (u + 8 * idx + 8 ≤ q))
          → (q < u + 8 * idx) ⊎ (u + 8 * idx + 8 ≤ q)
      outside b q o lo hi (inr e) = e
      outside b q o lo hi (inl ne) = omega (arith, o.0, at_u.owned.0, entry_idx-lt ptr 12)

  spot_u : h.new_labels.place u * 512 + idx ≡ ptr / 0x1000
  spot_u = let at = at_u.at_place in let i = entry_idx-spot 0 ptr in omega arith

  after :
      (q : ℕ)
      → IsLow q
      → IsPlaced 3 h.new_labels written.mem p₁ root q
        × (translate written.mem root q
            ≡ (if q / 0x1000 == ptr / 0x1000 then page_of word q else translate s₁.mem root q))
  after q e = elim (eq-cases (q / 0x1000) (ptr / 0x1000)) [
    | inl same ↦
        let (placed, walk) =
          paged u (h.new_labels.place u) idx word h.new_labels h.new_labels s₁.mem written.mem p₁ p₁
            written-Changed (entry_idx-lt ptr 12)
            (load-store_self 8 s₁.mem (u + 8 * idx) word (omega arith)) 3 root q (h.space q e)
            (Reaches-spot 3 s₁.mem root ptr q 0 u (ap (λ x. x / 512) same) h.reaches)
            (same ∙ sym spot_u) in
        rw (eq→== (q / 0x1000) (ptr / 0x1000) same) (placed, walk)
    | inr ne ↦ rw (ne→== (q / 0x1000) (ptr / 0x1000) ne) (
        off 0 u (h.new_labels.place u) idx h.new_labels h.new_labels s₁.mem written.mem p₁ p₁
          written-Changed root q (h.space q e) (λ x. ne (x ∙ spot_u)))
  ]

  pub written-Represents : Represents written p₁
  written-Represents =
      Represents-store u idx word s₁ p₁ at_u.owned (entry_idx-lt ptr 12) h.represents

  written-Kept : Kept h.new_labels h.new_labels s₁.mem written.mem p₁ p₁
  written-Kept = record {
    shrinks = λ b e. e;
    labels = λ b e. (refl, refl);
    bytes = λ b q o high lo hi.
        written-Changed.keeps b q o lo hi
          (inl (λ e. omega (arith, ap h.new_labels.level e, at_u.at_level)));
  }

  pub written-Remapped :
      (page : ℕ)
      → ((q : ℕ) → page_of word q ≡ some (page + q % 0x1000))
      → Remapped n root page ptr l s written p p₁
  written-Remapped page at = record {
    new_labels = h.new_labels;
    represents = written-Represents;
    gives = h.gives;
    space = λ q e. (after q e).0;
    kept =
        Kept-trans l h.new_labels h.new_labels s.mem s₁.mem written.mem p p₁ p₁ h.kept written-Kept;
    walks = λ q e. (after q e).1 ∙ choose q e;
  }
    where
      choose :
          (q : ℕ)
          → IsLow q
          → (if q / 0x1000 == ptr / 0x1000 then page_of word q else translate s₁.mem root q) ≡ (
              if q / 0x1000 == ptr / 0x1000
              then some (page + q % 0x1000)
              else translate s.mem root q)
      choose q e = rw (at q, h.walks q e) refl

resolved :
    (root ptr : ℕ) (s : FrameState)
    → resolve_pageentry root ptr s ≡ resolve_from (levels 3) root ptr s
unfolding resolve_pageentry
resolved root ptr s = refl

-- In an address space whose lower half is a tree of tables without big entries, each in its one
-- place, and with four frames in the pool beyond n - 1, mmap of a page below 2^52 at an address
-- of the lower half returns; the CPU then reaches that page through the page of the address and
-- translates every other address of the lower half as before, the lower half is a tree of tables
-- again, the pool is still represented and has n frames, and frames that the allocator did not
-- have and that are no tables keep their bytes.
pub mmap-Remapped :
    (n root page ptr : ℕ) (usermode : Bool) (l : Labels) (s : FrameState) (p : Pool)
    → Represents s p
    → IsSpace l s.mem p root
    → Gives (more 3 n) p
    → IsLow ptr
    → page % 0x1000 ≡ 0
    → page < 2 ^ 52
    → (s' : FrameState) × (p' : Pool) × (mmap (linear_start + root) page ptr usermode s ≡ some s')
      × Remapped n root page ptr l s s' p p'
mmap-Remapped n root page ptr usermode l s p r space g low aligned small =
    let (s₁, p₁, u, found, h) =
      resolve-Searched n root ptr low 3 root l s p r space (Reaches-self 3 s.mem root ptr) g in
    let word : ℕ = entry_word page usermode in
    let size = (page_word page usermode aligned small).4 in
    (
      written n u root ptr word l s s₁ p p₁ h low size,
      p₁,
      mmap-found (linear_start + root) page ptr (entry_ptr (linear_start + u) (entry_idx ptr 12))
            usermode s s₁ (resolved (linear_start + root) ptr s ∙ found)
          ∙ ap some (
              write_entry-eq u (entry_idx ptr 12) word s₁
                (at_u n u root ptr word l s s₁ p p₁ h low size).owned.0 (entry_idx-lt ptr 12)),
      written-Remapped n u root ptr word l s s₁ p p₁ h low size page
          (λ q. page_of-word page q usermode aligned small),
    )
