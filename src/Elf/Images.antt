-- ===== src/Elf/Images.antt =====
-- An image in memory while its segments are loaded.
use metal_to_app.Base.{
  ℕ, ◌+◌, ◌-◌, ◌^◌, ◌≤◌, ◌<◌, ◌≡◌, ◌≢◌, refl, ap, ◌∙◌, inl, inr, if◌then◌else◌, false, ltb, List,
  [], ◌∷◌, Mem, load, load_agree, lt-cases, arith,
}
use mathlib.Core.Path.{subst}
use metal_to_app.Frame.{FrameState}
use metal_to_app.Frame.Pool.{Pool}
use metal_to_app.Frame.Invariant.{Represents}
use metal_to_app.Paging.Ensure.{Gives}
use metal_to_app.Paging.Placed.{Labels, IsLow, IsSpace}
use metal_to_app.Paging.Step.{Kept, Kept-trans}
use metal_to_app.Paging.Mmu.{translate}
use metal_to_app.Elf.Data.{IsData-Kept, AllData, section_byte, Loaded}
use metal_to_app.Elf.Headers.{
  Segment, IsHeader, IsLoadable, ApartFrom, IsImage, OutsideAll, AllRead, apart-OutsideAll,
}

module _ (l l' : Labels) (m m' : Mem) (p p' : Pool) (k : Kept l l' m m' p p') where
  pub AllData-Kept : (c n : ℕ) → AllData l p c n → AllData l' p' c n
  AllData-Kept c n d i lt = (IsData-Kept l l' m m' p p' (c + i) k (d i lt)).0

  data_same : (c n q : ℕ) → AllData l p c n → c ≤ q → q < c + n → m' q ≡ m q
  data_same c n q d lo hi =
      let at : c + (q - c) ≡ q = omega arith in
      subst (λ x. m' x ≡ m x) at
        (IsData-Kept l l' m m' p p' (c + (q - c)) k (d (q - c) (omega arith))).1

  pub load_same : (c n b i : ℕ) → AllData l p c n → i + b ≤ n → load b m' (c + i) ≡ load b m (c + i)
  load_same c n b i d fits =
      load_agree b m' m (c + i) λ q lo hi. data_same c n q d (omega arith) (omega arith)

  IsHeader-Kept : (h : ℕ) (g : Segment) → AllData l p h 0x38 → IsHeader m h g → IsHeader m' h g
  IsHeader-Kept h g d e = record {
    type_at = load_agree 4 m' m h (λ q lo hi. data_same h 0x38 q d lo (omega arith)) ∙ e.type_at;
    off_at = load_same h 0x38 8 0x8 d (omega arith) ∙ e.off_at;
    vaddr_at = load_same h 0x38 8 0x10 d (omega arith) ∙ e.vaddr_at;
    filesz_at = load_same h 0x38 8 0x20 d (omega arith) ∙ e.filesz_at;
    memsz_at = load_same h 0x38 8 0x28 d (omega arith) ∙ e.memsz_at;
  }

  IsLoadable-Kept :
      (fuel image : ℕ) (g : Segment) → IsLoadable fuel image l p g → IsLoadable fuel image l' p' g
  IsLoadable-Kept fuel image g e = record {
    enough = e.enough;
    low = e.low;
    short = e.short;
    within = e.within;
    in_place = AllData-Kept (image + g.off) g.filesz e.in_place;
  }

  pub IsImage-Kept :
      (fuel image size h : ℕ) (gs : List Segment)
      → IsImage fuel image size l m p h gs
      → IsImage fuel image size l' m' p' h gs
  IsImage-Kept fuel image size h [] e = tt
  IsImage-Kept fuel image size h (g ∷ gs) (here, d, fits, loadable, rest) = (
    IsHeader-Kept h g d here,
    AllData-Kept h 0x38 d,
    fits,
    λ e. (IsLoadable-Kept fuel image g (loadable e).0, (loadable e).1),
    IsImage-Kept fuel image size (h + size) gs rest,
  )

  byte_same : (c f i : ℕ) → AllData l p c f → section_byte m' c f i ≡ section_byte m c f i
  byte_same c f i d = elim (lt-cases i f) [
    | inl lt ↦ ap (λ x. if ltb i f then x else 0) (IsData-Kept l l' m m' p p' (c + i) k (d i lt)).1
    | inr le ↦ let no : ltb i f ≡ false = ground arith in rw no refl
  ]

  -- What the later segments hold stands in the image from the beginning.
  pub AllRead-image :
      (fuel image size h root : ℕ) (l₂ : Labels) (m₂ : Mem) (p₂ : Pool) (gs : List Segment)
      → IsImage fuel image size l m p h gs
      → AllRead root image l₂ m₂ p₂ m' gs
      → AllRead root image l₂ m₂ p₂ m gs
  AllRead-image fuel image size h root l₂ m₂ p₂ [] e r = tt
  AllRead-image fuel image size h root l₂ m₂ p₂ (g ∷ gs) (here, d, fits, loadable, rest) (r, rs) = (
    λ e i lt.
        let (q, walk, byte, there) = r e i lt in
        (q, walk, byte ∙ byte_same (image + g.off) g.filesz i (loadable e).0.in_place, there),
    AllRead-image fuel image size (h + size) root l₂ m₂ p₂ gs rest rs,
  )

-- What the loop leaves.
pub record SegmentsLoaded (n root image : ℕ) (gs : List Segment) (l : Labels) (s s' : FrameState)
    (p p' : Pool) : Type 0 where
  pub new_labels : Labels
  pub represents : Represents s' p'
  pub gives : Gives n p'
  pub space : IsSpace new_labels s'.mem p' root
  pub kept : Kept l new_labels s.mem s'.mem p p'
  pub others :
      (q : ℕ) → IsLow q → OutsideAll gs q → translate s'.mem root q ≡ translate s.mem root q
  pub reads : AllRead root image new_labels s'.mem p' s.mem gs

-- A segment is loaded, and then the others.
pub Loaded-both :
    (fuel n k root image size h : ℕ) (g : Segment) (gs : List Segment) (l : Labels)
    (s s₁ s' : FrameState) (p p₁ p' : Pool)
    → g.vaddr + g.memsz ≤ 2 ^ 47
    → ApartFrom g gs
    → IsImage fuel image size l s.mem p h gs
    → (x : Loaded k root g.vaddr (image + g.off) g.memsz g.filesz l s s₁ p p₁)
    → SegmentsLoaded n root image gs x.new_labels s₁ s' p₁ p'
    → g.type ≡ 1
    → SegmentsLoaded n root image (g ∷ gs) l s s' p p'
Loaded-both fuel n k root image size h g gs l s s₁ s' p p₁ p' low apart im x y one = record {
  new_labels = y.new_labels;
  represents = y.represents;
  gives = y.gives;
  space = y.space;
  kept = Kept-trans l x.new_labels y.new_labels s.mem s₁.mem s'.mem p p₁ p' x.kept y.kept;
  others = λ q low_q (out, outs). y.others q low_q outs ∙ x.others q low_q (out one);
  reads = (
    λ e i lt.
        let (q, walk, byte, there) = x.bytes i lt in
        let (there', same) =
          IsData-Kept x.new_labels y.new_labels s₁.mem s'.mem p₁ p' q y.kept there in
        (
          q,
          y.others (g.vaddr + i) (omega arith) (apart-OutsideAll g gs i lt apart) ∙ walk,
          same ∙ byte,
          there',
        ),
    AllRead-image l x.new_labels s.mem s₁.mem p p₁ x.kept fuel image size h root y.new_labels s'.mem
        p' gs im y.reads,
  );
}

pub Loaded-skip :
    (n root image : ℕ) (g : Segment) (gs : List Segment) (l : Labels) (s s' : FrameState)
    (p p' : Pool)
    → g.type ≢ 1
    → SegmentsLoaded n root image gs l s s' p p'
    → SegmentsLoaded n root image (g ∷ gs) l s s' p p'
Loaded-skip n root image g gs l s s' p p' ne y = record {
  new_labels = y.new_labels;
  represents = y.represents;
  gives = y.gives;
  space = y.space;
  kept = y.kept;
  others = λ q low (out, outs). y.others q low outs;
  reads = (λ e. absurd (ne e), y.reads);
}
