-- ===== src/Elf/Headers.antt =====
-- The program headers of an image that lies in memory.
use metal_to_app.Base.{
  ℕ, suc, ◌+◌, ◌/◌, ◌%◌, ◌^◌, ◌≤◌, ◌<◌, ◌≡◌, ◌≢◌, refl, ap, ◌∙◌, ◌⊎◌, ◌==◌, if◌then◌else◌, some,
  List, [], ◌∷◌, Mem, load, ne→==, eq→==, arith,
}
use metal_to_app.Memory.{linear_start, physical}
use metal_to_app.Memory.Linear.{physical-linear}
use metal_to_app.Frame.{FrameState}
use metal_to_app.Frame.Pool.{Pool}
use metal_to_app.Paging.Placed.{Labels}
use metal_to_app.Elf.{copy_section, load_segments, field}
use metal_to_app.Elf.Data.{AllData, IsOutside, Reads, section_byte}
use metal_to_app.Elf.Copy.{frames_for}

-- The fields of a program header that `load_elf` reads.
pub record Segment : Type 0 where
  pub type : ℕ
  pub off : ℕ
  pub vaddr : ℕ
  pub filesz : ℕ
  pub memsz : ℕ

-- The header at the address `h`.
pub record IsHeader (m : Mem) (h : ℕ) (g : Segment) : Type 0 where
  pub type_at : load 4 m h ≡ g.type
  pub off_at : load 8 m (h + 0x8) ≡ g.off
  pub vaddr_at : load 8 m (h + 0x10) ≡ g.vaddr
  pub filesz_at : load 8 m (h + 0x20) ≡ g.filesz
  pub memsz_at : load 8 m (h + 0x28) ≡ g.memsz

-- The number of pages that a segment takes.
abbrev pub pages : Segment → ℕ
pages g = (g.memsz + g.vaddr % 0x1000 + 0xfff) / 0x1000

-- The program headers one after the other, and the frames for their segments with `n` more.
abbrev pub count : List Segment → ℕ
count [] = 0
count (g ∷ gs) = suc (count gs)

abbrev pub frames_for_all : List Segment → ℕ → ℕ
frames_for_all [] n = n
frames_for_all (g ∷ gs) n =
    if g.type == 1 then frames_for (pages g) (frames_for_all gs n) else frames_for_all gs n

-- A segment that can be loaded from the image at `image`: its data is in place, and it lies in the lower
-- half.
pub record IsLoadable (fuel image : ℕ) (l : Labels) (p : Pool) (g : Segment) : Type 0 where
  pub enough : pages g < fuel
  pub low : g.vaddr + g.memsz ≤ 2 ^ 47
  pub short : g.filesz ≤ g.memsz
  pub within : image + g.off + g.filesz < 2 ^ 39
  pub in_place : AllData l p (image + g.off) g.filesz

-- Two segments have no page in common.
abbrev pub IsApart : Segment → Segment → Type 0
IsApart g h =
    ((g.vaddr + g.memsz + 0xfff) / 0x1000 ≤ h.vaddr / 0x1000)
    ⊎ ((h.vaddr + h.memsz + 0xfff) / 0x1000 ≤ g.vaddr / 0x1000)

abbrev pub ApartFrom : Segment → List Segment → Type 0
ApartFrom g [] = Unit
ApartFrom g (h ∷ hs) = (h.type ≡ 1 → IsApart g h) × ApartFrom g hs

-- The headers from `h` on, each of `size` bytes, are those of a list of segments, of which those of type 1
-- can be loaded and have no page in common.
abbrev pub IsImage : ℕ → ℕ → ℕ → Labels → Mem → Pool → ℕ → List Segment → Type 0
IsImage fuel image size l m p h [] = Unit
IsImage fuel image size l m p h (g ∷ gs) =
    IsHeader m h g
    × AllData l p h 0x38
    × (h + 0x38 ≤ 2 ^ 39)
    × (g.type ≡ 1 → IsLoadable fuel image l p g × ApartFrom g gs)
    × IsImage fuel image size l m p (h + size) gs

abbrev pub OutsideAll : List Segment → ℕ → Type 0
OutsideAll [] q = Unit
OutsideAll (g ∷ gs) q = (g.type ≡ 1 → IsOutside g.vaddr g.memsz q) × OutsideAll gs q

-- The CPU reads the segments of type 1 at their addresses.
abbrev pub AllRead : ℕ → ℕ → Labels → Mem → Pool → Mem → List Segment → Type 0
AllRead root image l m p m₀ [] = Unit
AllRead root image l m p m₀ (g ∷ gs) =
    (g.type ≡ 1
      → (i : ℕ) → i < g.memsz
      → Reads l m p root (g.vaddr + i) (section_byte m₀ (image + g.off) g.filesz i))
    × AllRead root image l m p m₀ gs

pub apart-OutsideAll :
    (g : Segment) (gs : List Segment) (i : ℕ)
    → i < g.memsz
    → ApartFrom g gs
    → OutsideAll gs (g.vaddr + i)
apart-OutsideAll g [] i lt a = tt
apart-OutsideAll g (h ∷ hs) i lt (a, rest) =
    (λ e. omega (arith, a e), apart-OutsideAll g hs i lt rest)

field_at :
    (n h k : ℕ) (s : FrameState)
    → h + 0x38 ≤ 2 ^ 39
    → k < 0x38
    → field n (linear_start + h + k) s ≡ load n s.mem (h + k)
field_at n h k s fits lt =
    let whole : (linear_start + h + k) % 2 ^ 64 ≡ linear_start + (h + k) = omega arith in
    ap (load n s.mem) (ap physical whole ∙ physical-linear (h + k) (omega arith))

module _ (fuel n size start space h : ℕ) (g : Segment) (s : FrameState) (fits : h + 0x38 ≤ 2 ^ 39)
    (here : IsHeader s.mem h g) where
  type_field : field 4 (linear_start + h) s ≡ g.type
  type_field =
      ap (λ x. field 4 x s) (omega arith)
      ∙ field_at 4 h 0 s fits (omega arith)
      ∙ ap (load 4 s.mem) (omega arith)
      ∙ here.type_at

  pub segments-skip :
      g.type ≢ 1
      → load_segments fuel (suc n) size (linear_start + h) start space s
        ≡ load_segments fuel n size ((linear_start + h + size) % 2 ^ 64) start space s
  unfolding load_segments
  segments-skip ne = rw (type_field, ne→== g.type 1 ne, load_segments) refl

  pub segments-load :
      (s₁ : FrameState)
      → g.type ≡ 1
      → copy_section fuel space g.vaddr ((start + g.off) % 2 ^ 64) g.memsz g.filesz s ≡ some s₁
      → load_segments fuel (suc n) size (linear_start + h) start space s
        ≡ load_segments fuel n size ((linear_start + h + size) % 2 ^ 64) start space s₁
  unfolding load_segments
  segments-load s₁ e run =
      rw
        (
          type_field,
          eq→== g.type 1 e,
          field_at 8 h 0x10 s fits (omega arith) ∙ here.vaddr_at,
          field_at 8 h 0x8 s fits (omega arith) ∙ here.off_at,
          field_at 8 h 0x28 s fits (omega arith) ∙ here.memsz_at,
          field_at 8 h 0x20 s fits (omega arith) ∙ here.filesz_at,
          run,
          load_segments,
        )
        refl
