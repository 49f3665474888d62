-- ===== src/Elf/Load.antt =====
-- `load_elf`.
use metal_to_app.Base.{ℕ, ◌+◌, ◌%◌, ◌^◌, ◌≤◌, ◌<◌, ◌≡◌, refl, ap, ◌∙◌, some, List, Mem, load, arith}
use metal_to_app.Memory.{linear_start, physical}
use metal_to_app.Memory.Linear.{physical-linear}
use metal_to_app.Frame.{FrameState}
use metal_to_app.Frame.Pool.{Pool}
use metal_to_app.Frame.Invariant.{Represents}
use metal_to_app.Paging.Ensure.{Gives}
use metal_to_app.Paging.Placed.{Labels, IsSpace}
use metal_to_app.Elf.{load_segments, load_elf, field}
use metal_to_app.Elf.Data.{AllData}
use metal_to_app.Elf.Images.{SegmentsLoaded}
use metal_to_app.Elf.Segments.{pointer_args, load_segments-SegmentsLoaded}
use metal_to_app.Elf.Headers.{Segment, count, frames_for_all, IsImage}

elf_field :
    (n image k : ℕ) (s : FrameState)
    → image + 0x40 ≤ 2 ^ 39
    → k < 0x40
    → field n (linear_start + image + k) s ≡ load n s.mem (image + k)
elf_field n image k s fits lt =
    let whole : (linear_start + image + k) % 2 ^ 64 ≡ linear_start + (image + k) = omega arith in
    ap (load n s.mem) (ap physical whole ∙ physical-linear (image + k) (omega arith))

-- The fields of an ELF header that `load_elf` reads, and what they mean for the image.
pub record IsElf (fuel image entry size : ℕ) (gs : List Segment) (l : Labels) (m : Mem) (p : Pool)
    : Type 0 where
  pub headers : ℕ
  pub fits : image + 0x40 ≤ 2 ^ 39
  pub entry_at : load 8 m (image + 0x18) ≡ entry
  pub headers_at : load 8 m (image + 0x20) ≡ headers
  pub size_at : load 2 m (image + 0x36) ≡ size
  pub count_at : load 2 m (image + 0x38) ≡ count gs
  pub short : size < 2 ^ 16
  pub near : image + headers < 2 ^ 39
  pub header_data : AllData l p image 0x40
  pub is_image : IsImage fuel image size l m p (image + headers) gs

load_elf-found :
    (fuel start space n size headers : ℕ) (s s' : FrameState)
    → field 8 (start + 0x20) s ≡ headers
    → field 2 (start + 0x36) s ≡ size
    → field 2 (start + 0x38) s ≡ n
    → load_segments fuel n size ((start + headers) % 2 ^ 64) start space s ≡ some s'
    → load_elf fuel start space s ≡ some (field 8 (start + 0x18) s, s')
unfolding load_elf
load_elf-found fuel start space n size headers s s' e₁ e₂ e₃ run =
    rw (e₁, e₂, e₃, run, load_elf) refl

-- For an image in frames that the allocator does not have and that are no tables, whose segments
-- of type 1 share no page and each fit the bounds of copy_section, with fuel above the pages of
-- each and four frames for each page in the pool, load_elf returns the entry point of the
-- header; through each address of a segment of type 1 the CPU then reads the byte that the image
-- had before, or 0 behind the bytes of the image, and addresses of other pages are translated as
-- before.
pub load_elf-SegmentsLoaded :
    (fuel n root image entry size : ℕ) (gs : List Segment) (l : Labels) (s : FrameState) (p : Pool)
    → Represents s p
    → IsSpace l s.mem p root
    → Gives (frames_for_all gs n) p
    → IsElf fuel image entry size gs l s.mem p
    → (s' : FrameState) × (p' : Pool) × (load_elf fuel
          (linear_start + image)
          (linear_start + root)
          s
        ≡ some (entry, s'))
      × SegmentsLoaded n root image gs l s s' p p'
load_elf-SegmentsLoaded fuel n root image entry size gs l s p r space g e =
    let (s', p', run, x) =
      load_segments-SegmentsLoaded fuel n root image size (image + e.headers) gs l s p e.short r
        space g e.is_image in
    let at : (linear_start + image + e.headers) % 2 ^ 64 ≡ linear_start + (image + e.headers) =
      omega (arith, e.near) in
    (
      s',
      p',
      load_elf-found fuel (linear_start + image) (linear_start + root) (count gs) size e.headers s
            s' (elf_field 8 image 0x20 s e.fits (omega arith) ∙ e.headers_at)
            (elf_field 2 image 0x36 s e.fits (omega arith) ∙ e.size_at)
            (elf_field 2 image 0x38 s e.fits (omega arith) ∙ e.count_at)
            (pointer_args fuel (count gs) size (linear_start + image) (linear_start + root)
                ((linear_start + image + e.headers) % 2 ^ 64) (linear_start + (image + e.headers)) s
                at
              ∙ run)
          ∙ ap (λ x. some (x, s')) (elf_field 8 image 0x18 s e.fits (omega arith) ∙ e.entry_at),
      x,
    )
