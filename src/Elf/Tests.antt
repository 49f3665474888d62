-- ===== src/Elf/Tests.antt =====
-- An image of two headers in the frame 0x100000; the first is of a segment that lies across two pages.
use metal_to_app.Base.{
  ℕ, ◌+◌, ◌*◌, ◌/◌, ◌≤◌, ◌<◌, ◌≡◌, refl, inl, some, if◌then◌else◌, ◌==◌, [], ◌∷◌, Mem, load, store,
  store_outside, load_agree, ◌∙◌, arith,
}
use metal_to_app.Memory.{linear_start}
use metal_to_app.Frame.{FrameState, init_frame_allocator}
use metal_to_app.Frame.Pool.{Pool}
use metal_to_app.Frame.Invariant.{Represents, init-Represents}
use metal_to_app.Paging.Ensure.{Gives-range, load-zeros}
use metal_to_app.Paging.Placed.{Labels, IsSpace}
use metal_to_app.Paging.Empty.{empty-IsSpace}
use metal_to_app.Console.Tests.{memory}
use metal_to_app.Elf.{load_elf}
use metal_to_app.Elf.Data.{AllData}
use metal_to_app.Elf.Headers.{Segment}
use metal_to_app.Elf.Images.{SegmentsLoaded}
use metal_to_app.Elf.Load.{IsElf, load_elf-SegmentsLoaded}

abbrev pub code : Segment
code = record { type = 1; off = 0xb0; vaddr = 0x400ff8; filesz = 4; memsz = 0x10 }

abbrev pub note : Segment
note = record { type = 4; off = 0xb0; vaddr = 0; filesz = 4; memsz = 4 }

abbrev header : Mem → ℕ → Segment → Mem
header m h g =
    store 4
      (store 8
        (store 8 (store 8 (store 8 m (h + 0x28) g.memsz) (h + 0x20) g.filesz) (h + 0x10) g.vaddr)
        (h + 8) g.off)
      h g.type

unfoldable pub elf_memory : Mem
elf_memory =
    header
      (header
        (store 4
          (store 2
            (store 2 (store 8 (store 8 memory 0x100018 0x400ff8) 0x100020 0x40) 0x100036 0x38)
            0x100038 2)
          0x1000b0 0x909090f4)
        0x100040 code)
      0x100078 note

unfoldable pub with_image : FrameState
unfolding init_frame_allocator
with_image = init_frame_allocator 0x3000 0x20000 elf_memory

abbrev pub frames : Pool
frames = record { free = []; low = 0x3000; high = 0x20000 }

pub with_image-Represents : Represents with_image frames
unfolding with_image
with_image-Represents =
    init-Represents 0x3000 0x20000 elf_memory (omega arith) (omega arith) (omega arith)

-- The root table 0x1000 and no other.
abbrev pub one_table : Labels
one_table = record { level = λ b. if b == 0x1000 then 3 else 4; place = λ b. 0 }

-- Labels that mark no frame of the image as a table.
abbrev pub IsHigh : Labels → Type 0
IsHigh l = (b : ℕ) → 0x100000 ≤ b → 4 ≤ l.level b

pub one_table-IsHigh : IsHigh one_table
one_table-IsHigh b le = ground arith

pub all_data :
    (l : Labels) (c n : ℕ) → IsHigh l → 0x100000 ≤ c → c + n ≤ 0x300000 → AllData l frames c n
all_data l c n high lo hi i lt =
    let b : ℕ = (c + i) / 0x1000 in
    record {
      owned = ((omega arith, omega arith, omega arith), ground arith);
      no_table = high (b * 0x1000) (omega arith);
    }

pub image-IsElf :
    (l : Labels)
    → IsHigh l
    → IsElf 3 0x100000 0x400ff8 0x38 (code ∷ note ∷ []) l with_image.mem frames
unfolding with_image init_frame_allocator elf_memory load store
image-IsElf l high = record {
  headers = 0x40;
  fits = omega arith;
  entry_at = refl;
  headers_at = refl;
  size_at = refl;
  count_at = refl;
  short = omega arith;
  near = omega arith;
  header_data = all_data l 0x100000 0x40 high (omega arith) (omega arith);
  is_image = (
    record { type_at = refl; off_at = refl; vaddr_at = refl; filesz_at = refl; memsz_at = refl },
    all_data l 0x100040 0x38 high (omega arith) (omega arith),
    omega arith,
    λ e. (
      record {
        enough = omega arith;
        low = omega arith;
        short = omega arith;
        within = omega arith;
        in_place = all_data l 0x1000b0 4 high (omega arith) (omega arith);
      },
      (λ f. absurd (omega (arith, f)), tt),
    ),
    (
      record { type_at = refl; off_at = refl; vaddr_at = refl; filesz_at = refl; memsz_at = refl },
      all_data l 0x100078 0x38 high (omega arith) (omega arith),
      omega arith,
      λ e. absurd (omega (arith, e)),
      tt,
    ),
  );
}

header-outside : (m : Mem) (h q : ℕ) (g : Segment) → q < h → header m h g q ≡ m q
header-outside m h q g lt =
    store_outside 4 _ h g.type q (inl lt)
    ∙ store_outside 8 _ (h + 8) g.off q (inl (omega arith))
    ∙ store_outside 8 _ (h + 0x10) g.vaddr q (inl (omega arith))
    ∙ store_outside 8 _ (h + 0x20) g.filesz q (inl (omega arith))
    ∙ store_outside 8 m (h + 0x28) g.memsz q (inl (omega arith))

-- Below the image memory is zero.
low_zero : (q : ℕ) → q < 0x100000 → elf_memory q ≡ 0
unfolding elf_memory
low_zero q lt =
    header-outside _ 0x100078 q note (omega arith)
    ∙ header-outside _ 0x100040 q code (omega arith)
    ∙ store_outside 4 _ 0x1000b0 0x909090f4 q (inl (omega arith))
    ∙ store_outside 2 _ 0x100038 2 q (inl (omega arith))
    ∙ store_outside 2 _ 0x100036 0x38 q (inl (omega arith))
    ∙ store_outside 8 _ 0x100020 0x40 q (inl (omega arith))
    ∙ store_outside 8 memory 0x100018 0x400ff8 q (inl (omega arith))
    ∙ ground arith

root-IsSpace : IsSpace one_table with_image.mem frames 0x1000
unfolding with_image init_frame_allocator
root-IsSpace =
    (empty-IsSpace one_table with_image.mem frames 0x1000 ((omega arith, refl, omega arith), refl)
      refl refl
      (λ k lt.
        load_agree 8 with_image.mem (λ q. 0) (0x1000 + 8 * k) (λ q lo hi. low_zero q (omega arith))
        ∙ load-zeros 8 (0x1000 + 8 * k))).0

load_elf-SegmentsLoaded_example :
    (s' : FrameState) × (p' : Pool) × (load_elf 3
        (linear_start + 0x100000)
        (linear_start + 0x1000)
        with_image
      ≡ some (0x400ff8, s'))
    × SegmentsLoaded 1 0x1000 0x100000 (code ∷ note ∷ []) one_table with_image s' frames p'
load_elf-SegmentsLoaded_example =
    load_elf-SegmentsLoaded 3 1 0x1000 0x100000 0x400ff8 0x38 (code ∷ note ∷ []) one_table
      with_image frames with_image-Represents root-IsSpace
      (Gives-range 9 0x3000 0x20000 (omega arith)) (image-IsElf one_table one_table-IsHigh)
