-- ===== src/Paging/Tests.antt =====
-- Mappings in an address space without tables, with a pool of six frames.
use metal_to_app.Base.{◌+◌, ◌≡◌, refl, inl, true, if◌then◌else◌, none, some, [], load, arith}
use metal_to_app.Memory.{linear_start, kernel_base, physical}
use metal_to_app.Frame.{FrameState, init_frame_allocator}
use metal_to_app.Frame.Pool
use metal_to_app.Frame.Pool.{Pool}
use metal_to_app.Frame.Invariant.{Represents, init-Represents}
use metal_to_app.Paging.{shifts, mmap, munmap}
use metal_to_app.Paging.Tables.{IsWay, IsWhole}
use metal_to_app.Paging.Ensure.{Gives, Gives-range, load-zeros}
use metal_to_app.Paging.Placed.{Labels, IsSpace}
use metal_to_app.Paging.Others.{Remapped, mmap-Remapped}
use metal_to_app.Paging.Empty.{empty-IsSpace}
use metal_to_app.Base.{◌*◌, ◌==◌}
use metal_to_app.Paging.Mmu.{translate}
use metal_to_app.Paging.Mapping.{translate-mmap, munmap-mmap}
use metal_to_app.Paging.Kernel.{create_kernel_address_space}
use metal_to_app.Paging.Rows.{IsLinked, tables_at}
use metal_to_app.Paging.Walk.{in_windows}
use metal_to_app.Paging.Window.{create_kernel_address_space_lem}

unfoldable pub fresh : FrameState
unfolding init_frame_allocator
fresh = init_frame_allocator 0x3000 0x9000 (λ q. 0)

abbrev pub pool : Pool
pool = record { free = []; low = 0x3000; high = 0x9000 }

pub fresh-Represents : Represents fresh pool
unfolding fresh
fresh-Represents = init-Represents 0x3000 0x9000 (λ q. 0) (omega arith) (omega arith) (omega arith)

pool-Gives : Gives 3 pool
unfolding Pool.alloc Pool.alloc_from Pool.alloc_from_range
pool-Gives = (_, _, refl, (_, _, refl, (_, _, refl, tt)))

-- The pool after its first frame is out.
abbrev pub after_first : Pool
after_first = record { free = []; low = 0x4000; high = 0x9000 }

pub after_first-Gives : Gives 3 after_first
unfolding Pool.alloc Pool.alloc_from Pool.alloc_from_range
after_first-Gives = (_, _, refl, (_, _, refl, (_, _, refl, tt)))

-- The root table in the frame 0x1000 is empty.
empty-IsWay : IsWay shifts fresh.mem pool 0x1000 0x400000 []
unfolding fresh init_frame_allocator load
empty-IsWay = (((omega arith, refl, omega arith), refl), refl, refl, inl refl)

translate-mmap_example :
    (s' : FrameState) × (p' : Pool) × (mmap (linear_start + 0x1000) 0x8000 0x400000 true fresh
      ≡ some s')
    × (translate s'.mem 0x1000 0x400123 ≡ some 0x8123)
    × Represents s' p'
    × IsWhole shifts s'.mem p' 0x1000 0x400000 []
translate-mmap_example =
    translate-mmap 0x1000 0x8000 0x400000 0x400123 true fresh pool fresh-Represents pool-Gives
      empty-IsWay refl (omega arith) refl

munmap-mmap_example :
    (s₁ : FrameState) × (s₂ : FrameState) × (p' : Pool) × (mmap
        (linear_start + 0x1000)
        0x8000
        0x400000
        true
        fresh
      ≡ some s₁)
    × (munmap (linear_start + 0x1000) 0x400000 s₁ ≡ some (0x8000, s₂))
    × (translate s₂.mem 0x1000 0x400123 ≡ none)
    × Represents s₂ p'
    × IsWhole shifts s₂.mem p' 0x1000 0x400000 []
munmap-mmap_example =
    munmap-mmap 0x1000 0x8000 0x400000 0x400123 true fresh pool fresh-Represents pool-Gives
      empty-IsWay refl (omega arith) refl

-- The root table is the frame 0x1000, and no other frame is a table.
abbrev root_table : Labels
root_table = record { level = λ b. if b == 0x1000 then 3 else 4; place = λ b. 0 }

fresh-IsSpace : IsSpace root_table fresh.mem pool 0x1000
unfolding fresh init_frame_allocator
fresh-IsSpace =
    (empty-IsSpace root_table fresh.mem pool 0x1000 ((omega arith, refl, omega arith), refl) refl
      refl (λ k lt. load-zeros 8 (0x1000 + 8 * k))).0

mmap-Remapped_example :
    (s' : FrameState) × (p' : Pool) × (mmap (linear_start + 0x1000) 0x8000 0x400000 true fresh
      ≡ some s')
    × Remapped 1 0x1000 0x8000 0x400000 root_table fresh s' pool p'
mmap-Remapped_example =
    mmap-Remapped 1 0x1000 0x8000 0x400000 true root_table fresh pool fresh-Represents fresh-IsSpace
      (Gives-range 4 0x3000 0x9000 (omega arith)) (omega arith) refl (omega arith)

-- The static tables in four frames at 20 MiB, and an address of the image.
four-IsLinked : IsLinked 0x1400000 0x1401000 0x1402000 0x1403000
four-IsLinked = record {
  pml4_static = ground arith;
  dir_static = ground arith;
  dirtable_static = ground arith;
  linear_static = ground arith;
  apart = ground arith;
}

create_kernel_address_space_lem_example :
    (s' : FrameState) × (create_kernel_address_space
        (tables_at 0x1400000 0x1401000 0x1402000 0x1403000)
        fresh
      ≡ some (0x1400000, s'))
    × (translate s'.mem 0x1400000 (kernel_base + 0x200123) ≡ (
        if in_windows (kernel_base + 0x200123)
        then some (physical (kernel_base + 0x200123))
        else none))
create_kernel_address_space_lem_example =
    create_kernel_address_space_lem 0x1400000 0x1401000 0x1402000 0x1403000 four-IsLinked fresh
      (kernel_base + 0x200123) (ground arith)
