-- ===== src/Frame/Tests.antt =====
-- The theorems about the frame allocator at a range of two frames.
use metal_to_app.Base.{◌≡◌, refl, none, some, [], ◌∷◌, Mem, Distinct, All, arith}
use metal_to_app.Frame.{
  FrameState, init_frame_allocator, frame_alloc, frame_alloc_zero, frame_dealloc,
}
use metal_to_app.Frame.Pool
use metal_to_app.Frame.Pool.{Pool, IsFrame}
use metal_to_app.Frame.Invariant.{Represents, init-Represents, frame_dealloc_refines}
use metal_to_app.Frame.Refine.{Agree, zeroed, frame_alloc_zero_refines}
use metal_to_app.Frame.Owners.{Run, boot, take, give, owners-Distinct}

abbrev memory : Mem
memory = λ q. 7

-- The whole frames between 0x1001 and 0x4fff are 0x2000 and 0x3000.
fresh : FrameState
unfolding init_frame_allocator
fresh = init_frame_allocator 0x1001 0x4fff memory

abbrev pool : Pool
pool = record { free = []; low = 0x2000; high = 0x4000 }

fresh-Represents : Represents fresh pool
unfolding fresh
fresh-Represents = init-Represents 0x1001 0x4fff memory (omega arith) (omega arith) (omega arith)

frame_alloc_zero_refines_example :
    Agree (zeroed fresh.mem) (frame_alloc_zero fresh) (Pool.alloc pool)
frame_alloc_zero_refines_example = frame_alloc_zero_refines fresh pool fresh-Represents

frame_dealloc_refines_example : Represents (frame_dealloc 0x1000 fresh) (Pool.dealloc 0x1000 pool)
frame_dealloc_refines_example =
    frame_dealloc_refines fresh pool 0x1000 fresh-Represents (omega arith, refl, omega arith) refl

-- The state behind an allocation.
behind : FrameState → FrameState
unfolding frame_alloc
behind s = elim (frame_alloc s) [ none ↦ s | some (a, s') ↦ s' ]

first : frame_alloc fresh ≡ some (0x2000, behind fresh)
unfolding behind fresh
first = refl

second : frame_alloc (behind fresh) ≡ some (0x3000, behind (behind fresh))
unfolding behind fresh
second = refl

-- Both frames go out, the first is written to and comes back, and goes out again.
again :
    frame_alloc (frame_dealloc 0x2000 (behind (behind fresh)))
    ≡ some (0x2000, behind (frame_dealloc 0x2000 (behind (behind fresh))))
unfolding behind fresh frame_dealloc
again = refl

fresh-Run : Run fresh []
unfolding fresh
fresh-Run = boot 0x1001 0x4fff memory (omega arith) (omega arith) (omega arith)

owners-Distinct_example : Distinct (0x2000 ∷ 0x3000 ∷ []) × All IsFrame (0x2000 ∷ 0x3000 ∷ [])
owners-Distinct_example =
    owners-Distinct
      (take (give 0x2000 (0x3000 ∷ []) [] (take (take fresh-Run first) second) refl) again)
