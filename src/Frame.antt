-- ===== src/Frame.antt =====
-- src/frame.c: the physical frame allocator, a range of frames never handed out yet and a list of
-- the frames handed back, linked through their first words. The pointers are kernel pointers.
pub mod Pool
pub mod Invariant
pub mod Refine
pub mod Taken
pub mod Owners
mod Tests
use metal_to_app.Base.{
  ℕ, ◌+◌, ◌*◌, ◌/◌, ◌%◌, ◌^◌, ◌==◌, if◌then◌else◌, not, Option, none, some, Mem, load, store,
}
use metal_to_app.Klib.{memset}
use metal_to_app.Memory.{linear_address_to_ptr, pointer_to_linear_address, physical}

-- The globals of frame.c, with the memory that the free list lies in.
pub record FrameState : Type 0 where
  pub mem : Mem
  pub freemem_start : ℕ
  pub freemem_end : ℕ
  pub freelist : ℕ

-- `DEFAULT_FRAME_SIZE`, also the size of `struct free_frame`.
abbrev pub frame_size : ℕ
frame_size = 0x1000

abbrev pub null : ℕ
null = 0

-- `init_frame_allocator`.
unfoldable pub init_frame_allocator : ℕ → ℕ → Mem → FrameState
unfolding linear_address_to_ptr
init_frame_allocator fm_start fm_end mem = record {
  mem = mem;
  freemem_start = linear_address_to_ptr ((fm_start + 0xfff) % 2 ^ 64 / 0x1000 * 0x1000);
  freemem_end = linear_address_to_ptr (fm_end / 0x1000 * 0x1000);
  freelist = null;
}

-- `frame_alloc_internal`; `none` is its `panic`.
unfoldable pub frame_alloc_internal : FrameState → Option (ℕ × FrameState)
unfolding physical
frame_alloc_internal s =
    if not (freelist == null)
    then some (freelist, record s { freelist = load 8 mem (physical freelist) })
    else if freemem_start == freemem_end
    then none
    else some (freemem_start, record s { freemem_start = (freemem_start + frame_size) % 2 ^ 64 })
  where
    open s use {mem, freemem_start, freemem_end, freelist}

-- A pointer as the address that the allocator returns.
unfoldable pub return_address : ℕ → FrameState → Option (ℕ × FrameState)
unfolding pointer_to_linear_address
return_address frame s = elim (pointer_to_linear_address frame) [
  | none ↦ none
  | some a ↦ some (a, s)
]

-- `frame_alloc`.
unfoldable pub frame_alloc : FrameState → Option (ℕ × FrameState)
unfolding frame_alloc_internal return_address
frame_alloc s = elim (frame_alloc_internal s) [
  | none ↦ none
  | some (frame, s') ↦ return_address frame s'
]

abbrev pub zero_frame : ℕ → FrameState → FrameState
zero_frame frame s = record s { mem = memset 0x1000 s.mem (physical frame) 0 }

-- `frame_alloc_zero`.
unfoldable pub frame_alloc_zero : FrameState → Option (ℕ × FrameState)
unfolding frame_alloc_internal return_address
frame_alloc_zero s = elim (frame_alloc_internal s) [
  | none ↦ none
  | some (frame, s') ↦ return_address frame (zero_frame frame s')
]

-- `frame_dealloc`.
unfoldable pub frame_dealloc : ℕ → FrameState → FrameState
unfolding linear_address_to_ptr physical
frame_dealloc frame_address s = record s {
  mem = store 8 s.mem (physical free_page) s.freelist;
  freelist = free_page;
}
  where
    free_page : ℕ
    free_page = linear_address_to_ptr frame_address
