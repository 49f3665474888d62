-- ===== src/Elf.antt =====
-- src/elf.c: the segments of an ELF image in kernel memory are copied to frames that are mapped for them.
pub mod NewFrame
pub mod Write
pub mod Data
pub mod Section
pub mod Copy
pub mod Headers
pub mod Images
pub mod Segments
pub mod Load
pub mod Tests
use metal_to_app.Base.{
  ℕ, zero, suc, ◌+◌, ◌-◌, ◌%◌, ◌^◌, ◌==◌, ltb, if◌then◌else◌, ◌&&◌, Bool, true, Option, none, some,
  load,
}
use metal_to_app.Klib.{memcpy}
use metal_to_app.Memory.{linear_address_to_ptr, physical}
use metal_to_app.Frame.{FrameState, frame_size, frame_alloc_zero}
use metal_to_app.Paging.{mmap}

-- `memcpy` between kernel pointers.
unfoldable pub copy_bytes : ℕ → ℕ → ℕ → FrameState → FrameState
copy_bytes dest src n s = record s { mem = memcpy n s.mem (physical dest) (physical src) }

-- `frame_alloc_zero` and the `mmap` of the frame for a user task; `none` is a panic of the allocator.
unfoldable pub map_frame : ℕ → ℕ → FrameState → Option (ℕ × FrameState)
map_frame memory_space dest s = elim (frame_alloc_zero s) [
  | none ↦ none
  | some (new_frame, s') ↦ elim (mmap memory_space new_frame dest true s') [
    | none ↦ none
    | some s'' ↦ some (new_frame, s'')
  ]
]

-- `memsz > 0` on a word as `ptrdiff_t`.
abbrev pub is_positive : ℕ → Bool
is_positive memsz = ltb 0 memsz && ltb memsz (2 ^ 63)

-- The number of bytes that a round of `copy_section` copies.
abbrev pub to_copy : ℕ → ℕ → ℕ
to_copy dest_offset filesz =
    if ltb frame_size ((filesz + dest_offset) % 2 ^ 64) then frame_size - dest_offset else filesz

-- `copy_section` on fuel.
unfoldable pub copy_section : ℕ → ℕ → ℕ → ℕ → ℕ → ℕ → FrameState → Option FrameState
copy_section zero memory_space vaddr section_start memsz filesz s = none
copy_section (suc fuel) memory_space vaddr section_start memsz filesz s =
    let dest_offset = vaddr % frame_size in
    let aligned_dest = vaddr - dest_offset in
    let n = to_copy dest_offset filesz in
    let rest : Option FrameState = elim (map_frame memory_space aligned_dest s) [
      | none ↦ none
      | some (new_frame, s') ↦
          copy_section fuel memory_space ((aligned_dest + frame_size) % 2 ^ 64)
            ((section_start + n) % 2 ^ 64) ((memsz + dest_offset + (2 ^ 64 - frame_size)) % 2 ^ 64)
            (filesz - n)
            (copy_bytes (linear_address_to_ptr (new_frame + dest_offset)) section_start n s')
    ] in
    if is_positive memsz then rest else some s

-- The field of `n` bytes at a pointer.
abbrev pub field : ℕ → ℕ → FrameState → ℕ
field n ptr s = load n s.mem (physical (ptr % 2 ^ 64))

-- The loop of `load_elf` over the program headers from `header` on, each of `size` bytes.
unfoldable pub load_segments : ℕ → ℕ → ℕ → ℕ → ℕ → ℕ → FrameState → Option FrameState
load_segments fuel zero size header start memory_space s = some s
load_segments fuel (suc n) size header start memory_space s =
    let copied =
      copy_section fuel memory_space (field 8 (header + 0x10) s)
        ((start + field 8 (header + 0x8) s) % 2 ^ 64) (field 8 (header + 0x28) s)
        (field 8 (header + 0x20) s) s in
    let after = if field 4 header s == 1 then copied else some s in
    elim after [
      | none ↦ none
      | some s' ↦ load_segments fuel n size ((header + size) % 2 ^ 64) start memory_space s'
    ]

-- `load_elf`: the entry point; its argument `end` is not used.
unfoldable pub load_elf : ℕ → ℕ → ℕ → FrameState → Option (ℕ × FrameState)
load_elf fuel start memory_space s =
    let header = (start + field 8 (start + 0x20) s) % 2 ^ 64 in
    elim (load_segments fuel (field 2 (start + 0x38) s) (field 2 (start + 0x36) s) header start
      memory_space s) [ none ↦ none | some s' ↦ some (field 8 (start + 0x18) s, s') ]
