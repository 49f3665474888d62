-- ===== src/Multiboot.antt =====
-- src/arch/x86_64/multiboot.h and multiboot.c, src/initrd.c: what the boot loader hands over, the choice
-- of the memory for the frame allocator, and the list of the boot modules.
pub mod Regions
pub mod Setup
pub mod Modules
mod Tests
use metal_to_app.Base.{
  ℕ, zero, suc, ◌+◌, ◌*◌, ◌%◌, ◌^◌, ◌==◌, ltb, if◌then◌else◌, ◌&&◌, ◌||◌, Bool, Option, none, some,
  Mem, load,
}
use metal_to_app.Memory.{kernel_base, linear_address_to_ptr, physical}
use metal_to_app.Frame.{FrameState, init_frame_allocator}

-- The fields of `struct multiboot_info` that the kernel reads.
pub record MultibootInfo : Type 0 where
  pub mods_count : ℕ
  pub mods_addr : ℕ
  pub mmap_length : ℕ
  pub mmap_addr : ℕ

-- `struct mmap_info`.
pub record MmapInfo : Type 0 where
  pub size : ℕ
  pub base_addr : ℕ
  pub length : ℕ
  pub type : ℕ

-- The fields of a packed `struct mmap_info` at a kernel pointer.
unfoldable pub read_mmap : Mem → ℕ → MmapInfo
read_mmap m ptr = record {
  size = load 4 m (physical ptr);
  base_addr = load 8 m (physical ptr + 4);
  length = load 8 m (physical ptr + 12);
  type = load 4 m (physical ptr + 20);
}

abbrev pub null : ℕ
null = 0

-- The test of the loop of `setup_frame_allocator`: an entry of type 1 that is the first or longer than
-- the longest so far.
abbrev pub is_bigger : Mem → MmapInfo → ℕ → Bool
is_bigger m entry biggest =
    entry.type == 1 && (biggest == null || ltb (read_mmap m biggest).length entry.length)

-- The loop on fuel: the pointer to the biggest entry, or NULL. The outer `none` is an exhausted fuel.
unfoldable pub scan_map : ℕ → Mem → ℕ → ℕ → ℕ → Option ℕ
scan_map zero m start end biggest = none
scan_map (suc fuel) m start end biggest =
    let entry = read_mmap m start in
    let rest =
      scan_map fuel m ((start + (entry.size + 4)) % 2 ^ 64) end
        (if is_bigger m entry biggest then start else biggest) in
    if ltb start end then rest else some biggest

-- The start and the end of the area that the frame allocator gets, with the linker's
-- `FREEMEMORY_START`.
abbrev pub area_start : ℕ → MmapInfo → ℕ
area_start freememory_start entry =
    if ltb freememory_start entry.base_addr then entry.base_addr else freememory_start

abbrev pub area_end : MmapInfo → ℕ
area_end entry = (entry.base_addr + entry.length) % 2 ^ 64

-- `setup_frame_allocator`; `none` is an exhausted fuel, or the access through NULL where the map has no
-- entry of type 1.
unfoldable pub setup_frame_allocator : ℕ → ℕ → MultibootInfo → Mem → Option FrameState
setup_frame_allocator fuel freememory_start multiboot m =
    let start = (multiboot.mmap_addr + kernel_base) % 2 ^ 64 in
    elim (scan_map fuel m start ((start + multiboot.mmap_length) % 2 ^ 64) null) [
      | none ↦ none
      | some biggest ↦
          let entry = read_mmap m biggest in
          if biggest == null
          then none
          else some (init_frame_allocator (area_start freememory_start entry) (area_end entry) m)
    ]

-- `struct initrd_info`: three kernel pointers.
pub record InitrdInfo : Type 0 where
  pub command_line : ℕ
  pub start : ℕ
  pub end : ℕ

-- The round of the loop of `setup_initrd` for the module `i`, on the array `out_info`; what it prints is
-- left out.
unfoldable pub read_module : Mem → ℕ → ℕ → InitrdInfo
read_module m modules i = record {
  command_line = linear_address_to_ptr (load 4 m (physical (modules + 16 * i) + 8));
  start = linear_address_to_ptr (load 4 m (physical (modules + 16 * i)));
  end = linear_address_to_ptr (load 4 m (physical (modules + 16 * i) + 4));
}

unfoldable pub read_modules : ℕ → ℕ → Mem → ℕ → (ℕ → InitrdInfo) → ℕ → InitrdInfo
read_modules zero i m modules out = out
read_modules (suc n) i m modules out =
    read_modules n (i + 1) m modules (λ j. if j == i then read_module m modules i else out j)

-- `setup_initrd`: the number of modules and the array; the source does not compare the number with the
-- size of the array.
unfoldable pub setup_initrd : MultibootInfo → Mem → (ℕ → InitrdInfo) → ℕ × (ℕ → InitrdInfo)
setup_initrd multiboot m out = (
  multiboot.mods_count,
  read_modules multiboot.mods_count 0 m (linear_address_to_ptr multiboot.mods_addr) out,
)
