-- ===== src/Paging.antt =====
-- src/address_space.c, with `struct pagetable_entry` of memory.h: page tables in memory, which grow by
-- frames of the allocator. An entry is the 64-bit word `address`, the flags are bits of it.
pub mod Slots
pub mod Tables
pub mod Ensure
pub mod Way
pub mod Mmu
pub mod Entry
pub mod Mapping
pub mod Page
pub mod Cells
pub mod Kernel
pub mod Image
pub mod Rows
pub mod Static
pub mod Walk
pub mod Window
pub mod Levels
pub mod Placed
pub mod Grow
pub mod Fill
pub mod Step
pub mod Search
pub mod Others
pub mod Empty
pub mod Space
pub mod Tests
use metal_to_app.Base.{
  ℕ, ◌+◌, ◌*◌, ◌/◌, ◌%◌, ◌^◌, ◌==◌, if◌then◌else◌, Bool, true, false, Option, none, some, List, [],
  ◌∷◌, load, store, test_bit, with_bit,
}
use metal_to_app.Memory.{linear_address_to_ptr, physical}
use metal_to_app.Frame.{FrameState, frame_alloc_zero}

-- The bits of the fields `present`, `writable`, `usermode` and `big`.
abbrev pub present_bit : ℕ
present_bit = 0

abbrev pub writable_bit : ℕ
writable_bit = 1

abbrev pub usermode_bit : ℕ
usermode_bit = 2

abbrev pub big_bit : ℕ
big_bit = 7

-- The writes of the fields, in the order of the source.
abbrev pub entry_word : ℕ → Bool → ℕ
entry_word address usermode =
    with_bit (with_bit (with_bit address present_bit true) writable_bit true) usermode_bit usermode

-- `(ptr >> shift) & 0x1ff`.
abbrev pub entry_idx : ℕ → ℕ → ℕ
entry_idx ptr shift = ptr / 2 ^ shift % 512

-- The pointer to an entry of the table at a pointer.
abbrev pub entry_ptr : ℕ → ℕ → ℕ
entry_ptr table idx = (table + 8 * idx) % 2 ^ 64

unfoldable pub read_entry : ℕ → FrameState → ℕ
unfolding physical
read_entry entry s = load 8 s.mem (physical entry)

unfoldable pub write_entry : ℕ → ℕ → FrameState → FrameState
unfolding physical
write_entry entry word s = record s { mem = store 8 s.mem (physical entry) word }

-- `(entry->address >> 12) << 12`.
abbrev pub entry_address : ℕ → ℕ
entry_address word = word / 2 ^ 12 * 2 ^ 12

-- The table behind an entry is allocated unless the entry is present; `none` is a panic of the
-- allocator.
unfoldable pub ensure_table : ℕ → FrameState → Option FrameState
ensure_table entry s =
    if test_bit (read_entry entry s) present_bit then some s else elim (frame_alloc_zero s) [
      | none ↦ none
      | some (a, s') ↦ some (write_entry entry (entry_word a true) s')
    ]

-- The levels of `resolve_pageentry` from a table on, by their shifts; the last level is that of
-- shift 12.
unfoldable pub resolve_from : List ℕ → ℕ → ℕ → FrameState → Option (ℕ × FrameState)
resolve_from [] table ptr s = some (entry_ptr table (entry_idx ptr 12), s)
resolve_from (shift ∷ shifts) table ptr s =
    let entry = entry_ptr table (entry_idx ptr shift) in
    let deeper : Option (ℕ × FrameState) = elim (ensure_table entry s) [
      | none ↦ none
      | some s' ↦
          resolve_from shifts (linear_address_to_ptr (entry_address (read_entry entry s'))) ptr s'
    ] in
    if test_bit (read_entry entry s) big_bit then some (entry, s) else deeper

abbrev pub shifts : List ℕ
shifts = 39 ∷ 30 ∷ 21 ∷ []

-- `resolve_pageentry`: the pointer to the entry.
unfoldable pub resolve_pageentry : ℕ → ℕ → FrameState → Option (ℕ × FrameState)
resolve_pageentry root ptr s = resolve_from shifts root ptr s

-- `mmap`.
unfoldable pub mmap : ℕ → ℕ → ℕ → Bool → FrameState → Option FrameState
mmap root page_start mapping_start usermode s = elim (resolve_pageentry root mapping_start s) [
  | none ↦ none
  | some (entry, s') ↦ some (write_entry entry (entry_word page_start usermode) s')
]

-- `munmap`: the address of the page, and the entry cleared.
unfoldable pub munmap : ℕ → ℕ → FrameState → Option (ℕ × FrameState)
munmap root mapping_start s = elim (resolve_pageentry root mapping_start s) [
  | none ↦ none
  | some (entry, s') ↦ some (entry_address (read_entry entry s'), write_entry entry 0 s')
]
