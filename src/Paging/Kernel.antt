-- ===== src/Paging/Kernel.antt =====
-- `createKernelAddressSpace` and `init_address_space` of memory.c, which fill the static tables of the
-- kernel. The pointers to the four arrays, which the linker chooses, are arguments. The fields of one
-- entry are written one after the other; the model writes the word that comes of them.
use metal_to_app.Base.{ℕ, zero, suc, ◌+◌, ◌*◌, ◌^◌, true, false, Option, none, some, with_bit}
use metal_to_app.Memory.{addrshift_1g, pointer_to_linear_address}
use metal_to_app.Frame.{FrameState}
use metal_to_app.Paging.{
  present_bit, writable_bit, usermode_bit, big_bit, entry_word, entry_ptr, read_entry, write_entry,
}

-- `addrshift2M`.
abbrev pub addrshift_2m : ℕ
addrshift_2m = 2 ^ 21

-- A loop that writes the word `f i` to the entry `i` of a table, for `n` entries from `i` on.
unfoldable pub fill : (ℕ → ℕ) → ℕ → ℕ → ℕ → FrameState → FrameState
fill f zero i table s = s
fill f (suc n) i table s = fill f n (i + 1) table (write_entry (entry_ptr table i) (f i) s)

-- `init_address_space`; `none` is a panic of `pointerToLinearAddress`.
unfoldable pub init_address_space : ℕ → ℕ → ℕ → FrameState → Option FrameState
init_address_space kernel_linear kernel_pagedirtable root s =
    elim (pointer_to_linear_address kernel_linear) [
      | none ↦ none
      | some a ↦ elim (pointer_to_linear_address kernel_pagedirtable) [
        | none ↦ none
        | some b ↦
            let cleared = fill (λ i. 0) 512 0 root s in
            let linear =
              write_entry (entry_ptr root 256)
                (with_bit (with_bit a present_bit true) writable_bit true) cleared in
            some (write_entry (entry_ptr root 511) (entry_word b true) linear)
      ]
    ]

-- The pointers `kernel_pml4`, `kernel_pagedir`, `kernel_pagedirtable` and `kernel_linear`.
pub record Tables : Type 0 where
  pub pml4 : ℕ
  pub pagedir : ℕ
  pub pagedirtable : ℕ
  pub linear : ℕ

-- The words of the loops over `kernel_linear` and `kernel_pagedir`.
abbrev pub linear_word : ℕ → ℕ
linear_word i =
    with_bit (with_bit (with_bit (i * addrshift_1g) present_bit true) writable_bit true) big_bit
      true

abbrev pub image_word : ℕ → ℕ
image_word i =
    with_bit
      (with_bit (with_bit (with_bit (i * addrshift_2m) present_bit true) writable_bit false) big_bit
        true)
      usermode_bit false

-- `writable = true; usermode = false` on an entry, and the loop that does so.
unfoldable pub allow_write : ℕ → FrameState → FrameState
allow_write entry s =
    write_entry entry
      (with_bit (with_bit (read_entry entry s) writable_bit true) usermode_bit false) s

unfoldable pub allow_writes : ℕ → ℕ → ℕ → FrameState → FrameState
allow_writes zero i table s = s
allow_writes (suc n) i table s = allow_writes n (i + 1) table (allow_write (entry_ptr table i) s)

-- The writes to `kernel_linear`, `kernel_pagedirtable` and `kernel_pagedir`, with the linear address of
-- the last.
unfoldable pub fill_kernel_tables : Tables → ℕ → FrameState → FrameState
fill_kernel_tables t pagedir_address s =
    let s₁ = fill linear_word 512 0 t.linear s in
    let s₂ = fill (λ i. 0) 512 0 t.pagedirtable s₁ in
    let s₃ = write_entry (entry_ptr t.pagedirtable 510) (entry_word pagedir_address true) s₂ in
    let s₄ = fill image_word 0x10 0 t.pagedir s₃ in
    let s₅ = fill (λ i. 0) 0x1f0 0x10 t.pagedir s₄ in
    let s₆ = allow_writes 8 8 t.pagedir s₅ in allow_write (entry_ptr t.pagedir 0) s₆

-- `createKernelAddressSpace`: the value of `kernel_address_space`, which is loaded into cr3, and memory.
unfoldable pub create_kernel_address_space : Tables → FrameState → Option (ℕ × FrameState)
create_kernel_address_space t s = elim (pointer_to_linear_address t.pml4) [
  | none ↦ none
  | some space ↦ elim (pointer_to_linear_address t.pagedir) [
    | none ↦ none
    | some dir ↦
        elim (init_address_space t.linear t.pagedirtable t.pml4 (fill_kernel_tables t dir s)) [
          | none ↦ none
          | some s' ↦ some (space, s')
        ]
  ]
]
