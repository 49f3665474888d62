-- ===== src/Paging/Window.antt =====
-- The translation that the CPU makes with the kernel's address space, against the two windows.
use metal_to_app.Base.{
  ℕ, ◌+◌, ◌<◌, ◌≡◌, refl, sym, ap, ◌∙◌, ◌==◌, if◌then◌else◌, none, some, eq→==, ne→==,
}
use metal_to_app.Memory.{kernel_base, physical, pointer_to_linear_address}
use metal_to_app.Frame.{FrameState}
use metal_to_app.Paging.Mmu.{translate}
use metal_to_app.Paging.Cells.{cell, IsStatic}
use metal_to_app.Paging.Kernel.{
  Tables, linear_word, fill_kernel_tables, init_address_space, create_kernel_address_space,
}
use metal_to_app.Paging.Image.{init_address_space-found}
use metal_to_app.Paging.Rows.{IsLinked, tables_at, dir_word, root_word, table_word}
use metal_to_app.Paging.Static.{s₇, s₁₀, cell₁₀, cell₇, cell₃}
use metal_to_app.Paging.Walk.{translate-windows, in_windows, IsCanonical, static-address}

create-found :
    (t : Tables) (space dir : ℕ) (s s' : FrameState)
    → pointer_to_linear_address t.pml4 ≡ some space
    → pointer_to_linear_address t.pagedir ≡ some dir
    → init_address_space t.linear t.pagedirtable t.pml4 (fill_kernel_tables t dir s) ≡ some s'
    → create_kernel_address_space t s ≡ some (space, s')
unfolding create_kernel_address_space
create-found t space dir s s' e f g = rw (e, f, g, create_kernel_address_space) refl

module _ (pml4 dir dirtable linear : ℕ) (v : IsLinked pml4 dir dirtable linear)
    (s : FrameState) where
  filled :
      fill_kernel_tables (tables_at pml4 dir dirtable linear) dir s
      ≡ s₇ pml4 dir dirtable linear v s
  unfolding fill_kernel_tables
  filled = refl

  create-eq :
      create_kernel_address_space (tables_at pml4 dir dirtable linear) s
      ≡ some (pml4, s₁₀ pml4 dir dirtable linear v s)
  create-eq =
      create-found (tables_at pml4 dir dirtable linear) pml4 dir s _
        (static-address pml4 v.pml4_static) (static-address dir v.dir_static)
        (ap
            (init_address_space (kernel_base + linear) (kernel_base + dirtable)
              (kernel_base + pml4))
            filled
          ∙ init_address_space-found (kernel_base + linear) (kernel_base + dirtable)
              (kernel_base + pml4) linear dirtable (s₇ pml4 dir dirtable linear v s)
              (static-address linear v.linear_static) (static-address dirtable v.dirtable_static))

  -- The word of each entry of a static frame.
  final :
      (x k : ℕ)
      → IsStatic x
      → k < 512
      → cell (s₁₀ pml4 dir dirtable linear v s).mem x k ≡ (
          if x == pml4
          then root_word linear dirtable k
          else if x == dir
          then dir_word k
          else if x == dirtable
          then table_word dir k
          else if x == linear
          then linear_word k
          else cell s.mem x k)
  final x k t lt =
      cell₁₀ pml4 dir dirtable linear v s x k t lt
      ∙ ap (λ w. if x == pml4 then root_word linear dirtable k else w)
          (cell₇ pml4 dir dirtable linear v s x k t lt
            ∙ ap (λ w. if x == dir then dir_word k else w)
                (cell₃ pml4 dir dirtable linear v s x k t lt))

  -- With the four static tables in distinct page frames of the first gigabyte other than frame 0,
  -- createKernelAddressSpace returns the address of the root table, and on memory after it the CPU
  -- translates every canonical pointer in one of the two windows (512 GiB of memory from
  -- LINEAR_START, 32 MiB of the image from KERNEL_BASE) to the address that the kernel means by
  -- it, and faults on every other canonical pointer.
  pub create_kernel_address_space_lem :
      (ptr : ℕ)
      → IsCanonical ptr
      → (s' : FrameState) × (create_kernel_address_space (tables_at pml4 dir dirtable linear) s
          ≡ some (pml4, s'))
        × (translate s'.mem pml4 ptr ≡ (if in_windows ptr then some (physical ptr) else none))
  create_kernel_address_space_lem ptr c = (
    s₁₀ pml4 dir dirtable linear v s,
    create-eq,
    translate-windows (s₁₀ pml4 dir dirtable linear v s).mem pml4 dir dirtable linear v
        (λ k lt. final pml4 k v.pml4_static lt ∙ rw (eq→== pml4 pml4 refl) refl)
        (λ k lt.
          final dir k v.dir_static lt
          ∙ rw (ne→== dir pml4 (λ e. v.apart.0 (sym e)), eq→== dir dir refl) refl)
        (λ k lt.
          final dirtable k v.dirtable_static lt
          ∙ rw
              (
                ne→== dirtable pml4 (λ e. v.apart.1 (sym e)),
                ne→== dirtable dir (λ e. v.apart.3 (sym e)),
                eq→== dirtable dirtable refl,
              )
              refl)
        (λ k lt.
          final linear k v.linear_static lt
          ∙ rw
              (
                ne→== linear pml4 (λ e. v.apart.2 (sym e)),
                ne→== linear dir (λ e. v.apart.4 (sym e)),
                ne→== linear dirtable (λ e. v.apart.5 (sym e)),
                eq→== linear linear refl,
              )
              refl)
        ptr c,
  )
