-- ===== src/Paging/Static.antt =====
-- The words of the static tables after `createKernelAddressSpace`.
use metal_to_app.Base.{
  ℕ, ◌+◌, ◌^◌, ◌<◌, ◌≡◌, ap, ◌∙◌, ◌==◌, if◌then◌else◌, leb, ltb, ◌&&◌, true, with_bit, arith,
}
use metal_to_app.Memory.{kernel_base}
use metal_to_app.Frame.{FrameState}
use metal_to_app.Paging.{present_bit, writable_bit, entry_ptr, entry_word, write_entry}
use metal_to_app.Paging.Cells.{cell, IsStatic, cell-write}
use metal_to_app.Paging.Image.{cell-fill, writable_word, cell-allow_write, cell-allow_writes}
use metal_to_app.Paging.Kernel.{fill, linear_word, image_word, allow_write, allow_writes}
use metal_to_app.Paging.Rows.{
  IsLinked, dir_word, image_word-lt, linear_word-lt, static_word-lt, table_join, root_join,
  root_word, table_word, dir_join, write_join,
}

module _ (pml4 dir dirtable linear : ℕ) (v : IsLinked pml4 dir dirtable linear)
    (s : FrameState) where
  abbrev s₁ : FrameState
  s₁ = fill linear_word 512 0 (kernel_base + linear) s

  abbrev s₂ : FrameState
  s₂ = fill (λ i. 0) 512 0 (kernel_base + dirtable) s₁

  abbrev s₃ : FrameState
  s₃ = write_entry (entry_ptr (kernel_base + dirtable) 510) (entry_word dir true) s₂

  abbrev s₄ : FrameState
  s₄ = fill image_word 0x10 0 (kernel_base + dir) s₃

  abbrev s₅ : FrameState
  s₅ = fill (λ i. 0) 0x1f0 0x10 (kernel_base + dir) s₄

  abbrev s₆ : FrameState
  s₆ = allow_writes 8 8 (kernel_base + dir) s₅

  abbrev pub s₇ : FrameState
  s₇ = allow_write (entry_ptr (kernel_base + dir) 0) s₆

  cell₅ :
      (x k : ℕ)
      → IsStatic x
      → k < 512
      → cell s₅.mem x k
        ≡ (if x == dir then (if ltb k 16 then image_word k else 0) else cell s₃.mem x k)
  cell₅ x k t lt =
      cell-fill (λ i. 0) 0x1f0 0x10 s₄ x k dir t v.dir_static lt (omega arith) (λ j l. omega arith)
      ∙ ap (λ w. if x == dir && (leb 0x10 k && ltb k (0x10 + 0x1f0)) then 0 else w)
          (cell-fill image_word 0x10 0 s₃ x k dir t v.dir_static lt (omega arith)
            (λ j l. omega (arith, image_word-lt j l)))
      ∙ dir_join (x == dir) k (image_word k) (cell s₃.mem x k) lt

  small₅ : (j : ℕ) → j < 16 → cell s₅.mem dir j < 2 ^ 62
  small₅ j lt =
      let e : cell s₅.mem dir j ≡ image_word j =
        cell₅ dir j v.dir_static (omega arith) ∙ inside j (image_word j) lt in
      rw e (image_word-lt j (omega arith))
    where
      inside :
          (j w : ℕ)
          → j < 16
          → (if dir == dir then (if ltb j 16 then w else 0) else cell s₃.mem dir j) ≡ w
      inside j w lt = ground arith

  cell₆ :
      (x k : ℕ)
      → IsStatic x
      → k < 512
      → cell s₆.mem x k ≡ (
          if x == dir && (leb 8 k && ltb k 16)
          then writable_word (cell s₅.mem x k)
          else cell s₅.mem x k)
  cell₆ x k t lt =
      cell-allow_writes 8 8 s₅ x k dir t v.dir_static lt (omega arith)
        (λ j lo hi. omega (arith, small₅ j (omega arith)))

  small₆ : cell s₆.mem dir 0 < 2 ^ 63
  small₆ =
      let e : cell s₆.mem dir 0 ≡ cell s₅.mem dir 0 =
        cell₆ dir 0 v.dir_static (omega arith) ∙ ground arith in
      rw e (omega (arith, small₅ 0 (omega arith)))

  pub cell₇ :
      (x k : ℕ)
      → IsStatic x
      → k < 512
      → cell s₇.mem x k ≡ (if x == dir then dir_word k else cell s₃.mem x k)
  cell₇ x k t lt =
      cell-allow_write s₆ x k dir 0 t v.dir_static lt (omega arith) small₆
      ∙ ap (λ w. if x == dir && k == 0 then writable_word w else w)
          (cell₆ x k t lt
            ∙ ap (λ w. if x == dir && (leb 8 k && ltb k 16) then writable_word w else w)
                (cell₅ x k t lt))
      ∙ write_join (x == dir) writable_word k (image_word k) (cell s₃.mem x k)

  pub cell₃ :
      (x k : ℕ)
      → IsStatic x
      → k < 512
      → cell s₃.mem x k ≡ (
          if x == dirtable
          then table_word dir k
          else if x == linear
          then linear_word k
          else cell s.mem x k)
  cell₃ x k t lt =
      cell-write s₂ x k dirtable 510 (entry_word dir true) t v.dirtable_static lt (omega arith)
        (omega (arith, (static_word-lt dir v.dir_static).0))
      ∙ ap (λ w. if x == dirtable && k == 510 then entry_word dir true else w)
          (cell-fill (λ i. 0) 512 0 s₁ x k dirtable t v.dirtable_static lt (omega arith)
              (λ j l. omega arith)
            ∙ ap (λ w. if x == dirtable && (leb 0 k && ltb k 512) then 0 else w)
                (cell-fill linear_word 512 0 s x k linear t v.linear_static lt (omega arith)
                  (λ j l. omega (arith, linear_word-lt j l))))
      ∙ table_join dirtable linear x k (entry_word dir true) (cell s.mem x k) v.apart.5 lt

  abbrev s₈ : FrameState
  s₈ = fill (λ i. 0) 512 0 (kernel_base + pml4) s₇

  abbrev s₉ : FrameState
  s₉ =
      write_entry (entry_ptr (kernel_base + pml4) 256)
        (with_bit (with_bit linear present_bit true) writable_bit true) s₈

  abbrev pub s₁₀ : FrameState
  s₁₀ = write_entry (entry_ptr (kernel_base + pml4) 511) (entry_word dirtable true) s₉

  pub cell₁₀ :
      (x k : ℕ)
      → IsStatic x
      → k < 512
      → cell s₁₀.mem x k ≡ (if x == pml4 then root_word linear dirtable k else cell s₇.mem x k)
  cell₁₀ x k t lt =
      let small = (static_word-lt dirtable v.dirtable_static).0 in
      let small' = (static_word-lt linear v.linear_static).1 in
      cell-write s₉ x k pml4 511 (entry_word dirtable true) t v.pml4_static lt (omega arith)
        (omega (arith, small))
      ∙ ap (λ w. if x == pml4 && k == 511 then entry_word dirtable true else w)
          (cell-write s₈ x k pml4 256 _ t v.pml4_static lt (omega arith) (omega (arith, small'))
            ∙ ap
                (λ w.
                  if x == pml4 && k == 256
                  then with_bit (with_bit linear present_bit true) writable_bit true
                  else w)
                (cell-fill (λ i. 0) 512 0 s₇ x k pml4 t v.pml4_static lt (omega arith)
                  (λ j l. omega arith)))
      ∙ root_join (x == pml4) k (entry_word dirtable true)
          (with_bit (with_bit linear present_bit true) writable_bit true) (cell s₇.mem x k) lt
