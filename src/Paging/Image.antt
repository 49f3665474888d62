-- ===== src/Paging/Image.antt =====
-- What `createKernelAddressSpace` leaves in the four static tables.
use metal_to_app.Base.{
  ℕ, zero, suc, ◌+◌, ◌^◌, ◌≤◌, ◌<◌, ◌≡◌, ◌≢◌, refl, ap, ◌∙◌, ◌⊎◌, inl, inr, ◌==◌, if◌then◌else◌,
  leb, ltb, ◌&&◌, Bool, true, false, some, with_bit, eq-cases, eq→==, ne→==, Bool-cases, arith,
}
use metal_to_app.Memory.{kernel_base, pointer_to_linear_address}
use metal_to_app.Frame.{FrameState}
use metal_to_app.Paging.{
  present_bit, writable_bit, usermode_bit, entry_ptr, entry_word, write_entry,
}
use metal_to_app.Paging.Cells.{cell, IsStatic, cell-write, cell-read}
use metal_to_app.Paging.Kernel.{fill, allow_write, allow_writes, init_address_space}

pub cell-fill :
    (f : ℕ → ℕ) (n i : ℕ) (s : FrameState) (table k table' : ℕ)
    → IsStatic table
    → IsStatic table'
    → k < 512
    → i + n ≤ 512
    → ((j : ℕ) → j < 512 → f j < 2 ^ 64)
    → cell (fill f n i (kernel_base + table') s).mem table k
      ≡ (if table == table' && (leb i k && ltb k (i + n)) then f k else cell s.mem table k)
unfolding fill
cell-fill f zero i s table k table' t t' lt le small = ground arith
cell-fill f (suc n) i s table k table' t t' lt le small =
    let here : i < 512 = omega arith in
    cell-fill f n (i + 1) (write_entry (entry_ptr (kernel_base + table') i) (f i) s) table k table'
      t t' lt (omega arith) small
    ∙ ap (λ w. if table == table' && (leb (i + 1) k && ltb k (i + 1 + n)) then f k else w)
        (cell-write s table k table' i (f i) t t' lt here (small i here))
    ∙ join (eq-cases k i)
  where
    join :
        (k ≡ i) ⊎ (k ≢ i)
        → (if table == table' && (leb (i + 1) k && ltb k (i + 1 + n))
            then f k
            else (if table == table' && k == i then f i else cell s.mem table k))
          ≡ (if table == table' && (leb i k && ltb k (i + suc n)) then f k else cell s.mem table k)
    join (inl e) = rw e (ground arith)
    join (inr ne) = ground arith

-- The word after `writable = true; usermode = false`.
abbrev pub writable_word : ℕ → ℕ
writable_word w = with_bit (with_bit w writable_bit true) usermode_bit false

pub cell-allow_write :
    (s : FrameState) (table k table' k' : ℕ)
    → IsStatic table
    → IsStatic table'
    → k < 512
    → k' < 512
    → cell s.mem table' k' < 2 ^ 63
    → cell (allow_write (entry_ptr (kernel_base + table') k') s).mem table k ≡ (
        if table == table' && k == k'
        then writable_word (cell s.mem table k)
        else cell s.mem table k)
unfolding allow_write
cell-allow_write s table k table' k' t t' lt lt' small =
    ap
      (λ w.
        cell (write_entry (entry_ptr (kernel_base + table') k') (writable_word w) s).mem table k)
      (cell-read s table' k' t' lt')
    ∙ cell-write s table k table' k' (writable_word (cell s.mem table' k')) t t' lt lt'
        (ground arith)
    ∙ join (Bool-cases (table == table' && k == k'))
  where
    same_cell : (table == table' && k == k') ≡ true → cell s.mem table' k' ≡ cell s.mem table k
    same_cell h =
        let e : table ≡ table' = ground arith in let e' : k ≡ k' = ground arith in rw (e, e') refl

    join :
        ((table == table' && k == k') ≡ true) ⊎ ((table == table' && k == k') ≡ false)
        → (if table == table' && k == k'
            then writable_word (cell s.mem table' k')
            else cell s.mem table k)
          ≡ (if table == table' && k == k'
              then writable_word (cell s.mem table k)
              else cell s.mem table k)
    join (inl h) = rw h (ap writable_word (same_cell h))
    join (inr h) = rw h refl

-- The choice of the word by the rounds of the loop.
allow_join :
    (same : Bool) (k i n c : ℕ)
    → (if same && (leb (i + 1) k && ltb k (i + 1 + n))
        then writable_word (if same && k == i then writable_word c else c)
        else (if same && k == i then writable_word c else c))
      ≡ (if same && (leb i k && ltb k (i + suc n)) then writable_word c else c)
allow_join false k i n c = refl
allow_join true k i n c = elim (eq-cases k i) [
  | inl e ↦ rw (eq→== k i e, e) (past (writable_word (writable_word c)) (writable_word c))
  | inr ne ↦ rw (ne→== k i ne) (later (writable_word c) ne)
]
  where
    past :
        (u v : ℕ)
        → (if leb (i + 1) i && ltb i (i + 1 + n) then u else v)
          ≡ (if leb i i && ltb i (i + suc n) then v else c)
    past u v = ground arith

    later :
        (u : ℕ)
        → k ≢ i
        → (if leb (i + 1) k && ltb k (i + 1 + n) then u else c)
          ≡ (if leb i k && ltb k (i + suc n) then u else c)
    later u ne = ground arith

pub cell-allow_writes :
    (n i : ℕ) (s : FrameState) (table k table' : ℕ)
    → IsStatic table
    → IsStatic table'
    → k < 512
    → i + n ≤ 512
    → ((j : ℕ) → i ≤ j → j < i + n → cell s.mem table' j < 2 ^ 63)
    → cell (allow_writes n i (kernel_base + table') s).mem table k ≡ (
        if table == table' && (leb i k && ltb k (i + n))
        then writable_word (cell s.mem table k)
        else cell s.mem table k)
unfolding allow_writes
cell-allow_writes zero i s table k table' t t' lt le small = ground arith
cell-allow_writes (suc n) i s table k table' t t' lt le small =
    let here : i < 512 = omega arith in
    let s' = allow_write (entry_ptr (kernel_base + table') i) s in
    let first = λ (b j : ℕ) (tb : IsStatic b) (lj : j < 512).
      cell-allow_write s b j table' i tb t' lj here (small i (omega arith) (omega arith)) in
    let small' = λ (j : ℕ) (lo : i + 1 ≤ j) (hi : j < i + 1 + n).
      rest_small j lo hi (first table' j t' (omega arith)) in
    cell-allow_writes n (i + 1) s' table k table' t t' lt (omega arith) small'
    ∙ ap
        (λ w.
          if table == table' && (leb (i + 1) k && ltb k (i + 1 + n)) then writable_word w else w)
        (first table k t lt)
    ∙ allow_join (table == table') k i n (cell s.mem table k)
  where
    rest_small :
        (j : ℕ)
        → i + 1 ≤ j
        → j < i + 1 + n
        → cell (allow_write (entry_ptr (kernel_base + table') i) s).mem table' j ≡ (
            if table' == table' && j == i
            then writable_word (cell s.mem table' j)
            else cell s.mem table' j)
        → cell (allow_write (entry_ptr (kernel_base + table') i) s).mem table' j < 2 ^ 63
    rest_small j lo hi e =
        let same : cell (allow_write (entry_ptr (kernel_base + table') i) s).mem table' j
            ≡ cell s.mem table' j =
          e ∙ ground arith in
        rw same (small j (omega arith) (omega arith))

pub init_address_space-found :
    (kernel_linear kernel_pagedirtable root a b : ℕ) (s : FrameState)
    → pointer_to_linear_address kernel_linear ≡ some a
    → pointer_to_linear_address kernel_pagedirtable ≡ some b
    → init_address_space kernel_linear kernel_pagedirtable root s
      ≡ some (
          write_entry (entry_ptr root 511) (entry_word b true) (
            write_entry
              (entry_ptr root 256)
              (with_bit (with_bit a present_bit true) writable_bit true)
              (fill (λ i. 0) 512 0 root s)))
unfolding init_address_space
init_address_space-found kernel_linear kernel_pagedirtable root a b s e f =
    rw (e, f, init_address_space) refl
