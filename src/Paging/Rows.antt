-- ===== src/Paging/Rows.antt =====
-- The words of the static tables, and how the writes of the source join to them.
use metal_to_app.Base.{
  ℕ, ◌+◌, ◌*◌, ◌^◌, ◌<◌, ◌≡◌, ◌≢◌, refl, inl, inr, ◌==◌, if◌then◌else◌, leb, ltb, ◌&&◌, ◌||◌, Bool,
  true, false, with_bit, eq-cases, eq→==, ne→==, arith,
}
use metal_to_app.Memory.{kernel_base}
use metal_to_app.Paging.{present_bit, writable_bit, entry_word}
use metal_to_app.Paging.Cells.{IsStatic}
use metal_to_app.Paging.Image.{writable_word}
use metal_to_app.Paging.Kernel.{Tables, linear_word, image_word}

-- Where the linker puts the four tables: distinct frames of the first gigabyte.
pub record IsLinked (pml4 dir dirtable linear : ℕ) : Type 0 where
  pub pml4_static : IsStatic pml4
  pub dir_static : IsStatic dir
  pub dirtable_static : IsStatic dirtable
  pub linear_static : IsStatic linear
  pub apart :
      (pml4 ≢ dir)
      × (pml4 ≢ dirtable)
      × (pml4 ≢ linear)
      × (dir ≢ dirtable)
      × (dir ≢ linear)
      × (dirtable ≢ linear)

abbrev pub tables_at : ℕ → ℕ → ℕ → ℕ → Tables
tables_at pml4 dir dirtable linear = record {
  pml4 = kernel_base + pml4;
  pagedir = kernel_base + dir;
  pagedirtable = kernel_base + dirtable;
  linear = kernel_base + linear;
}

-- The words of the kernel's page directory: sixteen pages of two megabytes, of which the first and the
-- last eight are writable.
abbrev pub dir_word : ℕ → ℕ
dir_word k =
    if ltb k 16
    then (if k == 0 || leb 8 k then writable_word (image_word k) else image_word k)
    else 0

pub image_word-eq : (k : ℕ) → k < 512 → image_word k ≡ k * 2 ^ 21 + 129
image_word-eq k lt = ground arith

pub linear_word-eq : (k : ℕ) → k < 512 → linear_word k ≡ k * 2 ^ 30 + 131
linear_word-eq k lt = ground arith

pub image_word-lt : (k : ℕ) → k < 512 → image_word k < 2 ^ 62
image_word-lt k lt = omega (arith, image_word-eq k lt)

pub linear_word-lt : (k : ℕ) → k < 512 → linear_word k < 2 ^ 62
linear_word-lt k lt = omega (arith, linear_word-eq k lt)

-- The word of an entry for a static table.
pub static_word-lt :
    (a : ℕ)
    → IsStatic a
    → (entry_word a true < 2 ^ 62)
      × (with_bit (with_bit a present_bit true) writable_bit true < 2 ^ 62)
static_word-lt a t = (ground arith, ground arith)

-- The choices among the entries of the last two tables.
pub table_join :
    (dirtable linear x k u c : ℕ)
    → dirtable ≢ linear
    → k < 512
    → (if x == dirtable && k == 510
        then u
        else (if x == dirtable && (leb 0 k && ltb k 512)
            then 0
            else (if x == linear && (leb 0 k && ltb k 512) then linear_word k else c)))
      ≡ (if x == dirtable
          then (if k == 510 then u else 0)
          else if x == linear
          then linear_word k
          else c)
table_join dirtable linear x k u c ne lt = elim (eq-cases x dirtable) [
  | inl e ↦ rw (eq→== x dirtable e) (ground arith)
  | inr n ↦ rw (ne→== x dirtable n) (elim (eq-cases x linear) [
    | inl e ↦ rw (eq→== x linear e) (within (linear_word k))
    | inr n' ↦ rw (ne→== x linear n') refl
  ])
]
  where
    within : (w : ℕ) → (if leb 0 k && ltb k 512 then w else c) ≡ w
    within w = ground arith

pub root_join :
    (same : Bool) (k u w c : ℕ)
    → k < 512
    → (if same && k == 511
        then u
        else (if same && k == 256 then w else (if same && (leb 0 k && ltb k 512) then 0 else c)))
      ≡ (if same then (if k == 511 then u else if k == 256 then w else 0) else c)
root_join false k u w c lt = refl
root_join true k u w c lt = ground arith

-- The words of the root table and of the table behind its last entry.
abbrev pub root_word : ℕ → ℕ → ℕ → ℕ
root_word linear dirtable k =
    if k == 511
    then entry_word dirtable true
    else if k == 256
    then with_bit (with_bit linear present_bit true) writable_bit true
    else 0

abbrev pub table_word : ℕ → ℕ → ℕ
table_word dir k = if k == 510 then entry_word dir true else 0

-- The choice between the two loops over the directory.
pub dir_join :
    (same : Bool) (k w c : ℕ)
    → k < 512
    → (if same && (leb 0x10 k && ltb k 0x200)
        then 0
        else (if same && (leb 0 k && ltb k 16) then w else c))
      ≡ (if same then (if ltb k 16 then w else 0) else c)
dir_join false k w c lt = refl
dir_join true k w c lt = ground arith

-- The choice between the entries that become writable.
pub write_join :
    (same : Bool) (f : ℕ → ℕ) (k w c : ℕ)
    → (if same && k == 0
        then f (
            if same && (leb 8 k && ltb k 16)
            then f (if same then (if ltb k 16 then w else 0) else c)
            else (if same then (if ltb k 16 then w else 0) else c))
        else (if same && (leb 8 k && ltb k 16)
            then f (if same then (if ltb k 16 then w else 0) else c)
            else (if same then (if ltb k 16 then w else 0) else c)))
      ≡ (if same then (if ltb k 16 then (if k == 0 || leb 8 k then f w else w) else 0) else c)
write_join false f k w c = ground arith
write_join true f k w c = ground arith
