-- ===== src/Paging/Walk.antt =====
-- The translation that the CPU makes with the words of the static tables.
use metal_to_app.Base.{
  ℕ, ◌+◌, ◌-◌, ◌*◌, ◌/◌, ◌%◌, ◌^◌, ◌≤◌, ◌<◌, ◌≡◌, ◌≢◌, refl, ap, ◌∙◌, ◌⊎◌, inl, inr, ◌==◌,
  if◌then◌else◌, leb, ltb, ◌&&◌, ◌||◌, Bool, true, false, Mem, none, some, [], ◌∷◌, with_bit,
  test_bit, eq-cases, ne→==, Bool-cases, arith,
}
use metal_to_app.Memory.{linear_start, linear_end, kernel_base, physical, pointer_to_linear_address}
use metal_to_app.Paging.{present_bit, writable_bit, entry_word, entry_idx}
use metal_to_app.Paging.Slots.{entry_idx-lt}
use metal_to_app.Paging.Tables.{word_at}
use metal_to_app.Paging.Mmu.{cpu_walk, translate, walk_absent, walk_big, walk_next}
use metal_to_app.Paging.Cells.{cell, IsStatic}
use metal_to_app.Paging.Kernel.{linear_word}
use metal_to_app.Paging.Image.{writable_word}
use metal_to_app.Paging.Rows.{
  IsLinked, dir_word, root_word, table_word, image_word-eq, linear_word-eq,
}

-- The window that holds all memory, and the one of the sixteen pages of the kernel image.
abbrev pub in_windows : ℕ → Bool
in_windows ptr =
    (leb linear_start ptr && ltb ptr linear_end)
    || (leb kernel_base ptr && ltb ptr (kernel_base + 16 * 2 ^ 21))

-- The addresses that the CPU takes: bits 47 to 63 are the same.
abbrev pub IsCanonical : ℕ → Type 0
IsCanonical ptr = (ptr < 2 ^ 47) ⊎ ((2 ^ 64 - 2 ^ 47 ≤ ptr) × (ptr < 2 ^ 64))

pub static_next :
    (a : ℕ)
    → IsStatic a
    → (test_bit (entry_word a true) 0 ≡ true)
      × (test_bit (entry_word a true) 7 ≡ false)
      × (entry_word a true % 2 ^ 52 / 2 ^ 12 * 2 ^ 12 ≡ a)
static_next a t =
    let word : entry_word a true ≡ a + 7 = ground arith in
    rw word (ground arith, ground arith, omega arith)

pub linear_next :
    (a : ℕ)
    → IsStatic a
    → let w = with_bit (with_bit a present_bit true) writable_bit true in
      (test_bit w 0 ≡ true) × (test_bit w 7 ≡ false) × (w % 2 ^ 52 / 2 ^ 12 * 2 ^ 12 ≡ a)
linear_next a t =
    let word : with_bit (with_bit a present_bit true) writable_bit true ≡ a + 3 = ground arith in
    rw word (ground arith, ground arith, omega arith)

pub outside :
    (ptr : ℕ)
    → in_windows ptr ≡ false
    → ((ptr < linear_start) ⊎ (linear_end ≤ ptr))
      × ((ptr < kernel_base) ⊎ (kernel_base + 16 * 2 ^ 21 ≤ ptr))
outside ptr h = (ground arith, ground arith)

pub writable_word-eq : (k : ℕ) → k < 16 → writable_word (k * 2 ^ 21 + 129) ≡ k * 2 ^ 21 + 131
writable_word-eq k lt = ground arith

pub dir_word-eq :
    (k : ℕ) → k < 16 → (dir_word k ≡ k * 2 ^ 21 + 129) ⊎ (dir_word k ≡ k * 2 ^ 21 + 131)
dir_word-eq k lt =
    let within : ltb k 16 ≡ true = ground arith in
    elim (Bool-cases (k == 0 || leb 8 k)) [
      | inl h ↦ inr (
          rw (within, h) (ap writable_word (image_word-eq k (omega arith)) ∙ writable_word-eq k lt))
      | inr h ↦ inl (rw (within, h) (image_word-eq k (omega arith)))
    ]

pub inside :
    (ptr : ℕ)
    → in_windows ptr ≡ true
    → ((linear_start ≤ ptr) × (ptr < linear_end))
      ⊎ ((kernel_base ≤ ptr) × (ptr < kernel_base + 16 * 2 ^ 21))
inside ptr h = ground arith

pub physical-window :
    (ptr : ℕ) → linear_start ≤ ptr → ptr < linear_end → ptr - linear_start ≡ physical ptr
unfolding physical
physical-window ptr lo hi = ground arith

pub physical-image : (ptr : ℕ) → kernel_base ≤ ptr → ptr - kernel_base ≡ physical ptr
unfolding physical
physical-image ptr lo = ground arith

pub static-address : (a : ℕ) → IsStatic a → pointer_to_linear_address (kernel_base + a) ≡ some a
unfolding pointer_to_linear_address
static-address a t = ground arith

-- The first sixteen words of the page directory.
pub dir_word-page :
    (k : ℕ)
    → k < 16
    → (test_bit (dir_word k) 0 ≡ true)
      × (test_bit (dir_word k) 7 ≡ true)
      × (dir_word k % 2 ^ 52 / 2 ^ 21 * 2 ^ 21 ≡ k * 2 ^ 21)
dir_word-page k lt = elim (dir_word-eq k lt) [
  | inl e ↦ rw e (ground arith, ground arith, omega arith)
  | inr e ↦ rw e (ground arith, ground arith, omega arith)
]

pub dir_word-zero : (k : ℕ) → 16 ≤ k → dir_word k ≡ 0
dir_word-zero k le = let over : ltb k 16 ≡ false = ground arith in rw over refl

module _ (m : Mem) (pml4 dir dirtable linear : ℕ) (v : IsLinked pml4 dir dirtable linear)
    (roots : (k : ℕ) → k < 512 → cell m pml4 k ≡ root_word linear dirtable k)
    (dirs : (k : ℕ) → k < 512 → cell m dir k ≡ dir_word k)
    (dirtables : (k : ℕ) → k < 512 → cell m dirtable k ≡ table_word dir k)
    (linears : (k : ℕ) → k < 512 → cell m linear k ≡ linear_word k) where
  translate-linear :
      (ptr : ℕ)
      → linear_start ≤ ptr
      → ptr < linear_end
      → translate m pml4 ptr ≡ some (ptr - linear_start)
  translate-linear ptr lo hi =
      let idx : entry_idx ptr 39 ≡ 256 = omega arith in
      let root : word_at m pml4 ptr 39
          ≡ with_bit (with_bit linear present_bit true) writable_bit true =
        roots (entry_idx ptr 39) (entry_idx-lt ptr 39) ∙ ap (root_word linear dirtable) idx in
      let (there, small, at) = linear_next linear v.linear_static in
      let word : word_at m linear ptr 30 ≡ entry_idx ptr 30 * 2 ^ 30 + 131 =
        linears (entry_idx ptr 30) (entry_idx-lt ptr 30)
        ∙ linear_word-eq (entry_idx ptr 30) (entry_idx-lt ptr 30) in
      walk_next 39 (30 ∷ 21 ∷ []) m pml4 ptr linear (rw root there) (rw root small) (rw root at)
      ∙ walk_big 30 (21 ∷ []) m linear ptr (rw word (ground arith)) (rw word (ground arith))
      ∙ ap some (ap (λ w. w % 2 ^ 52 / 2 ^ 30 * 2 ^ 30 + ptr % 2 ^ 30) word ∙ omega arith)

  -- From the last entry of the root the way leads through the table of the kernel's pages.
  to_dirtable :
      (ptr : ℕ)
      → entry_idx ptr 39 ≡ 511
      → translate m pml4 ptr ≡ cpu_walk (30 ∷ 21 ∷ []) m dirtable ptr
  to_dirtable ptr idx =
      let root : word_at m pml4 ptr 39 ≡ entry_word dirtable true =
        roots (entry_idx ptr 39) (entry_idx-lt ptr 39) ∙ ap (root_word linear dirtable) idx in
      let (there, small, at) = static_next dirtable v.dirtable_static in
      walk_next 39 (30 ∷ 21 ∷ []) m pml4 ptr dirtable (rw root there) (rw root small) (rw root at)

  to_dir :
      (ptr : ℕ)
      → entry_idx ptr 39 ≡ 511
      → entry_idx ptr 30 ≡ 510
      → translate m pml4 ptr ≡ cpu_walk (21 ∷ []) m dir ptr
  to_dir ptr idx idx' =
      let word : word_at m dirtable ptr 30 ≡ entry_word dir true =
        dirtables (entry_idx ptr 30) (entry_idx-lt ptr 30) ∙ ap (table_word dir) idx' in
      let (there, small, at) = static_next dir v.dir_static in
      to_dirtable ptr idx
      ∙ walk_next 30 (21 ∷ []) m dirtable ptr dir (rw word there) (rw word small) (rw word at)

  translate-image :
      (ptr : ℕ)
      → kernel_base ≤ ptr
      → ptr < kernel_base + 16 * 2 ^ 21
      → translate m pml4 ptr ≡ some (ptr - kernel_base)
  translate-image ptr lo hi =
      let word = dirs (entry_idx ptr 21) (entry_idx-lt ptr 21) in
      let (there, big, page) = dir_word-page (entry_idx ptr 21) (omega arith) in
      to_dir ptr (omega arith) (omega arith)
      ∙ walk_big 21 [] m dir ptr (rw word there) (rw word big)
      ∙ ap some (
          ap (λ w. w % 2 ^ 52 / 2 ^ 21 * 2 ^ 21 + ptr % 2 ^ 21) word
          ∙ ap (λ x. x + ptr % 2 ^ 21) page
          ∙ omega arith)

  translate-outside :
      (ptr : ℕ) → IsCanonical ptr → in_windows ptr ≡ false → translate m pml4 ptr ≡ none
  translate-outside ptr c out = elim (eq-cases (entry_idx ptr 39) 511) [
    | inl last ↦ elim (eq-cases (entry_idx ptr 30) 510) [
      | inl e ↦
          let over : 16 ≤ entry_idx ptr 21 = omega (arith, outside ptr out) in
          let word : word_at m dir ptr 21 ≡ 0 =
            dirs (entry_idx ptr 21) (entry_idx-lt ptr 21) ∙ dir_word-zero (entry_idx ptr 21) over in
          to_dir ptr last e ∙ walk_absent 21 [] m dir ptr (rw word refl)
      | inr ne ↦
          let word : word_at m dirtable ptr 30 ≡ 0 =
            dirtables (entry_idx ptr 30) (entry_idx-lt ptr 30)
            ∙ rw (ne→== (entry_idx ptr 30) 510 ne) refl in
          to_dirtable ptr last ∙ walk_absent 30 (21 ∷ []) m dirtable ptr (rw word refl)
    ]
    | inr ne ↦
        let ne' : entry_idx ptr 39 ≢ 256 = λ e. omega (arith, outside ptr out) in
        let word : word_at m pml4 ptr 39 ≡ 0 =
          roots (entry_idx ptr 39) (entry_idx-lt ptr 39)
          ∙ rw (ne→== (entry_idx ptr 39) 511 ne, ne→== (entry_idx ptr 39) 256 ne') refl in
        walk_absent 39 (30 ∷ 21 ∷ []) m pml4 ptr (rw word refl)
  ]

  -- Inside the windows the CPU reaches what the kernel means by the pointer, and it faults outside.
  pub translate-windows :
      (ptr : ℕ)
      → IsCanonical ptr
      → translate m pml4 ptr ≡ (if in_windows ptr then some (physical ptr) else none)
  translate-windows ptr c = elim (Bool-cases (in_windows ptr)) [
    | inr out ↦ rw out (translate-outside ptr c out)
    | inl h ↦ rw h (elim (inside ptr h) [
      | inl (lo, hi) ↦ translate-linear ptr lo hi ∙ ap some (physical-window ptr lo hi)
      | inr (lo, hi) ↦ translate-image ptr lo hi ∙ ap some (physical-image ptr lo)
    ])
  ]
