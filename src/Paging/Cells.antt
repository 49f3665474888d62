-- ===== src/Paging/Cells.antt =====
-- The entries of tables as words of memory: what writes and loops of writes leave in each of them.
use metal_to_app.Base.{
  ℕ, ◌+◌, ◌*◌, ◌%◌, ◌^◌, ◌≤◌, ◌<◌, ◌≡◌, ap, ◌∙◌, inl, inr, ◌==◌, if◌then◌else◌, ◌&&◌, Mem, load,
  store, load-store_self, load-store_ne, eq-cases, eq→==, arith,
}
use metal_to_app.Memory.{kernel_base, physical}
use metal_to_app.Frame.{FrameState}
use metal_to_app.Paging.{entry_ptr, read_entry, write_entry}

-- The entry `k` of the table in the frame `table`.
abbrev pub cell : Mem → ℕ → ℕ → ℕ
cell m table k = load 8 m (table + 8 * k)

-- A table of the kernel image: a frame in the first gigabyte.
abbrev pub IsStatic : ℕ → Type 0
IsStatic table = (0 < table) × (table % 0x1000 ≡ 0) × (table + 0x1000 ≤ 2 ^ 30)

pub cell-store :
    (m : Mem) (table k table' k' v : ℕ)
    → table % 0x1000 ≡ 0
    → table' % 0x1000 ≡ 0
    → k < 512
    → k' < 512
    → v < 2 ^ 64
    → cell (store 8 m (table' + 8 * k') v) table k
      ≡ (if table == table' && k == k' then v else cell m table k)
cell-store m table k table' k' v a a' lt lt' small =
    elim (eq-cases (table + 8 * k) (table' + 8 * k')) [
      | inl e ↦
          let et : table ≡ table' = omega arith in
          let ek : k ≡ k' = omega arith in
          rw (eq→== table table' et, eq→== k k' ek, e)
            (load-store_self 8 m (table' + 8 * k') v (omega arith))
      | inr ne ↦
          load-store_ne 8 8 m (table + 8 * k) (table' + 8 * k') v (omega arith) ∙ ground arith
    ]

-- The access through a kernel pointer to an entry reaches the entry.
pub physical-static :
    (table k : ℕ)
    → IsStatic table
    → k < 512
    → physical (entry_ptr (kernel_base + table) k) ≡ table + 8 * k
unfolding physical
physical-static table k t lt = ground arith

pub cell-write :
    (s : FrameState) (table k table' k' v : ℕ)
    → IsStatic table
    → IsStatic table'
    → k < 512
    → k' < 512
    → v < 2 ^ 64
    → cell (write_entry (entry_ptr (kernel_base + table') k') v s).mem table k
      ≡ (if table == table' && k == k' then v else cell s.mem table k)
unfolding write_entry
cell-write s table k table' k' v t t' lt lt' small =
    ap (λ a. cell (store 8 s.mem a v) table k) (physical-static table' k' t' lt')
    ∙ cell-store s.mem table k table' k' v t.1 t'.1 lt lt' small

pub cell-read :
    (s : FrameState) (table k : ℕ)
    → IsStatic table
    → k < 512
    → read_entry (entry_ptr (kernel_base + table) k) s ≡ cell s.mem table k
unfolding read_entry
cell-read s table k t lt = ap (load 8 s.mem) (physical-static table k t lt)
