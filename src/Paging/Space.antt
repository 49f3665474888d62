-- ===== src/Paging/Space.antt =====
-- `create_address_space` of address_space.c with `init_address_space` of memory.c, which fills the root
-- table. The addresses of the static tables, which the linker chooses, are arguments.
use metal_to_app.Base.{
  ℕ, zero, suc, ◌+◌, ◌*◌, ◌^◌, ◌≤◌, ◌<◌, ◌≡◌, ◌≢◌, refl, sym, ap, ◌∙◌, inl, inr, Option, none, some,
  [], load, load-store_self, load-store_ne, load_agree, eq-cases, arith,
}
use metal_to_app.Memory.{linear_start, kernel_base, dynamic_start, linear_address_to_ptr}
use metal_to_app.Memory.Linear.{linear_address_to_ptr-eq, pointer_to_linear_address_lem}
use metal_to_app.Frame.{FrameState, frame_alloc_zero}
use metal_to_app.Frame.Pool.{Pool}
use metal_to_app.Frame.Invariant.{Represents}
use metal_to_app.Frame.Taken.{alloc-Taken}
use metal_to_app.Paging.{entry_idx, entry_ptr, write_entry, shifts}
use metal_to_app.Paging.Kernel.{fill, init_address_space}
use metal_to_app.Paging.Image.{init_address_space-found}
use metal_to_app.Paging.Slots.{
  Owned, entry_idx-lt, write_entry-eq, Represents-store, frame_alloc_zero-given,
}
use metal_to_app.Paging.Tables.{IsWay}
use metal_to_app.Paging.Ensure.{Gives, load-zeros}

-- `create_address_space`.
unfoldable pub create_address_space : ℕ → ℕ → FrameState → Option (ℕ × FrameState)
create_address_space kernel_linear kernel_pagedirtable s = elim (frame_alloc_zero s) [
  | none ↦ none
  | some (a, s') ↦
      let root = linear_address_to_ptr a in
      elim (init_address_space kernel_linear kernel_pagedirtable root s') [
        | none ↦ none
        | some s'' ↦ some (root, s'')
      ]
]

-- The pool is represented and the entry `k` of the table holds a word.
record Holds (table k word : ℕ) (s : FrameState) (p : Pool) : Type 0 where
  represents : Represents s p
  holds : load 8 s.mem (table + 8 * k) ≡ word

-- A write to an entry leaves the others.
Holds-other :
    (table k word i v : ℕ) (s : FrameState) (p : Pool)
    → Owned p table
    → i < 512
    → i ≢ k
    → Holds table k word s p
    → Holds table k word (write_entry (entry_ptr (linear_start + table) i) v s) p
Holds-other table k word i v s p o lt ne h = rw (write_entry-eq table i v s o.0 lt) (record {
  represents = Represents-store table i v s p o lt h.represents;
  holds = load-store_ne 8 8 s.mem (table + 8 * k) (table + 8 * i) v (omega arith) ∙ h.holds;
})

-- A write of the word that an entry holds.
Holds-same :
    (table k i v : ℕ) (s : FrameState) (p : Pool)
    → Owned p table
    → i < 512
    → i ≡ k
    → v < 2 ^ 64
    → Represents s p
    → Holds table k v (write_entry (entry_ptr (linear_start + table) i) v s) p
Holds-same table k i v s p o lt e small r = rw (write_entry-eq table i v s o.0 lt) (record {
  represents = Represents-store table i v s p o lt r;
  holds = rw (← e) (load-store_self 8 s.mem (table + 8 * i) v (omega arith));
})

Holds-clear :
    (n table k i : ℕ) (s : FrameState) (p : Pool)
    → Owned p table
    → i + n ≤ 512
    → Holds table k 0 s p
    → Holds table k 0 (fill (λ j. 0) n i (linear_start + table) s) p
unfolding fill
Holds-clear zero table k i s p o le h = h
Holds-clear (suc n) table k i s p o le h =
    Holds-clear n table k (i + 1) (write_entry (entry_ptr (linear_start + table) i) 0 s) p o
      (omega arith)
      (elim (eq-cases i k) [
        | inl e ↦ Holds-same table k i 0 s p o (omega arith) e (omega arith) h.represents
        | inr ne ↦ Holds-other table k 0 i 0 s p o (omega arith) ne h
      ])

pub create_address_space-found :
    (kernel_linear kernel_pagedirtable a root : ℕ) (s s₁ s₂ : FrameState)
    → frame_alloc_zero s ≡ some (a, s₁)
    → linear_address_to_ptr a ≡ root
    → init_address_space kernel_linear kernel_pagedirtable root s₁ ≡ some s₂
    → create_address_space kernel_linear kernel_pagedirtable s ≡ some (root, s₂)
unfolding create_address_space
create_address_space-found kernel_linear kernel_pagedirtable a root s s₁ s₂ e at f =
    rw (e, at, f, create_address_space) (ap (λ x. some (x, s₂)) at)

-- With static tables in the kernel window and a frame in the pool, create_address_space returns
-- the pointer to a root table in that frame; for an address outside of its entries 256 and 511
-- the way from that table is one on which mmap can map, and the pool has the other frames.
create_address_space-IsWay :
    (kernel_linear kernel_pagedirtable ptr n : ℕ) (s : FrameState) (p : Pool)
    → kernel_base < kernel_linear
    → kernel_linear < dynamic_start
    → kernel_base < kernel_pagedirtable
    → kernel_pagedirtable < dynamic_start
    → Represents s p
    → Gives (suc n) p
    → entry_idx ptr 39 ≢ 256
    → entry_idx ptr 39 ≢ 511
    → (root : ℕ) × (s' : FrameState) × (p' : Pool) × (create_address_space kernel_linear
          kernel_pagedirtable s
        ≡ some (linear_start + root, s'))
      × Represents s' p'
      × Gives n p'
      × IsWay shifts s'.mem p' root ptr []
create_address_space-IsWay kernel_linear kernel_pagedirtable ptr n s p l₁ l₂ d₁ d₂ r
      (a, p', e, gives) n₁ n₂ =
    let k : ℕ = entry_idx ptr 39 in
    let lt = entry_idx-lt ptr 39 in
    let t = alloc-Taken p a r.pool e in
    let o : Owned p' a = (t.frame, t.gone) in
    let (s₁, given, r₁, same) = frame_alloc_zero-given s p a p' r e in
    let empty : load 8 s₁.mem (a + 8 * k) ≡ 0 =
      load_agree 8 s₁.mem (λ q. 0) (a + 8 * k) (λ q lo hi. same q ∙ ground arith)
      ∙ load-zeros 8 (a + 8 * k) in
    let root : ℕ = linear_start + a in
    let at : linear_address_to_ptr a ≡ root = linear_address_to_ptr-eq a (omega arith) in
    let linear = pointer_to_linear_address_lem kernel_linear (inl (l₁, l₂)) in
    let dir = pointer_to_linear_address_lem kernel_pagedirtable (inl (d₁, d₂)) in
    let low : 256 < 512 = omega arith in
    let high : 511 < 512 = omega arith in
    let cleared =
      Holds-clear 512 a k 0 s₁ p' o (omega arith) (record { represents = r₁; holds = empty }) in
    let first = Holds-other a k 0 256 _ _ p' o low (λ x. n₁ (sym x)) cleared in
    let h = Holds-other a k 0 511 _ _ p' o high (λ x. n₂ (sym x)) first in
    let done = init_address_space-found kernel_linear kernel_pagedirtable root _ _ s₁ linear dir in
    (
      a,
      _,
      p',
      create_address_space-found kernel_linear kernel_pagedirtable a root s s₁ _ given at done,
      h.represents,
      gives,
      (o, refl, rw (h.holds) refl, inl (rw (h.holds) refl)),
    )
