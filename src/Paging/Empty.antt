-- ===== src/Paging/Empty.antt =====
-- The address space that `create_address_space` makes: its lower half has no tables.
use metal_to_app.Base.{
  ℕ, zero, suc, ◌+◌, ◌*◌, ◌≤◌, ◌<◌, ◌≡◌, refl, ap, ◌∙◌, ◌⊎◌, inl, inr, none, some, Mem, load,
  load-store_self, load-store_ne, store_outside, test_bit, eq-cases, arith,
}
use metal_to_app.Memory.{linear_start, kernel_base, dynamic_start, linear_address_to_ptr}
use metal_to_app.Memory.Linear.{linear_address_to_ptr-eq, pointer_to_linear_address_lem}
use metal_to_app.Frame.{FrameState}
use metal_to_app.Frame.Pool.{Pool}
use metal_to_app.Frame.Invariant.{Represents}
use metal_to_app.Frame.Taken.{alloc-Taken}
use metal_to_app.Paging.{entry_idx, entry_ptr, write_entry}
use metal_to_app.Paging.Kernel.{fill}
use metal_to_app.Paging.Image.{init_address_space-found}
use metal_to_app.Paging.Slots.{Owned, write_entry-eq, Represents-store, frame_alloc_zero-given}
use metal_to_app.Paging.Tables.{word_at}
use metal_to_app.Paging.Ensure.{Gives}
use metal_to_app.Paging.Placed.{Labels, IsLow, IsSpace}
use metal_to_app.Paging.Step.{
  Kept, set_label, set_label_other, set_label_self, Taken-ne, zeroed-outside,
}
use metal_to_app.Paging.Mmu.{translate, walk_absent}
use metal_to_app.Paging.Space.{create_address_space, create_address_space-found}

low_idx : (ptr : ℕ) → IsLow ptr → entry_idx ptr 39 < 256
low_idx ptr low = omega arith

-- A root table of which the entries of the lower half are zero.
pub empty-IsSpace :
    (l : Labels) (m : Mem) (p : Pool) (root : ℕ)
    → Owned p root
    → l.level root ≡ 3
    → l.place root ≡ 0
    → ((k : ℕ) → k < 256 → load 8 m (root + 8 * k) ≡ 0)
    → IsSpace l m p root × ((ptr : ℕ) → IsLow ptr → translate m root ptr ≡ none)
empty-IsSpace l m p root o level place zeros = (
  λ ptr low. (
    record { owned = o; at_level = level; at_place = place ∙ omega arith },
    ap (λ w. test_bit w 7) (word ptr low),
    inl (ap (λ w. test_bit w 0) (word ptr low)),
  ),
  λ ptr low. walk_absent 39 _ m root ptr (ap (λ w. test_bit w 0) (word ptr low)),
)
  where
    word : (ptr : ℕ) → IsLow ptr → word_at m root ptr 39 ≡ 0
    word ptr low = zeros (entry_idx ptr 39) (low_idx ptr low)

-- The entries before `k` are zero, and outside of the table memory is `m`.
record Cleared (table k : ℕ) (m : Mem) (s : FrameState) (p : Pool) : Type 0 where
  represents : Represents s p
  zeros : (j : ℕ) → j < k → load 8 s.mem (table + 8 * j) ≡ 0
  outside : (q : ℕ) → (q < table) ⊎ (table + 0x1000 ≤ q) → s.mem q ≡ m q

module _ (table : ℕ) (m : Mem) (p : Pool) (o : Owned p table) where
  Cleared-write :
      (k i v : ℕ) (s : FrameState)
      → i < 512
      → k ≤ i
      → Cleared table k m s p
      → Cleared table k m (write_entry (entry_ptr (linear_start + table) i) v s) p
  Cleared-write k i v s lt le c = rw (write_entry-eq table i v s o.0 lt) (record {
    represents = Represents-store table i v s p o lt c.represents;
    zeros = λ j h.
        load-store_ne 8 8 s.mem (table + 8 * j) (table + 8 * i) v (omega arith) ∙ c.zeros j h;
    outside = λ q h. store_outside 8 s.mem (table + 8 * i) v q (omega arith) ∙ c.outside q h;
  })

  Cleared-next :
      (k : ℕ) (s : FrameState)
      → k < 512
      → Cleared table k m s p
      → Cleared table (suc k) m (write_entry (entry_ptr (linear_start + table) k) 0 s) p
  Cleared-next k s lt c =
      let same : load 8 (write_entry (entry_ptr (linear_start + table) k) 0 s).mem (table + 8 * k)
          ≡ 0 =
        rw (write_entry-eq table k 0 s o.0 lt)
          (load-store_self 8 s.mem (table + 8 * k) 0 (omega arith)) in
      let w = Cleared-write k k 0 s lt (omega arith) c in
      record {
        represents = w.represents;
        zeros = λ j h. elim (eq-cases j k) [
          | inl e ↦
              ap
                (λ x.
                  load 8 (write_entry (entry_ptr (linear_start + table) k) 0 s).mem (table + 8 * x))
                e
              ∙ same
          | inr ne ↦ w.zeros j (omega arith)
        ];
        outside = w.outside;
      }

  Cleared-fill :
      (n k : ℕ) (s : FrameState)
      → k + n ≤ 512
      → Cleared table k m s p
      → Cleared table (k + n) m (fill (λ j. 0) n k (linear_start + table) s) p
  unfolding fill
  Cleared-fill zero k s le c = let e : k + 0 ≡ k = omega arith in rw e c
  Cleared-fill (suc n) k s le c =
      let e : k + suc n ≡ k + 1 + n = omega arith in
      let f : k + 1 ≡ suc k = omega arith in
      rw e (
        Cleared-fill n (k + 1) (write_entry (entry_ptr (linear_start + table) k) 0 s) (omega arith)
          (rw f (Cleared-next k s (omega arith) c)))

  Cleared-less : (j k : ℕ) (s : FrameState) → j ≤ k → Cleared table k m s p → Cleared table j m s p
  Cleared-less j k s le c = record {
    represents = c.represents;
    zeros = λ i h. c.zeros i (omega arith);
    outside = c.outside;
  }

-- What `create_address_space` leaves.
pub record Created (n root : ℕ) (l : Labels) (s s' : FrameState) (p p' : Pool) : Type 0 where
  pub new_labels : Labels
  pub represents : Represents s' p'
  pub gives : Gives n p'
  pub space : IsSpace new_labels s'.mem p' root
  pub kept : Kept l new_labels s.mem s'.mem p p'
  pub empty : (ptr : ℕ) → IsLow ptr → translate s'.mem root ptr ≡ none

-- With static tables in the kernel window and n + 1 frames in the pool, create_address_space
-- returns the pointer to a root table whose lower half is a tree of tables and in which the CPU
-- translates no address of the lower half; the pool is still represented and has n frames, and
-- frames that the allocator did not have and that are no tables keep their bytes.
pub create_address_space-Created :
    (kernel_linear kernel_pagedirtable n : ℕ) (l : Labels) (s : FrameState) (p : Pool)
    → kernel_base < kernel_linear
    → kernel_linear < dynamic_start
    → kernel_base < kernel_pagedirtable
    → kernel_pagedirtable < dynamic_start
    → Represents s p
    → Gives (suc n) p
    → (root : ℕ) × (s' : FrameState) × (p' : Pool) × (create_address_space kernel_linear
          kernel_pagedirtable s
        ≡ some (linear_start + root, s'))
      × Created n root l s s' p p'
create_address_space-Created kernel_linear kernel_pagedirtable n l s p l₁ l₂ d₁ d₂ r
      (a, p', e, gives) =
    let t = alloc-Taken p a r.pool e in
    let o : Owned p' a = (t.frame, t.gone) in
    let (s₁, given, r₁, same) = frame_alloc_zero-given s p a p' r e in
    let at : linear_address_to_ptr a ≡ linear_start + a =
      linear_address_to_ptr-eq a (omega arith) in
    let linear = pointer_to_linear_address_lem kernel_linear (inl (l₁, l₂)) in
    let dir = pointer_to_linear_address_lem kernel_pagedirtable (inl (d₁, d₂)) in
    let first : Cleared a 0 s₁.mem s₁ p' = record {
      represents = r₁;
      zeros = λ j h. absurd (omega arith);
      outside = λ q h. refl;
    } in
    let cleared =
      Cleared-less a s₁.mem p' o 256 512 _ (omega arith)
        (Cleared-fill a s₁.mem p' o 512 0 s₁ (omega arith) first) in
    let c =
      Cleared-write a s₁.mem p' o 256 511 _ _ (omega arith) (omega arith)
        (Cleared-write a s₁.mem p' o 256 256 _ _ (omega arith) (omega arith) cleared) in
    let labels : Labels = set_label a 3 0 l in
    let is =
      empty-IsSpace labels _ p' a o (set_label_self a 3 0 l).0 (set_label_self a 3 0 l).1 c.zeros in
    (
      a,
      _,
      p',
      create_address_space-found kernel_linear kernel_pagedirtable a (linear_start + a) s s₁ _ given
          at
          (init_address_space-found kernel_linear kernel_pagedirtable (linear_start + a) _ _ s₁
            linear dir),
      record {
        new_labels = labels;
        represents = c.represents;
        gives = gives;
        space = is.0;
        kept = record {
          shrinks = t.kept;
          labels = λ b h. set_label_other a 3 0 b l (Taken-ne p p' a b t h);
          bytes = λ b q ob high lo hi.
              let ne = Taken-ne p p' a b t ob.1 in
              c.outside q (omega (arith, ob.0, t.frame))
              ∙ same q
              ∙ zeroed-outside s.mem a b q t.frame ob.0 ne lo hi;
        };
        empty = is.1;
      },
    )
