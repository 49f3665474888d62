-- ===== src/Paging/Ensure.antt =====
-- One level of `resolve_pageentry`: the table behind an entry is there afterwards.
use metal_to_app.Base.{
  ℕ, zero, suc, ◌+◌, ◌*◌, ◌≤◌, ◌<◌, ◌≡◌, ◌≢◌, refl, sym, ap, ◌∙◌, ◌⊎◌, inl, inr, true, false, some,
  List, [], ◌∷◌, Mem, load, store, load_agree, load-store_self, store_outside, test_bit, has, All,
  All-has, Bool-cases, ne→==, arith,
}
use metal_to_app.Memory.{linear_start}
use metal_to_app.Memory.Linear.{linear_address_to_ptr-eq}
use metal_to_app.Frame.{FrameState, frame_alloc_zero}
use metal_to_app.Frame.Pool
use metal_to_app.Frame.Pool.{Pool, IsFrame, available}
use metal_to_app.Frame.Invariant.{Represents}
use metal_to_app.Frame.Refine.{zeroed}
use metal_to_app.Frame.Taken.{Taken, alloc-Taken}
use metal_to_app.Paging.{
  entry_word, entry_idx, entry_ptr, read_entry, write_entry, entry_address, ensure_table,
  resolve_from,
}
use metal_to_app.Paging.Slots.{
  Owned, slot, entry_idx-lt, read_entry-eq, write_entry-eq, Represents-store,
  frame_alloc_zero-given, entry_word-lem,
}
use metal_to_app.Paging.Tables.{word_at, IsWay, Shrinks, KeepsBut}

-- The pool can give that many frames.
abbrev pub Gives : ℕ → Pool → Type 0
Gives zero p = Unit
Gives (suc n) p = (a : ℕ) × (p' : Pool) × (Pool.alloc p ≡ some (a, p')) × Gives n p'

-- A pool that has a range of frames.
pub Gives-range :
    (n low high : ℕ)
    → low + n * 0x1000 ≤ high
    → Gives n (record { free = []; low = low; high = high })
unfolding Pool.alloc Pool.alloc_from Pool.alloc_from_range
Gives-range zero low high le = tt
Gives-range (suc n) low high le = (
  low,
  record { free = []; low = low + 0x1000; high = high },
  rw (ne→== low high (λ e. omega arith)) refl,
  Gives-range n (low + 0x1000) high (omega arith),
)

pub Gives-less : (n : ℕ) (p : Pool) → Gives (suc n) p → Gives n p
Gives-less zero p g = tt
Gives-less (suc n) p (a, p', e, g) = (a, p', e, Gives-less n p' g)

-- What `ensure_table` comes to at an entry of a table.
pub record Ensured (n : ℕ) (shifts : List ℕ) (table ptr shift : ℕ) (above : List ℕ)
    (s s' : FrameState) (p p' : Pool) : Type 0 where
  pub represents : Represents s' p'
  pub gives : Gives n p'
  pub shrinks : Shrinks p p'
  pub small : test_bit (word_at s'.mem table ptr shift) 7 ≡ false
  pub there : test_bit (word_at s'.mem table ptr shift) 0 ≡ true
  pub way :
      IsWay shifts s'.mem p' (entry_address (word_at s'.mem table ptr shift)) ptr (table ∷ above)
  pub keeps : KeepsBut p (table ∷ []) s.mem s'.mem

Taken-above :
    (p p' : Pool) (a : ℕ) (above : List ℕ)
    → Taken a p p'
    → All (λ b. available b p ≡ false) above
    → has a above ≡ false
Taken-above p p' a above t out = elim (Bool-cases (has a above)) [
  | inl h ↦ absurd (cc (sym t.was ∙ All-has (λ b. available b p ≡ false) a above out h))
  | inr h ↦ h
]

pub load-zeros : (n a : ℕ) → load n (λ q. 0) a ≡ 0
unfolding load
load-zeros zero a = refl
load-zeros (suc n) a = rw (load-zeros n (a + 1)) refl

-- A frame of zeros that the pool just gave is a way of which nothing is there.
fresh-IsWay :
    (shifts : List ℕ) (m : Mem) (p p' : Pool) (a ptr : ℕ) (above : List ℕ)
    → Taken a p p'
    → All (λ b. available b p ≡ false) above
    → ((q : ℕ) → a ≤ q → q < a + 0x1000 → m q ≡ 0)
    → IsWay shifts m p' a ptr above
fresh-IsWay [] m p p' a ptr above t out zeros = ((t.frame, t.gone), Taken-above p p' a above t out)
fresh-IsWay (shift ∷ shifts) m p p' a ptr above t out zeros =
    let empty : word_at m a ptr shift ≡ 0 =
      load_agree 8 m (λ q. 0) (slot a ptr shift) (λ q lo hi. zeros q (omega arith) (omega arith))
      ∙ load-zeros 8 (slot a ptr shift) in
    ((t.frame, t.gone), Taken-above p p' a above t out, rw empty refl, inl (rw empty refl))

pub ensure_present :
    (entry : ℕ) (s : FrameState)
    → test_bit (read_entry entry s) 0 ≡ true
    → ensure_table entry s ≡ some s
unfolding ensure_table
ensure_present entry s h = rw h

pub ensure_absent :
    (entry a : ℕ) (s s' : FrameState)
    → test_bit (read_entry entry s) 0 ≡ false
    → frame_alloc_zero s ≡ some (a, s')
    → ensure_table entry s ≡ some (write_entry entry (entry_word a true) s')
unfolding ensure_table
ensure_absent entry a s s' h e = rw (h, e)

-- Bytes of frames other than the table and the new one stay, and the new one is zero.
module _ (s s' : FrameState) (p : Pool) (a table idx word : ℕ) (fa : IsFrame a)
    (was : available a p ≡ true) (o : Owned p table) (lt : idx < 512)
    (same : (q : ℕ) → s'.mem q ≡ zeroed s.mem a q) where
  frame_ne : (b : ℕ) → available b p ≡ false → b ≢ a
  frame_ne b h e = cc (sym h ∙ ap (λ x. available x p) e ∙ was)

  entered-zero : (q : ℕ) → a ≤ q → q < a + 0x1000 → store 8 s'.mem (table + 8 * idx) word q ≡ 0
  entered-zero q lo hi =
      let ne = frame_ne table o.1 in
      store_outside 8 s'.mem (table + 8 * idx) word q (omega arith) ∙ same q ∙ ground arith

  entered-KeepsBut : KeepsBut p (table ∷ []) s.mem (store 8 s'.mem (table + 8 * idx) word)
  entered-KeepsBut b q ob out lo hi =
      let ne = frame_ne b ob.1 in
      let ne_table : b ≢ table = ground arith in
      store_outside 8 s'.mem (table + 8 * idx) word q (omega arith) ∙ same q ∙ ground arith

pub resolve_step :
    (shift : ℕ) (shifts : List ℕ) (table ptr : ℕ) (s s' : FrameState)
    → IsFrame table
    → test_bit (word_at s.mem table ptr shift) 7 ≡ false
    → ensure_table (entry_ptr (linear_start + table) (entry_idx ptr shift)) s ≡ some s'
    → IsFrame (entry_address (word_at s'.mem table ptr shift))
    → resolve_from (shift ∷ shifts) (linear_start + table) ptr s
      ≡ resolve_from shifts (linear_start + entry_address (word_at s'.mem table ptr shift)) ptr s'
unfolding resolve_from
resolve_step shift shifts table ptr s s' f small e f' = rw (
  e,
  read_entry-eq table (entry_idx ptr shift) s f (entry_idx-lt ptr shift),
  small,
  read_entry-eq table (entry_idx ptr shift) s' f (entry_idx-lt ptr shift),
  linear_address_to_ptr-eq (entry_address (word_at s'.mem table ptr shift)) (omega arith),
)

module _ (n : ℕ) (shifts : List ℕ) (table ptr shift : ℕ) (above : List ℕ) (s : FrameState)
    (p : Pool) (r : Represents s p) (g : Gives (suc n) p)
    (clear : All (λ b. available b p ≡ false) above) (o : Owned p table)
    (small : test_bit (word_at s.mem table ptr shift) 7 ≡ false) where
  abbrev pub entry : ℕ
  entry = entry_ptr (linear_start + table) (entry_idx ptr shift)

  present-Ensured :
      test_bit (word_at s.mem table ptr shift) 0 ≡ true
      → IsWay shifts s.mem p (entry_address (word_at s.mem table ptr shift)) ptr (table ∷ above)
      → Ensured n shifts table ptr shift above s s p p
  present-Ensured there way = record {
    represents = r;
    gives = Gives-less n p g;
    shrinks = λ b h. h;
    small = small;
    there = there;
    way = way;
    keeps = λ a q oa out lo hi. refl;
  }

  -- The state with a new table behind the entry.
  with_table : ℕ → FrameState → FrameState
  with_table a s' = record s' { mem = store 8 s'.mem (slot table ptr shift) (entry_word a true) }

  absent-Ensured :
      (a : ℕ) (p' : Pool) (s' : FrameState)
      → Taken a p p'
      → Gives n p'
      → Represents s' p'
      → ((q : ℕ) → s'.mem q ≡ zeroed s.mem a q)
      → Ensured n shifts table ptr shift above s (with_table a s') p p'
  unfolding with_table
  absent-Ensured a p' s' t gives r' same =
      let idx = entry_idx-lt ptr shift in
      let (bit, no_bit, back, size) = entry_word-lem a true t.frame in
      let word : word_at (with_table a s').mem table ptr shift ≡ entry_word a true =
        load-store_self 8 s'.mem (slot table ptr shift) (entry_word a true) (omega arith) in
      record {
        represents =
            Represents-store table (entry_idx ptr shift) (entry_word a true) s' p'
              (o.0, t.kept table o.1) idx r';
        gives = gives;
        shrinks = t.kept;
        small = rw word no_bit;
        there = rw word bit;
        way =
            rw (word, back)
              (fresh-IsWay shifts (with_table a s').mem p p' a ptr (table ∷ above) t (o.1, clear)
                (entered-zero s s' p a table (entry_idx ptr shift) (entry_word a true) t.frame t.was
                  o idx same));
        keeps =
            entered-KeepsBut s s' p a table (entry_idx ptr shift) (entry_word a true) t.frame t.was
              o idx same;
      }

  pub ensure-Ensured :
      (test_bit (word_at s.mem table ptr shift) 0 ≡ false)
        ⊎ IsWay shifts s.mem p (entry_address (word_at s.mem table ptr shift)) ptr (table ∷ above)
      → (s' : FrameState) × (p' : Pool) × (ensure_table entry s ≡ some s')
        × Ensured n shifts table ptr shift above s s' p p'
  unfolding with_table
  ensure-Ensured way = elim (Bool-cases (test_bit (word_at s.mem table ptr shift) 0)) [
    | inl there ↦ (
      s,
      p,
      ensure_present entry s (rw at_entry there),
      present-Ensured there
          (elim way [ inl absent ↦ absurd (cc (sym absent ∙ there)) | inr w ↦ w ]),
    )
    | inr absent ↦
        let (a, p', e, gives) = g in
        let (s', given, r', same) = frame_alloc_zero-given s p a p' r e in
        (
          with_table a s',
          p',
          ensure_absent entry a s s' (rw at_entry absent) given
              ∙ ap some (
                  write_entry-eq table (entry_idx ptr shift) (entry_word a true) s' o.0
                    (entry_idx-lt ptr shift)),
          absent-Ensured a p' s' (alloc-Taken p a r.pool e) gives r' same,
        )
  ]
    where
      at_entry : read_entry entry s ≡ word_at s.mem table ptr shift
      at_entry = read_entry-eq table (entry_idx ptr shift) s o.0 (entry_idx-lt ptr shift)
