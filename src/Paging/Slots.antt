-- ===== src/Paging/Slots.antt =====
-- Entries in tables that lie in frames, and what the allocator gives for a table.
use mathlib.Core.Path.{subst}
use metal_to_app.Base.{
  ℕ, ◌+◌, ◌*◌, ◌%◌, ◌^◌, ◌<◌, ◌≡◌, ◌≢◌, ap, ◌∙◌, if◌then◌else◌, Bool, true, false, Option, none,
  some, Mem, load, store, store_outside, test_bit, has, arith,
}
use metal_to_app.Memory.{linear_start, physical}
use metal_to_app.Memory.Linear.{physical-linear}
use metal_to_app.Frame.{FrameState, frame_alloc_zero}
use metal_to_app.Frame.Pool
use metal_to_app.Frame.Pool.{Pool, IsFrame, available}
use metal_to_app.Frame.Invariant.{Represents, Chain-frame, frames_apart, free_frames}
use metal_to_app.Frame.Refine.{Agree, zeroed, frame_alloc_zero_refines}
use metal_to_app.Paging.{entry_word, entry_idx, entry_ptr, read_entry, write_entry, entry_address}

-- The frames that the allocator does not have.
abbrev pub Owned : Pool → ℕ → Type 0
Owned p a = IsFrame a × (available a p ≡ false)

-- The address of an entry of the table in a frame.
abbrev pub slot : ℕ → ℕ → ℕ → ℕ
slot table ptr shift = table + 8 * entry_idx ptr shift

pub entry_idx-lt : (ptr shift : ℕ) → entry_idx ptr shift < 512
entry_idx-lt ptr shift = omega arith

-- The access through the pointer to an entry reaches its slot.
pub physical-entry :
    (table idx : ℕ)
    → IsFrame table
    → idx < 512
    → physical (entry_ptr (linear_start + table) idx) ≡ table + 8 * idx
physical-entry table idx f lt =
    let whole : (linear_start + table + 8 * idx) % 2 ^ 64 ≡ linear_start + (table + 8 * idx) =
      omega arith in
    ap physical whole ∙ physical-linear (table + 8 * idx) (omega arith)

pub read_entry-eq :
    (table idx : ℕ) (s : FrameState)
    → IsFrame table
    → idx < 512
    → read_entry (entry_ptr (linear_start + table) idx) s ≡ load 8 s.mem (table + 8 * idx)
unfolding read_entry
read_entry-eq table idx s f lt = ap (load 8 s.mem) (physical-entry table idx f lt)

pub write_entry-eq :
    (table idx word : ℕ) (s : FrameState)
    → IsFrame table
    → idx < 512
    → write_entry (entry_ptr (linear_start + table) idx) word s
      ≡ record s { mem = store 8 s.mem (table + 8 * idx) word }
unfolding write_entry
write_entry-eq table idx word s f lt =
    ap (λ a. record s { mem = store 8 s.mem a word }) (physical-entry table idx f lt)

-- The pool stays represented under a write to an entry of a table that is owned.
pub Represents-store :
    (table idx word : ℕ) (s : FrameState) (p : Pool)
    → Owned p table
    → idx < 512
    → Represents s p
    → Represents (record s { mem = store 8 s.mem (table + 8 * idx) word }) p
Represents-store table idx word s p o lt r = record {
  pool = r.pool;
  starts = r.starts;
  ends = r.ends;
  chain =
      Chain-frame s.mem (store 8 s.mem (table + 8 * idx) word) s.freelist p.free
        (λ a q h lo hi.
          let fa = (free_frames p r.pool a h).0 in
          let apart = frames_apart a table q fa o.0 (other a h) lo hi in
          store_outside 8 s.mem (table + 8 * idx) word q (omega arith))
        r.chain;
}
  where
    other : (a : ℕ) → has a p.free ≡ true → a ≢ table
    other a h e = ground (arith, subst (λ b. has b p.free ≡ true) e h)

-- The allocation of a zeroed frame, given what the pool gives.
Agree-given :
    (m : Mem) (r : Option (ℕ × FrameState)) (a : ℕ) (p' : Pool)
    → Agree (zeroed m) r (some (a, p'))
    → (s' : FrameState) × (r ≡ some (a, s'))
      × Represents s' p'
      × ((q : ℕ) → s'.mem q ≡ zeroed m a q)
Agree-given m none a p' h = absurd h
Agree-given m (some (b, s')) a p' (e, r, same) =
    (s', ap (λ x. some (x, s')) e, r, λ q. same q ∙ ap (λ x. zeroed m x q) e)

pub frame_alloc_zero-given :
    (s : FrameState) (p : Pool) (a : ℕ) (p' : Pool)
    → Represents s p
    → Pool.alloc p ≡ some (a, p')
    → (s' : FrameState) × (frame_alloc_zero s ≡ some (a, s'))
      × Represents s' p'
      × ((q : ℕ) → s'.mem q ≡ zeroed s.mem a q)
frame_alloc_zero-given s p a p' r e =
    Agree-given s.mem (frame_alloc_zero s) a p'
      (subst (Agree (zeroed s.mem) (frame_alloc_zero s)) e (frame_alloc_zero_refines s p r))

-- The word of an entry for a frame: present, not big, with the frame as its address.
pub entry_word-lem :
    (a : ℕ) (usermode : Bool)
    → IsFrame a
    → (test_bit (entry_word a usermode) 0 ≡ true)
      × (test_bit (entry_word a usermode) 7 ≡ false)
      × (entry_address (entry_word a usermode) ≡ a)
      × (entry_word a usermode < 2 ^ 39)
entry_word-lem a usermode f =
    let word : entry_word a usermode ≡ a + 3 + (if usermode then 4 else 0) = ground arith in
    rw word (ground arith, ground arith, ground arith, ground arith)
