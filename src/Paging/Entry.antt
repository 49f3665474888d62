-- ===== src/Paging/Entry.antt =====
-- A write to the last entry of a whole way, which `mmap` and `munmap` make.
use metal_to_app.Base.{
  ℕ, ◌+◌, ◌*◌, ◌/◌, ◌%◌, ◌^◌, ◌<◌, ◌≡◌, refl, ap, ◌∙◌, if◌then◌else◌, Bool, true, some, List, Mem,
  load, store, load-store_self, test_bit, arith,
}
use mathlib.Core.Path.{ap₂}
use metal_to_app.Memory.{linear_start}
use metal_to_app.Frame.{FrameState}
use metal_to_app.Frame.Pool.{Pool, IsFrame}
use metal_to_app.Frame.Invariant.{Represents}
use metal_to_app.Paging.{
  entry_word, entry_idx, read_entry, write_entry, entry_address, resolve_from, resolve_pageentry,
  shifts, mmap, munmap,
}
use metal_to_app.Paging.Slots.{slot, entry_idx-lt, read_entry-eq, write_entry-eq, Represents-store}
use metal_to_app.Paging.Tables.{word_at, tables, leaf, IsWhole, KeepsBut, leaf-tables, has-only}
use metal_to_app.Paging.Way.{leaf_entry}
use metal_to_app.Paging.Mmu.{
  page_of, translate, whole-cpu_walk, leaf-Owned, IsWhole-keep, store-KeepsBut, IsWhole-same_page,
}

-- The word of an entry for a page.
pub page_word :
    (page : ℕ) (usermode : Bool)
    → page % 0x1000 ≡ 0
    → page < 2 ^ 52
    → (test_bit (entry_word page usermode) 0 ≡ true)
      × (entry_word page usermode % 2 ^ 52 / 2 ^ 12 * 2 ^ 12 ≡ page)
      × (entry_address (entry_word page usermode) ≡ page)
      × (test_bit (entry_word page usermode) 2 ≡ usermode)
      × (entry_word page usermode < 2 ^ 64)
page_word page usermode aligned small =
    let word : entry_word page usermode ≡ page + 3 + (if usermode then 4 else 0) = ground arith in
    rw word (ground arith, ground arith, ground arith, ground arith, ground arith)

-- The state after a write to the last entry of a whole way.
abbrev pub write_leaf : ℕ → ℕ → ℕ → FrameState → FrameState
write_leaf root ptr word s = record s {
  mem = store 8 s.mem (slot (leaf shifts s.mem root ptr) ptr 12) word;
}

-- What such a write comes to.
pub record Put (root ptr word : ℕ) (above : List ℕ) (s : FrameState) (p : Pool) : Type 0 where
  pub represents : Represents (write_leaf root ptr word s) p
  pub whole : IsWhole shifts (write_leaf root ptr word s).mem p root ptr above
  pub at_leaf : leaf shifts (write_leaf root ptr word s).mem root ptr ≡ leaf shifts s.mem root ptr
  pub on_way :
      tables shifts (write_leaf root ptr word s).mem root ptr ≡ tables shifts s.mem root ptr
  pub holds :
      word_at
        (write_leaf root ptr word s).mem
        (leaf shifts (write_leaf root ptr word s).mem root ptr)
        ptr
        12
      ≡ word
  pub keeps : KeepsBut p (tables shifts s.mem root ptr) s.mem (write_leaf root ptr word s).mem

pub write_leaf-Put :
    (root ptr word : ℕ) (above : List ℕ) (s : FrameState) (p : Pool)
    → word < 2 ^ 64
    → Represents s p
    → IsWhole shifts s.mem p root ptr above
    → Put root ptr word above s p
write_leaf-Put root ptr word above s p small r w =
    let last : ℕ = leaf shifts s.mem root ptr in
    let o = leaf-Owned shifts s.mem p root ptr above w in
    let only = store-KeepsBut p last ptr 12 word s.mem o.0 in
    let (at, path, way) =
      IsWhole-keep shifts s.mem (write_leaf root ptr word s).mem p root ptr above w only in
    record {
      represents = Represents-store last (entry_idx ptr 12) word s p o (entry_idx-lt ptr 12) r;
      whole = way;
      at_leaf = at;
      on_way = path;
      holds =
          ap (λ t. word_at (write_leaf root ptr word s).mem t ptr 12) at
          ∙ load-store_self 8 s.mem (slot last ptr 12) word (omega arith);
      keeps = λ a q oa out lo hi.
          only a q oa
            (has-only a last (tables shifts s.mem root ptr) (leaf-tables shifts s.mem root ptr) out)
            lo hi;
    }

pub mmap-found :
    (table page ptr entry : ℕ) (usermode : Bool) (s s' : FrameState)
    → resolve_pageentry table ptr s ≡ some (entry, s')
    → mmap table page ptr usermode s ≡ some (write_entry entry (entry_word page usermode) s')
unfolding mmap
mmap-found table page ptr entry usermode s s' e = rw (e, mmap) refl

pub munmap-found :
    (table ptr entry : ℕ) (s s' : FrameState)
    → resolve_pageentry table ptr s ≡ some (entry, s')
    → munmap table ptr s ≡ some (entry_address (read_entry entry s'), write_entry entry 0 s')
unfolding munmap
munmap-found table ptr entry s s' e = rw (e, munmap) refl

module _ (root ptr : ℕ) (s s' : FrameState) (f : IsFrame (leaf shifts s'.mem root ptr))
    (found : resolve_from shifts (linear_start + root) ptr s
      ≡ some (leaf_entry shifts s'.mem root ptr, s')) where
  resolved :
      resolve_pageentry (linear_start + root) ptr s ≡ some (leaf_entry shifts s'.mem root ptr, s')
  unfolding resolve_pageentry
  resolved = found

  pub mmap-eq :
      (page : ℕ) (usermode : Bool)
      → mmap (linear_start + root) page ptr usermode s
        ≡ some (write_leaf root ptr (entry_word page usermode) s')
  mmap-eq page usermode =
      mmap-found (linear_start + root) page ptr (leaf_entry shifts s'.mem root ptr) usermode s s'
        resolved
      ∙ ap some (
          write_entry-eq (leaf shifts s'.mem root ptr) (entry_idx ptr 12) (entry_word page usermode)
            s' f (entry_idx-lt ptr 12))

  pub munmap-eq :
      munmap (linear_start + root) ptr s
      ≡ some (
        entry_address (word_at s'.mem (leaf shifts s'.mem root ptr) ptr 12),
        write_leaf root ptr 0 s',
      )
  munmap-eq =
      let lt = entry_idx-lt ptr 12 in
      let table : ℕ = leaf shifts s'.mem root ptr in
      munmap-found (linear_start + root) ptr (leaf_entry shifts s'.mem root ptr) s s' resolved
      ∙ ap₂ (λ w t. some (entry_address w, t)) (read_entry-eq table (entry_idx ptr 12) s' f lt)
          (write_entry-eq table (entry_idx ptr 12) 0 s' f lt)

-- The CPU finds the last entry also for the other addresses of its page.
pub translate-leaf :
    (m : Mem) (p : Pool) (root ptr ptr' : ℕ) (above : List ℕ)
    → ptr' / 0x1000 ≡ ptr / 0x1000
    → IsWhole shifts m p root ptr above
    → translate m root ptr' ≡ page_of (word_at m (leaf shifts m root ptr) ptr 12) ptr'
translate-leaf m p root ptr ptr' above page w =
    let last : entry_idx ptr' 12 ≡ entry_idx ptr 12 = omega arith in
    let (at, way) =
      IsWhole-same_page shifts m p root ptr ptr' above
        (omega arith, (omega arith, (omega arith, tt))) w in
    whole-cpu_walk shifts m p root ptr' above way
    ∙ ap (λ t. page_of (word_at m t ptr' 12) ptr') at
    ∙ ap (λ i. page_of (load 8 m (leaf shifts m root ptr + 8 * i)) ptr') last

pub page_of-word :
    (page ptr : ℕ) (usermode : Bool)
    → page % 0x1000 ≡ 0
    → page < 2 ^ 52
    → page_of (entry_word page usermode) ptr ≡ some (page + ptr % 2 ^ 12)
page_of-word page ptr usermode aligned small =
    let (there, frame, back, user, size) = page_word page usermode aligned small in
    rw (there, frame) refl
