-- ===== src/Paging/Mmu.antt =====
-- The translation that the CPU makes, and what a whole way means for it. It is the walk through the tables
-- in memory, without the TLB: the program never executes INVLPG (reload_tlb of src/memory.c is commented
-- out), so that the CPU may keep an old translation until CR3 is loaded.
use metal_to_app.Base.{
  ℕ, ◌+◌, ◌*◌, ◌/◌, ◌%◌, ◌^◌, ◌≡◌, ◌≢◌, refl, sym, ap, ◌∙◌, if◌then◌else◌, not, true, false, Option,
  none, some, List, [], ◌∷◌, Mem, test_bit, store, store_outside, has, All, ne_of_has, ne→==, arith,
}
use metal_to_app.Memory.{linear_start}
use metal_to_app.Frame.{FrameState}
use metal_to_app.Frame.Pool.{Pool, IsFrame}
use metal_to_app.Paging.{entry_idx, entry_ptr, entry_address, resolve_from, shifts}
use metal_to_app.Paging.Slots.{Owned, slot, entry_idx-lt, read_entry-eq}
use metal_to_app.Paging.Tables.{
  word_at, tables, leaf, IsWhole, KeepsBut, word_at-keep, tables-above, leaf-tables,
}
use metal_to_app.Paging.Ensure.{ensure_present, resolve_step}
use metal_to_app.Paging.Way.{leaf_entry, resolve_last, whole-Owned}

-- The frame number of an entry lies in bits 12 to 51.
abbrev pub page_of : ℕ → ℕ → Option ℕ
page_of word ptr =
    if test_bit word 0 then some (word % 2 ^ 52 / 2 ^ 12 * 2 ^ 12 + ptr % 2 ^ 12) else none

-- The levels of the translation from a table on: an entry that is not present is a fault, a big one
-- holds a page of its level.
unfoldable pub cpu_walk : List ℕ → Mem → ℕ → ℕ → Option ℕ
cpu_walk [] m table ptr = page_of (word_at m table ptr 12) ptr
cpu_walk (shift ∷ rest) m table ptr =
    let word = word_at m table ptr shift in
    let deeper = cpu_walk rest m (word % 2 ^ 52 / 2 ^ 12 * 2 ^ 12) ptr in
    if not (test_bit word 0)
    then none
    else if test_bit word 7
    then some (word % 2 ^ 52 / 2 ^ shift * 2 ^ shift + ptr % 2 ^ shift)
    else deeper

-- The address that the CPU reaches for `ptr` with a root table; `none` is a page fault.
abbrev pub translate : Mem → ℕ → ℕ → Option ℕ
translate m root ptr = cpu_walk shifts m root ptr

-- The steps of the walk.
pub walk_absent :
    (shift : ℕ) (rest : List ℕ) (m : Mem) (table ptr : ℕ)
    → test_bit (word_at m table ptr shift) 0 ≡ false
    → cpu_walk (shift ∷ rest) m table ptr ≡ none
unfolding cpu_walk
walk_absent shift rest m table ptr h = rw (h, cpu_walk) refl

pub walk_big :
    (shift : ℕ) (rest : List ℕ) (m : Mem) (table ptr : ℕ)
    → test_bit (word_at m table ptr shift) 0 ≡ true
    → test_bit (word_at m table ptr shift) 7 ≡ true
    → cpu_walk (shift ∷ rest) m table ptr
      ≡ some (word_at m table ptr shift % 2 ^ 52 / 2 ^ shift * 2 ^ shift + ptr % 2 ^ shift)
unfolding cpu_walk
walk_big shift rest m table ptr h b = rw (h, b, cpu_walk) refl

pub walk_next :
    (shift : ℕ) (rest : List ℕ) (m : Mem) (table ptr next : ℕ)
    → test_bit (word_at m table ptr shift) 0 ≡ true
    → test_bit (word_at m table ptr shift) 7 ≡ false
    → word_at m table ptr shift % 2 ^ 52 / 2 ^ 12 * 2 ^ 12 ≡ next
    → cpu_walk (shift ∷ rest) m table ptr ≡ cpu_walk rest m next ptr
unfolding cpu_walk
walk_next shift rest m table ptr next h b e =
    rw (h, b, cpu_walk) (ap (λ t. cpu_walk rest m t ptr) e)

-- The CPU and the kernel read the same frame from an entry.
pub same_frame :
    (word : ℕ) → IsFrame (entry_address word) → word % 2 ^ 52 / 2 ^ 12 * 2 ^ 12 ≡ entry_address word
same_frame word f = omega arith

pub whole-cpu_walk :
    (rest : List ℕ) (m : Mem) (p : Pool) (table ptr : ℕ) (above : List ℕ)
    → IsWhole rest m p table ptr above
    → cpu_walk rest m table ptr ≡ page_of (word_at m (leaf rest m table ptr) ptr 12) ptr
unfolding cpu_walk
whole-cpu_walk [] m p table ptr above w = refl
whole-cpu_walk (shift ∷ rest) m p table ptr above (o, out, small, there, whole) =
    let next : ℕ = entry_address (word_at m table ptr shift) in
    let frame = (whole-Owned rest m p next ptr (table ∷ above) whole).0 in
    rw (there, small)
      (ap (λ t. cpu_walk rest m t ptr) (same_frame (word_at m table ptr shift) frame)
        ∙ whole-cpu_walk rest m p next ptr (table ∷ above) whole)

pub leaf-Owned :
    (rest : List ℕ) (m : Mem) (p : Pool) (table ptr : ℕ) (above : List ℕ)
    → IsWhole rest m p table ptr above
    → Owned p (leaf rest m table ptr)
leaf-Owned [] m p table ptr above w = w.0
leaf-Owned (shift ∷ rest) m p table ptr above (o, out, small, there, whole) =
    leaf-Owned rest m p (entry_address (word_at m table ptr shift)) ptr (table ∷ above) whole

-- On a whole way the search finds the entry and changes nothing.
pub whole-resolve_from :
    (rest : List ℕ) (s : FrameState) (p : Pool) (table ptr : ℕ) (above : List ℕ)
    → IsWhole rest s.mem p table ptr above
    → resolve_from rest (linear_start + table) ptr s ≡ some (leaf_entry rest s.mem table ptr, s)
whole-resolve_from [] s p table ptr above w = resolve_last table ptr s
whole-resolve_from (shift ∷ rest) s p table ptr above (o, out, small, there, whole) =
    let next : ℕ = entry_address (word_at s.mem table ptr shift) in
    let frame = (whole-Owned rest s.mem p next ptr (table ∷ above) whole).0 in
    let read = read_entry-eq table (entry_idx ptr shift) s o.0 (entry_idx-lt ptr shift) in
    let kept =
      ensure_present (entry_ptr (linear_start + table) (entry_idx ptr shift)) s (rw read there) in
    resolve_step shift rest table ptr s s o.0 small kept frame
    ∙ whole-resolve_from rest s p next ptr (table ∷ above) whole

-- A change of the last table alone leaves the way.
pub IsWhole-keep :
    (rest : List ℕ) (m m' : Mem) (p : Pool) (table ptr : ℕ) (above : List ℕ)
    → IsWhole rest m p table ptr above
    → KeepsBut p (leaf rest m table ptr ∷ []) m m'
    → (leaf rest m' table ptr ≡ leaf rest m table ptr)
      × (tables rest m' table ptr ≡ tables rest m table ptr)
      × IsWhole rest m' p table ptr above
IsWhole-keep [] m m' p table ptr above w keeps = (refl, refl, w)
IsWhole-keep (shift ∷ rest) m m' p table ptr above (o, out, small, there, whole) keeps =
    let next : ℕ = entry_address (word_at m table ptr shift) in
    let last : ℕ = leaf rest m next ptr in
    let apart = tables-above rest m p next ptr (table ∷ above) table whole (ground arith) in
    let ne = ne_of_has last table (tables rest m next ptr) (leaf-tables rest m next ptr) apart in
    let other : has table (last ∷ []) ≡ false = rw (ne→== table last (λ e. ne (sym e))) refl in
    let same = word_at-keep p (last ∷ []) m m' table ptr shift keeps o other in
    let (at, path, way) = IsWhole-keep rest m m' p next ptr (table ∷ above) whole keeps in
    rw same (at, ap (λ ts. table ∷ ts) path, (o, out, small, there, way))

-- A write to an entry changes its table alone.
pub store-KeepsBut :
    (p : Pool) (table ptr shift word : ℕ) (m : Mem)
    → IsFrame table
    → KeepsBut p (table ∷ []) m (store 8 m (slot table ptr shift) word)
store-KeepsBut p table ptr shift word m f b q ob out lo hi =
    let ne : b ≢ table = ground arith in
    store_outside 8 m (slot table ptr shift) word q (omega arith)

-- The way is the same for addresses with the same indices.
pub IsWhole-same_page :
    (rest : List ℕ) (m : Mem) (p : Pool) (table ptr ptr' : ℕ) (above : List ℕ)
    → All (λ shift. entry_idx ptr' shift ≡ entry_idx ptr shift) rest
    → IsWhole rest m p table ptr above
    → (leaf rest m table ptr' ≡ leaf rest m table ptr) × IsWhole rest m p table ptr' above
IsWhole-same_page [] m p table ptr ptr' above same w = (refl, w)
IsWhole-same_page (shift ∷ rest) m p table ptr ptr' above (e, same) (o, out, small, there, whole) =
    let next : ℕ = entry_address (word_at m table ptr shift) in
    let (at, way) = IsWhole-same_page rest m p next ptr ptr' (table ∷ above) same whole in
    rw e (at, (o, out, small, there, way))
