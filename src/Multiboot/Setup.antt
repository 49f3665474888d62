-- ===== src/Multiboot/Setup.antt =====
-- `setup_frame_allocator` against the regions of the memory map.
use metal_to_app.Base.{
  ℕ, zero, suc, ◌+◌, ◌*◌, ◌/◌, ◌%◌, ◌^◌, ◌≤◌, ◌<◌, ◌≡◌, refl, inl, inr, ◌==◌, ltb, if◌then◌else◌,
  ◌&&◌, true, false, Option, none, some, List, [], ◌∷◌, Mem, eq→==, ne→==, Bool-cases, arith,
}
use mathlib.Core.Path.{subst}
use metal_to_app.Memory.{kernel_base}
use metal_to_app.Frame.{FrameState, init_frame_allocator}
use metal_to_app.Frame.Pool.{Pool}
use metal_to_app.Frame.Invariant.{Represents, init-Represents}
use metal_to_app.Multiboot.{
  MultibootInfo, MmapInfo, read_mmap, is_bigger, null, scan_map, area_start, area_end,
  setup_frame_allocator,
}
use metal_to_app.Multiboot.Regions.{
  largest, take_bigger, search_from, search_from-none, IsLargest, largest-IsLargest,
}

-- The map between two pointers holds the regions of a list, one behind the other.
abbrev pub IsMap : Mem → ℕ → ℕ → List MmapInfo → Type 0
IsMap m start end [] = end ≤ start
IsMap m start end (r ∷ rs) =
    (0 < start)
    × (start < end)
    × (read_mmap m start ≡ r)
    × (start + (r.size + 4) < 2 ^ 64)
    × IsMap m (start + (r.size + 4)) end rs

abbrev pub count : List MmapInfo → ℕ
count [] = 0
count (r ∷ rs) = suc (count rs)

-- A pointer and the region that it stands for; NULL stands for none.
abbrev PointsTo : Mem → ℕ → Option MmapInfo → Type 0
PointsTo m ptr none = ptr ≡ null
PointsTo m ptr (some r) = (0 < ptr) × (read_mmap m ptr ≡ r)

PointsTo-step :
    (m : Mem) (start biggest : ℕ) (acc : Option MmapInfo) (r : MmapInfo)
    → 0 < start
    → read_mmap m start ≡ r
    → PointsTo m biggest acc
    → PointsTo m (if is_bigger m r biggest then start else biggest) (take_bigger acc r)
PointsTo-step m start biggest none r pos e h = elim (Bool-cases (r.type == 1)) [
  | inl usable ↦ rw (eq→== biggest null h, usable) (pos, e)
  | inr other ↦ rw (eq→== biggest null h, other) h
]
PointsTo-step m start biggest (some b) r pos e (lo, at) =
    elim (Bool-cases (r.type == 1 && ltb b.length r.length)) [
      | inl h ↦ rw (ne→== biggest null (omega arith), at, h) (pos, e)
      | inr h ↦ rw (ne→== biggest null (omega arith), at, h) (lo, at)
    ]

-- With more rounds than regions the loop ends, with the region that the search gives.
scan_map-PointsTo :
    (fuel : ℕ) (m : Mem) (start end biggest : ℕ) (acc : Option MmapInfo) (rs : List MmapInfo)
    → count rs < fuel
    → IsMap m start end rs
    → PointsTo m biggest acc
    → (ptr : ℕ) × (scan_map fuel m start end biggest ≡ some ptr)
      × PointsTo m ptr (search_from acc rs)
unfolding scan_map
scan_map-PointsTo zero m start end biggest acc rs lt h pt = absurd (omega arith)
scan_map-PointsTo (suc fuel) m start end biggest acc [] lt h pt =
    let over : ltb start end ≡ false = ground arith in (biggest, rw over refl, pt)
scan_map-PointsTo (suc fuel) m start end biggest acc (r ∷ rs) lt (pos, before, e, no_wrap, rest)
      pt =
    let within : ltb start end ≡ true = ground arith in
    let next : (start + (r.size + 4)) % 2 ^ 64 ≡ start + (r.size + 4) = omega arith in
    let (ptr, found, at) =
      scan_map-PointsTo fuel m (start + (r.size + 4)) end
        (if is_bigger m r biggest then start else biggest) (take_bigger acc r) rs (omega arith) rest
        (PointsTo-step m start biggest acc r pos e pt) in
    (ptr, rw (within, e, next) found, at)

setup_found :
    (fuel freememory_start : ℕ) (info : MultibootInfo) (m : Mem) (start end ptr : ℕ)
    → (info.mmap_addr + kernel_base) % 2 ^ 64 ≡ start
    → (start + info.mmap_length) % 2 ^ 64 ≡ end
    → scan_map fuel m start end null ≡ some ptr
    → 0 < ptr
    → setup_frame_allocator fuel freememory_start info m
      ≡ some (
          init_frame_allocator
            (area_start freememory_start (read_mmap m ptr))
            (area_end (read_mmap m ptr))
            m)
unfolding setup_frame_allocator
setup_found fuel freememory_start info m start end ptr e e' found pos =
    rw (e, e', found, ne→== ptr null (omega arith), setup_frame_allocator) refl

setup_fault :
    (fuel freememory_start : ℕ) (info : MultibootInfo) (m : Mem) (start end : ℕ)
    → (info.mmap_addr + kernel_base) % 2 ^ 64 ≡ start
    → (start + info.mmap_length) % 2 ^ 64 ≡ end
    → scan_map fuel m start end null ≡ some null
    → setup_frame_allocator fuel freememory_start info m ≡ none
unfolding setup_frame_allocator
setup_fault fuel freememory_start info m start end e e' found =
    rw (e, e', found, setup_frame_allocator) refl

-- The area of a region above the kernel, in whole frames below 512 GiB.
abbrev pub Fits : ℕ → Option MmapInfo → Type 0
Fits freememory_start none = Unit
Fits freememory_start (some r) =
    (0 < freememory_start)
    × ((area_start freememory_start r + 0xfff) / 0x1000 ≤ (r.base_addr + r.length) / 0x1000)
    × (r.base_addr + r.length ≤ 2 ^ 39)

abbrev pub area_pool : ℕ → MmapInfo → Pool
area_pool freememory_start r = record {
  free = [];
  low = (area_start freememory_start r + 0xfff) / 0x1000 * 0x1000;
  high = (r.base_addr + r.length) / 0x1000 * 0x1000;
}

-- The allocator has the whole frames of the region above the kernel; without a region the set-up faults.
abbrev pub SetUp : ℕ → Option MmapInfo → Option FrameState → Type 0
SetUp freememory_start none none = Unit
SetUp freememory_start none (some s) = ⊥
SetUp freememory_start (some r) none = ⊥
SetUp freememory_start (some r) (some s) = Represents s (area_pool freememory_start r)

SetUp-region :
    (freememory_start : ℕ) (r : MmapInfo) (m : Mem)
    → Fits freememory_start (some r)
    → SetUp freememory_start
        (some r)
        (some (init_frame_allocator (area_start freememory_start r) (area_end r) m))
SetUp-region freememory_start r m (pos, order, top) =
    let whole : area_end r ≡ r.base_addr + r.length = omega arith in
    rw whole (
      init-Represents (area_start freememory_start r) (r.base_addr + r.length) m (ground arith)
        order top)

module _ (fuel freememory_start : ℕ) (info : MultibootInfo) (m : Mem) (rs : List MmapInfo) where
  SetUp-found :
      (o : Option MmapInfo) (ptr : ℕ)
      → info.mmap_addr + info.mmap_length + 24 ≤ 2 ^ 25
      → scan_map fuel m
          (kernel_base + info.mmap_addr)
          (kernel_base + info.mmap_addr + info.mmap_length)
          null
        ≡ some ptr
      → PointsTo m ptr o
      → Fits freememory_start o
      → SetUp freememory_start o (setup_frame_allocator fuel freememory_start info m)
  SetUp-found none ptr low found at fits =
      rw
        (setup_fault fuel freememory_start info m (kernel_base + info.mmap_addr)
          (kernel_base + info.mmap_addr + info.mmap_length) (omega arith) (omega arith)
          (subst
            (λ x.
              scan_map fuel m (kernel_base + info.mmap_addr)
                (kernel_base + info.mmap_addr + info.mmap_length) null
              ≡ some x)
            at found))
        tt
  SetUp-found (some r) ptr low found (pos, at) fits =
      rw
        (
          setup_found fuel freememory_start info m (kernel_base + info.mmap_addr)
              (kernel_base + info.mmap_addr + info.mmap_length) ptr (omega arith) (omega arith)
              found pos,
          at,
        )
        (SetUp-region freememory_start r m fits)

  -- Where the memory map lies within the 32 MiB of the kernel window that are mapped and holds a
  -- list of regions, fuel exceeds their number, and the area of the largest usable region, from
  -- FREEMEMORY_START on, holds a whole page and lies within 512 GiB, setup_frame_allocator
  -- represents the pool of the whole frames of that area; without a usable region it has no
  -- result. That region is one of the map, usable, and no usable one is longer.
  pub setup_frame_allocator-SetUp :
      count rs < fuel
      → info.mmap_addr + info.mmap_length + 24 ≤ 2 ^ 25
      → IsMap m (kernel_base + info.mmap_addr) (kernel_base + info.mmap_addr + info.mmap_length) rs
      → Fits freememory_start (largest rs)
      → SetUp freememory_start (largest rs) (setup_frame_allocator fuel freememory_start info m)
        × IsLargest rs (largest rs)
  setup_frame_allocator-SetUp enough low h fits =
      let (ptr, found, at) =
        scan_map-PointsTo fuel m (kernel_base + info.mmap_addr)
          (kernel_base + info.mmap_addr + info.mmap_length) null none rs enough h refl in
      let o : PointsTo m ptr (largest rs) = subst (PointsTo m ptr) (search_from-none rs) at in
      (SetUp-found (largest rs) ptr low found o fits, largest-IsLargest rs)
