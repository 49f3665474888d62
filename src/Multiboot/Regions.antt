-- ===== src/Multiboot/Regions.antt =====
-- The regions of a memory map, and which of them is the largest.
use metal_to_app.Base.{
  ℕ, ◌≤◌, ◌≡◌, ◌≢◌, refl, ◌∙◌, ◌⊎◌, inl, inr, ◌==◌, ltb, if◌then◌else◌, ◌&&◌, true, false, Option,
  none, some, List, [], ◌∷◌, eq-cases, lt-cases, lt→ltb, eq→==, ne→==, Bool-cases, arith,
}
use metal_to_app.Multiboot.{MmapInfo}

-- The longest region of type 1, the first of them where several are equally long.
unfoldable pub largest : List MmapInfo → Option MmapInfo
largest [] = none
largest (r ∷ rs) =
    if r.type == 1
    then elim (largest rs) [
      | none ↦ some r
      | some b ↦ if ltb r.length b.length then some b else some r
    ]
    else largest rs

-- One round of the search, on regions.
abbrev pub take_bigger : Option MmapInfo → MmapInfo → Option MmapInfo
take_bigger none r = if r.type == 1 then some r else none
take_bigger (some b) r = if r.type == 1 && ltb b.length r.length then some r else some b

abbrev pub search_from : Option MmapInfo → List MmapInfo → Option MmapInfo
search_from acc [] = acc
search_from acc (r ∷ rs) = search_from (take_bigger acc r) rs

-- The longer of two, the first where they are equally long.
abbrev pick : MmapInfo → Option MmapInfo → Option MmapInfo
pick b none = some b
pick b (some c) = if ltb b.length c.length then some c else some b

-- One round commutes with the choice among what is left.
pick_step :
    (b r : MmapInfo) (o : Option MmapInfo)
    → (if r.type == 1 && ltb b.length r.length then pick r o else pick b o)
      ≡ pick b (
          if r.type == 1
          then elim o [ none ↦ some r | some c ↦ if ltb r.length c.length then some c else some r ]
          else o)
pick_step b r none = ground arith
pick_step b r (some c) = ground arith

search_from-some :
    (b : MmapInfo) (rs : List MmapInfo) → search_from (some b) rs ≡ pick b (largest rs)
unfolding largest
search_from-some b [] = refl
search_from-some b (r ∷ rs) = elim (Bool-cases (r.type == 1 && ltb b.length r.length)) [
  | inl h ↦ rw h (search_from-some r rs ∙ taken h)
  | inr h ↦ rw h (search_from-some b rs ∙ kept h)
]
  where
    taken :
        (r.type == 1 && ltb b.length r.length) ≡ true
        → pick r (largest rs) ≡ pick b (largest (r ∷ rs))
    taken h = rw h at (pick_step b r (largest rs))

    kept :
        (r.type == 1 && ltb b.length r.length) ≡ false
        → pick b (largest rs) ≡ pick b (largest (r ∷ rs))
    kept h = rw h at (pick_step b r (largest rs))

-- The search finds the largest region.
pub search_from-none : (rs : List MmapInfo) → search_from none rs ≡ largest rs
unfolding largest
search_from-none [] = refl
search_from-none (r ∷ rs) = elim (Bool-cases (r.type == 1)) [
  | inl h ↦ rw h (search_from-some r rs)
  | inr h ↦ rw h (search_from-none rs)
]

-- What the largest region is: one of the list, of type 1, and no other of type 1 is longer.
abbrev pub IsRegion : MmapInfo → List MmapInfo → Type 0
IsRegion b [] = ⊥
IsRegion b (r ∷ rs) = (b ≡ r) ⊎ IsRegion b rs

abbrev pub Dominates : MmapInfo → List MmapInfo → Type 0
Dominates b [] = Unit
Dominates b (r ∷ rs) = ((r.type ≢ 1) ⊎ (r.length ≤ b.length)) × Dominates b rs

abbrev pub AllUnusable : List MmapInfo → Type 0
AllUnusable [] = Unit
AllUnusable (r ∷ rs) = (r.type ≢ 1) × AllUnusable rs

abbrev pub IsLargest : List MmapInfo → Option MmapInfo → Type 0
IsLargest rs none = AllUnusable rs
IsLargest rs (some b) = IsRegion b rs × (b.type ≡ 1) × Dominates b rs

not_longer : (a b : ℕ) → b ≤ a → ltb a b ≡ false
not_longer a b le = ground arith

unusable-Dominates : (b : MmapInfo) (rs : List MmapInfo) → AllUnusable rs → Dominates b rs
unusable-Dominates b [] h = tt
unusable-Dominates b (r ∷ rs) (u, h) = (inl u, unusable-Dominates b rs h)

Dominates-longer :
    (b c : MmapInfo) (rs : List MmapInfo) → b.length ≤ c.length → Dominates b rs → Dominates c rs
Dominates-longer b c [] le h = tt
Dominates-longer b c (r ∷ rs) le (d, h) =
    (elim d [ inl u ↦ inl u | inr l ↦ inr (omega arith) ], Dominates-longer b c rs le h)

IsLargest-cons :
    (r : MmapInfo) (rs : List MmapInfo) (o : Option MmapInfo)
    → r.type ≡ 1
    → IsLargest rs o
    → IsLargest (r ∷ rs) (pick r o)
IsLargest-cons r rs none usable h =
    (inl refl, usable, (inr (omega arith), unusable-Dominates r rs h))
IsLargest-cons r rs (some b) usable (at, type_b, dom) = elim (lt-cases r.length b.length) [
  | inl lt ↦ rw (lt→ltb r.length b.length lt) (inr at, type_b, (inr (omega arith), dom))
  | inr le ↦
      rw (not_longer r.length b.length le)
        (inl refl, usable, (inr (omega arith), Dominates-longer b r rs le dom))
]

skipped :
    (r : MmapInfo) (rs : List MmapInfo) (o : Option MmapInfo)
    → r.type ≢ 1
    → IsLargest rs o
    → IsLargest (r ∷ rs) o
skipped r rs none ne h = (ne, h)
skipped r rs (some b) ne (at, type_b, dom) = (inr at, type_b, (inl ne, dom))

pub largest-IsLargest : (rs : List MmapInfo) → IsLargest rs (largest rs)
unfolding largest
largest-IsLargest [] = tt
largest-IsLargest (r ∷ rs) = elim (eq-cases r.type 1) [
  | inl usable ↦
      rw (eq→== r.type 1 usable) (IsLargest-cons r rs (largest rs) usable (largest-IsLargest rs))
  | inr ne ↦ rw (ne→== r.type 1 ne) (skipped r rs (largest rs) ne (largest-IsLargest rs))
]
