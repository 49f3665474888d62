-- ===== src/Paging/Tables.antt =====
-- The tables on the way to an address.
use metal_to_app.Base.{
  ℕ, ◌+◌, ◌≤◌, ◌<◌, ◌≡◌, refl, sym, ◌⊎◌, inl, inr, true, false, List, [], ◌∷◌, Mem, load,
  load_agree, test_bit, has, ne_of_has, ne→==, arith,
}
use metal_to_app.Frame.Pool.{Pool, available}
use metal_to_app.Paging.{entry_address}
use metal_to_app.Paging.Slots.{Owned, slot}

abbrev pub word_at : Mem → ℕ → ℕ → ℕ → ℕ
word_at m table ptr shift = load 8 m (slot table ptr shift)

-- The tables on the way from a table to the one of the last level.
abbrev pub tables : List ℕ → Mem → ℕ → ℕ → List ℕ
tables [] m table ptr = table ∷ []
tables (shift ∷ shifts) m table ptr =
    table ∷ tables shifts m (entry_address (word_at m table ptr shift)) ptr

-- The table of the last level.
abbrev pub leaf : List ℕ → Mem → ℕ → ℕ → ℕ
leaf [] m table ptr = table
leaf (shift ∷ shifts) m table ptr = leaf shifts m (entry_address (word_at m table ptr shift)) ptr

-- The way as far as it is there: its tables are frames that the allocator does not have, no table
-- comes twice or is one of those above, and no entry is big.
abbrev pub IsWay : List ℕ → Mem → Pool → ℕ → ℕ → List ℕ → Type 0
IsWay [] m p table ptr above = Owned p table × (has table above ≡ false)
IsWay (shift ∷ shifts) m p table ptr above =
    Owned p table
    × (has table above ≡ false)
    × (test_bit (word_at m table ptr shift) 7 ≡ false)
    × ((test_bit (word_at m table ptr shift) 0 ≡ false)
        ⊎ IsWay shifts m p (entry_address (word_at m table ptr shift)) ptr (table ∷ above))

-- The way is there down to the last level.
abbrev pub IsWhole : List ℕ → Mem → Pool → ℕ → ℕ → List ℕ → Type 0
IsWhole [] m p table ptr above = Owned p table × (has table above ≡ false)
IsWhole (shift ∷ shifts) m p table ptr above =
    Owned p table
    × (has table above ≡ false)
    × (test_bit (word_at m table ptr shift) 7 ≡ false)
    × (test_bit (word_at m table ptr shift) 0 ≡ true)
    × IsWhole shifts m p (entry_address (word_at m table ptr shift)) ptr (table ∷ above)

pub root-Owned :
    (shifts : List ℕ) (m : Mem) (p : Pool) (table ptr : ℕ) (above : List ℕ)
    → IsWay shifts m p table ptr above
    → Owned p table × (has table above ≡ false)
root-Owned [] m p table ptr above w = w
root-Owned (shift ∷ shifts) m p table ptr above w = (w.0, w.1)

-- A pool that has no frame more.
abbrev pub Shrinks : Pool → Pool → Type 0
Shrinks p p' = (b : ℕ) → available b p ≡ false → available b p' ≡ false

-- The frames that are owned and not among some stay as they are.
abbrev pub KeepsBut : Pool → List ℕ → Mem → Mem → Type 0
KeepsBut p but m m' =
    (a q : ℕ) → Owned p a → has a but ≡ false → a ≤ q → q < a + 0x1000 → m' q ≡ m q

pub word_at-keep :
    (p : Pool) (but : List ℕ) (m m' : Mem) (table ptr shift : ℕ)
    → KeepsBut p but m m'
    → Owned p table
    → has table but ≡ false
    → word_at m' table ptr shift ≡ word_at m table ptr shift
word_at-keep p but m m' table ptr shift keeps o out =
    load_agree 8 m' m (slot table ptr shift)
      (λ q lo hi. keeps table q o out (omega arith) (omega arith))

-- What is below tables is a way as before when no other frame changes.
pub IsWay-keep :
    (shifts : List ℕ) (m m' : Mem) (p p' : Pool) (table ptr : ℕ) (above : List ℕ)
    → KeepsBut p above m m'
    → Shrinks p p'
    → IsWay shifts m p table ptr above
    → IsWay shifts m' p' table ptr above
IsWay-keep [] m m' p p' table ptr above keeps shrinks (o, out) = ((o.0, shrinks table o.1), out)
IsWay-keep (shift ∷ shifts) m m' p p' table ptr above keeps shrinks (o, out, small, rest) =
    let same = word_at-keep p above m m' table ptr shift keeps o out in
    rw same (
      (o.0, shrinks table o.1),
      out,
      small,
      elim rest [
        | inl absent ↦ inl absent
        | inr way ↦ inr (
            IsWay-keep shifts m m' p p' (entry_address (word_at m table ptr shift)) ptr
              (table ∷ above) (λ a q oa h lo hi. keeps a q oa (ground arith) lo hi) shrinks way)
      ],
    )

-- No table of a whole way is one of those above.
pub tables-above :
    (shifts : List ℕ) (m : Mem) (p : Pool) (table ptr : ℕ) (above : List ℕ) (a : ℕ)
    → IsWhole shifts m p table ptr above
    → has a above ≡ true
    → has a (tables shifts m table ptr) ≡ false
tables-above [] m p table ptr above a (o, out) h =
    rw (ne→== a table (ne_of_has a table above h out)) refl
tables-above (shift ∷ shifts) m p table ptr above a (o, out, small, there, rest) h =
    let deeper =
      tables-above shifts m p (entry_address (word_at m table ptr shift)) ptr (table ∷ above) a rest
        (ground arith) in
    rw (ne→== a table (ne_of_has a table above h out)) deeper

-- The last table is one of those of the way.
pub leaf-tables :
    (shifts : List ℕ) (m : Mem) (table ptr : ℕ)
    → has (leaf shifts m table ptr) (tables shifts m table ptr) ≡ true
leaf-tables [] m table ptr = ground arith
leaf-tables (shift ∷ shifts) m table ptr =
    ground (arith, leaf-tables shifts m (entry_address (word_at m table ptr shift)) ptr)

-- A frame that is not on a way is not its last table.
pub has-only :
    (a last : ℕ) (xs : List ℕ) → has last xs ≡ true → has a xs ≡ false → has a (last ∷ []) ≡ false
has-only a last xs on out =
    let ne = ne_of_has last a xs on out in rw (ne→== a last (λ e. ne (sym e))) refl
