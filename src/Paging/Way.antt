-- ===== src/Paging/Way.antt =====
-- `resolve_pageentry` makes the way to an address whole, and finds the entry at its end.
use metal_to_app.Base.{
  ℕ, suc, ◌+◌, ◌≡◌, refl, sym, ap, ◌∙◌, false, some, List, [], ◌∷◌, Mem, has, All, All-map, arith,
}
use metal_to_app.Memory.{linear_start}
use metal_to_app.Frame.{FrameState}
use metal_to_app.Frame.Pool.{Pool, available}
use metal_to_app.Frame.Invariant.{Represents}
use metal_to_app.Paging.{entry_idx, entry_ptr, entry_address, resolve_from}
use metal_to_app.Paging.Slots.{Owned}
use metal_to_app.Paging.Tables.{
  word_at, tables, leaf, IsWay, IsWhole, root-Owned, Shrinks, KeepsBut, word_at-keep, tables-above,
}
use metal_to_app.Paging.Ensure.{Gives, Ensured, resolve_step, ensure-Ensured}

-- The number of levels.
abbrev pub count : List ℕ → ℕ
count [] = 0
count (shift ∷ shifts) = suc (count shifts)

-- What `resolve_pageentry` leaves.
pub record Resolved (shifts : List ℕ) (table ptr : ℕ) (above : List ℕ) (s s' : FrameState)
    (p p' : Pool) : Type 0 where
  pub represents : Represents s' p'
  pub shrinks : Shrinks p p'
  pub whole : IsWhole shifts s'.mem p' table ptr above
  pub keeps : KeepsBut p (tables shifts s'.mem table ptr) s.mem s'.mem

-- The pointer to the entry of the last level.
abbrev pub leaf_entry : List ℕ → Mem → ℕ → ℕ → ℕ
leaf_entry shifts m table ptr =
    entry_ptr (linear_start + leaf shifts m table ptr) (entry_idx ptr 12)

pub whole-Owned :
    (shifts : List ℕ) (m : Mem) (p : Pool) (table ptr : ℕ) (above : List ℕ)
    → IsWhole shifts m p table ptr above
    → Owned p table
whole-Owned [] m p table ptr above w = w.0
whole-Owned (shift ∷ shifts) m p table ptr above w = w.0

has-tail :
    (a x : ℕ) (xs : List ℕ) → has a (x ∷ xs) ≡ false → (has a (x ∷ []) ≡ false) × (has a xs ≡ false)
has-tail a x xs h = (ground arith, ground arith)

Resolved-deeper :
    (n shift : ℕ) (shifts : List ℕ) (table ptr : ℕ) (above : List ℕ) (s s₁ s' : FrameState)
    (p p₁ p' : Pool)
    → Owned p table
    → has table above ≡ false
    → Ensured n shifts table ptr shift above s s₁ p p₁
    → Resolved shifts
        (entry_address (word_at s₁.mem table ptr shift))
        ptr
        (table ∷ above)
        s₁
        s'
        p₁
        p'
    → Resolved (shift ∷ shifts) table ptr above s s' p p'
      × (word_at s'.mem table ptr shift ≡ word_at s₁.mem table ptr shift)
Resolved-deeper n shift shifts table ptr above s s₁ s' p p₁ p' o out e r =
    let next : ℕ = entry_address (word_at s₁.mem table ptr shift) in
    let apart : has table (tables shifts s'.mem next ptr) ≡ false =
      tables-above shifts s'.mem p' next ptr (table ∷ above) table r.whole (ground arith) in
    let same : word_at s'.mem table ptr shift ≡ word_at s₁.mem table ptr shift =
      word_at-keep p₁ (tables shifts s'.mem next ptr) s₁.mem s'.mem table ptr shift r.keeps
        (o.0, e.shrinks table o.1) apart in
    (
      record {
        represents = r.represents;
        shrinks = λ b h. r.shrinks b (e.shrinks b h);
        whole =
            rw same ((o.0, r.shrinks table (e.shrinks table o.1)), out, e.small, e.there, r.whole);
        keeps = rw same (λ a q oa no lo hi.
            let (at, below) = has-tail a table (tables shifts s'.mem next ptr) no in
            r.keeps a q (oa.0, e.shrinks a oa.1) below lo hi ∙ e.keeps a q oa at lo hi);
      },
      same,
    )

pub resolve_last :
    (table ptr : ℕ) (s : FrameState)
    → resolve_from [] (linear_start + table) ptr s ≡ some (leaf_entry [] s.mem table ptr, s)
unfolding resolve_from
resolve_last table ptr s = refl

-- Given a frame for each level, the search returns, with the way whole.
pub resolve-Resolved :
    (shifts : List ℕ) (table ptr : ℕ) (above : List ℕ) (s : FrameState) (p : Pool)
    → Represents s p
    → Gives (count shifts) p
    → All (λ b. available b p ≡ false) above
    → IsWay shifts s.mem p table ptr above
    → (s' : FrameState) × (p' : Pool) × (resolve_from shifts (linear_start + table) ptr s
        ≡ some (leaf_entry shifts s'.mem table ptr, s'))
      × Resolved shifts table ptr above s s' p p'
resolve-Resolved [] table ptr above s p r g clear w = (
  s,
  p,
  resolve_last table ptr s,
  record { represents = r; shrinks = λ b h. h; whole = w; keeps = λ a q o out lo hi. refl },
)
resolve-Resolved (shift ∷ shifts) table ptr above s p r g clear (o, out, small, way) =
    let n : ℕ = count shifts in
    let (s₁, p₁, given, e) =
      ensure-Ensured n shifts table ptr shift above s p r g clear o small way in
    let next : ℕ = entry_address (word_at s₁.mem table ptr shift) in
    let below = root-Owned shifts s₁.mem p₁ next ptr (table ∷ above) e.way in
    let (s', p', found, rest) =
      resolve-Resolved shifts next ptr (table ∷ above) s₁ p₁ e.represents e.gives
        (e.shrinks table o.1, All-map _ _ above (λ b h. e.shrinks b) clear) e.way in
    let (whole, same) =
      Resolved-deeper n shift shifts table ptr above s s₁ s' p p₁ p' o out e rest in
    (
      s',
      p',
      resolve_step shift shifts table ptr s s₁ o.0 small given below.0.0
          ∙ found
          ∙ ap (λ w. some (leaf_entry shifts s'.mem (entry_address w) ptr, s')) (sym same),
      whole,
    )
