-- ===== src/Paging/Placed.antt =====
-- The tables of the lower half of an address space form a tree: each has one place, which is its level
-- and the number of its addresses' entry at the level above.
use metal_to_app.Base.{
  ℕ, zero, suc, ◌+◌, ◌*◌, ◌/◌, ◌%◌, ◌^◌, ◌≤◌, ◌<◌, ◌≡◌, ◌≢◌, refl, sym, ap, ◌∙◌, ◌⊎◌, inl, inr,
  true, false, Bool-cases, List, [], ◌∷◌, Mem, load, load_agree, test_bit, eq-cases, arith,
}
use mathlib.Core.Path.{subst}
use metal_to_app.Frame.Pool.{Pool, IsFrame, available}
use metal_to_app.Paging.{entry_idx, entry_address}
use metal_to_app.Paging.Slots.{Owned, slot}
use metal_to_app.Paging.Tables.{word_at}
use metal_to_app.Paging.Levels.{shift_of, levels, spot, entry_idx-spot, spot-above}
use metal_to_app.Paging.Mmu.{page_of, cpu_walk, same_frame, walk_absent, walk_next}

-- The level and the place of each frame; frames that are no tables have a level above 3.
pub record Labels : Type 0 where
  pub level : ℕ → ℕ
  pub place : ℕ → ℕ

pub record Here (l : Labels) (p : Pool) (c table ptr : ℕ) : Type 0 where
  pub owned : Owned p table
  pub at_level : l.level table ≡ c
  pub at_place : l.place table ≡ spot (suc c) ptr

-- The tables from one of a level on to an address, as far as they are there, are in their places, and
-- no entry is big.
abbrev pub IsPlaced : ℕ → Labels → Mem → Pool → ℕ → ℕ → Type 0
IsPlaced zero l m p table ptr = Here l p 0 table ptr
IsPlaced (suc c) l m p table ptr =
    Here l p (suc c) table ptr
    × (test_bit (word_at m table ptr (shift_of (suc c))) 7 ≡ false)
    × ((test_bit (word_at m table ptr (shift_of (suc c))) 0 ≡ false)
        ⊎ IsPlaced c l m p (entry_address (word_at m table ptr (shift_of (suc c)))) ptr)

-- The lower half of the addresses, and an address space whose lower half is a tree.
abbrev pub IsLow : ℕ → Type 0
IsLow ptr = ptr < 2 ^ 47

abbrev pub IsSpace : Labels → Mem → Pool → ℕ → Type 0
IsSpace l m p root = (ptr : ℕ) → IsLow ptr → IsPlaced 3 l m p root ptr

pub placed-Here :
    (c : ℕ) (l : Labels) (m : Mem) (p : Pool) (table ptr : ℕ)
    → IsPlaced c l m p table ptr
    → Here l p c table ptr
placed-Here zero l m p table ptr h = h
placed-Here (suc c) l m p table ptr h = h.0

-- The way to an address from the table `x` at the level `c` is there down to the table `t` at the level `d`.
abbrev pub Reaches : ℕ → Mem → ℕ → ℕ → ℕ → ℕ → Type 0
Reaches zero m x ptr d t = (d ≡ 0) × (x ≡ t)
Reaches (suc c) m x ptr d t =
    ((d ≡ suc c) × (x ≡ t))
    ⊎ ((d ≤ c)
        × (test_bit (word_at m x ptr (shift_of (suc c))) 0 ≡ true)
        × Reaches c m (entry_address (word_at m x ptr (shift_of (suc c)))) ptr d t)

-- Addresses with the same entry at a level read the same word there.
pub word_at-spot :
    (c : ℕ) (m : Mem) (table ptr ptr' : ℕ)
    → spot c ptr' ≡ spot c ptr
    → word_at m table ptr' (shift_of c) ≡ word_at m table ptr (shift_of c)
word_at-spot c m table ptr ptr' e =
    ap (λ i. load 8 m (table + 8 * i))
      (entry_idx-spot c ptr' ∙ ap (λ x. x % 512) e ∙ sym (entry_idx-spot c ptr))

pub Reaches-spot :
    (c : ℕ) (m : Mem) (x ptr ptr' d t : ℕ)
    → spot (suc d) ptr' ≡ spot (suc d) ptr
    → Reaches c m x ptr d t
    → Reaches c m x ptr' d t
Reaches-spot zero m x ptr ptr' d t e h = h
Reaches-spot (suc c) m x ptr ptr' d t e (inl h) = inl h
Reaches-spot (suc c) m x ptr ptr' d t e (inr (le, there, rest)) =
    let same =
      word_at-spot (suc c) m x ptr ptr' (spot-above (suc d) (suc c) ptr ptr' (omega arith) e) in
    rw same (
      inr (
        le,
        there,
        Reaches-spot c m (entry_address (word_at m x ptr (shift_of (suc c)))) ptr ptr' d t e rest,
      ))

-- The level of what is reached.
pub Reaches-le : (c : ℕ) (m : Mem) (x ptr d t : ℕ) → Reaches c m x ptr d t → d ≤ c
Reaches-le zero m x ptr d t h = omega (arith, h.0)
Reaches-le (suc c) m x ptr d t (inl h) = omega (arith, h.0)
Reaches-le (suc c) m x ptr d t (inr h) = omega (arith, h.0)

pub placed-Reaches :
    (c : ℕ) (l : Labels) (m : Mem) (p : Pool) (x ptr d t : ℕ)
    → IsPlaced c l m p x ptr
    → Reaches c m x ptr d t
    → IsPlaced d l m p t ptr
placed-Reaches zero l m p x ptr d t h (e, at) =
    subst (λ y. IsPlaced y l m p t ptr) (sym e) (subst (λ y. Here l p 0 y ptr) at h)
placed-Reaches (suc c) l m p x ptr d t h (inl (e, at)) =
    subst (λ y. IsPlaced y l m p t ptr) (sym e) (subst (λ y. IsPlaced (suc c) l m p y ptr) at h)
placed-Reaches (suc c) l m p x ptr d t (here, small, way) (inr (le, there, rest)) = elim way [
  | inl absent ↦ absurd (cc (sym absent ∙ there))
  | inr h ↦
      placed-Reaches c l m p (entry_address (word_at m x ptr (shift_of (suc c)))) ptr d t h rest
]

pub Reaches-self : (c : ℕ) (m : Mem) (x ptr : ℕ) → Reaches c m x ptr c x
Reaches-self zero m x ptr = (refl, refl)
Reaches-self (suc c) m x ptr = inl (refl, refl)

-- One level further.
pub Reaches-next :
    (c : ℕ) (m : Mem) (x ptr d t : ℕ)
    → Reaches c m x ptr (suc d) t
    → test_bit (word_at m t ptr (shift_of (suc d))) 0 ≡ true
    → Reaches c m x ptr d (entry_address (word_at m t ptr (shift_of (suc d))))
Reaches-next zero m x ptr d t (e, at) there = absurd (omega (arith, e))
Reaches-next (suc c) m x ptr d t (inl (e, at)) there =
    let level : d ≡ c = omega (arith, e) in
    let next : ℕ = entry_address (word_at m t ptr (shift_of (suc d))) in
    subst (λ y. Reaches (suc c) m y ptr d next) (sym at)
      (subst (λ y. Reaches (suc y) m t ptr d next) level
        (inr (omega arith, there, Reaches-self d m next ptr)))
Reaches-next (suc c) m x ptr d t (inr (le, word, rest)) there = inr (
  omega arith,
  word,
  Reaches-next c m (entry_address (word_at m x ptr (shift_of (suc c)))) ptr d t rest there,
)

pub walk_last : (m : Mem) (x ptr : ℕ) → cpu_walk [] m x ptr ≡ page_of (word_at m x ptr 12) ptr
unfolding cpu_walk
walk_last m x ptr = refl

-- A step of the walk by the same word to walks with the same end.
pub walk-step :
    (shift : ℕ) (rest : List ℕ) (m m' : Mem) (x ptr : ℕ)
    → word_at m' x ptr shift ≡ word_at m x ptr shift
    → test_bit (word_at m x ptr shift) 7 ≡ false
    → IsFrame (entry_address (word_at m x ptr shift))
    → cpu_walk rest m' (entry_address (word_at m x ptr shift)) ptr
      ≡ cpu_walk rest m (entry_address (word_at m x ptr shift)) ptr
    → cpu_walk (shift ∷ rest) m' x ptr ≡ cpu_walk (shift ∷ rest) m x ptr
walk-step shift rest m m' x ptr same small frame walk =
    elim (Bool-cases (test_bit (word_at m x ptr shift) 0)) [
      | inr absent ↦
          walk_absent shift rest m' x ptr (rw same absent)
          ∙ sym (walk_absent shift rest m x ptr absent)
      | inl there ↦
          let next : ℕ = entry_address (word_at m x ptr shift) in
          let at = same_frame (word_at m x ptr shift) frame in
          walk_next shift rest m' x ptr next (rw same there) (rw same small) (rw same at)
          ∙ walk
          ∙ sym (walk_next shift rest m x ptr next there small at)
    ]

-- Where the words on the way are the same, the way and the translation stay.
module _ (l l' : Labels) (m m' : Mem) (p p' : Pool) (ptr : ℕ)
    (same : (d x : ℕ)
      → d ≤ 3
      → Here l p d x ptr
      → word_at m' x ptr (shift_of d) ≡ word_at m x ptr (shift_of d))
    (kept : (d x : ℕ) → Here l p d x ptr → Here l' p' d x ptr) where
  pub stays :
      (d x : ℕ)
      → d ≤ 3
      → IsPlaced d l m p x ptr
      → IsPlaced d l' m' p' x ptr × (cpu_walk (levels d) m' x ptr ≡ cpu_walk (levels d) m x ptr)
  stays zero x le e = (
    kept 0 x e,
    walk_last m' x ptr ∙ ap (λ w. page_of w ptr) (same 0 x le e) ∙ sym (walk_last m x ptr),
  )
  stays (suc d) x le (e, small, way) =
      let shift : ℕ = shift_of (suc d) in
      let word = same (suc d) x le e in
      elim way [
        | inl absent ↦ (
          rw word (kept (suc d) x e, small, inl absent),
          walk_absent shift (levels d) m' x ptr (rw word absent)
              ∙ sym (walk_absent shift (levels d) m x ptr absent),
        )
        | inr deeper ↦
            let (rest, walk) =
              stays d (entry_address (word_at m x ptr shift)) (omega arith) deeper in
            (
              rw word (kept (suc d) x e, small, inr rest),
              walk-step shift (levels d) m m' x ptr word small
                  (placed-Here d l m p (entry_address (word_at m x ptr shift)) ptr deeper).owned.0
                  walk,
            )
      ]

-- A change of the entry `i` of the table `t`, which has the level `c` and the place `n`: frames that the
-- allocator does not have keep the rest of their bytes, and their labels.
pub record Changed (c t n i : ℕ) (l l' : Labels) (m m' : Mem) (p p' : Pool) : Type 0 where
  pub owned : Owned p t
  pub at_level : l.level t ≡ c
  pub at_place : l.place t ≡ n
  pub shrinks : (b : ℕ) → available b p ≡ false → available b p' ≡ false
  pub labels : (b : ℕ) → available b p ≡ false → (l'.level b ≡ l.level b) × (l'.place b ≡ l.place b)
  pub keeps :
      (b q : ℕ)
      → Owned p b
      → b ≤ q
      → q < b + 0x1000
      → (b ≢ t) ⊎ ((q < t + 8 * i) ⊎ (t + 8 * i + 8 ≤ q))
      → m' q ≡ m q

module _ (c t n i : ℕ) (l l' : Labels) (m m' : Mem) (p p' : Pool)
    (h : Changed c t n i l l' m m' p p') where
  pub word-other :
      (table ptr shift : ℕ)
      → Owned p table
      → table ≢ t
      → word_at m' table ptr shift ≡ word_at m table ptr shift
  word-other table ptr shift o ne =
      load_agree 8 m' m (slot table ptr shift)
        (λ q lo hi. h.keeps table q o (omega arith) (omega arith) (inl ne))

  word-apart :
      (ptr shift : ℕ) → entry_idx ptr shift ≢ i → word_at m' t ptr shift ≡ word_at m t ptr shift
  word-apart ptr shift ne =
      load_agree 8 m' m (slot t ptr shift)
        (λ q lo hi. h.keeps t q h.owned (omega arith) (omega arith) (inr (omega arith)))

  pub Here-kept : (d x ptr : ℕ) → Here l p d x ptr → Here l' p' d x ptr
  Here-kept d x ptr e = record {
    owned = (e.owned.0, h.shrinks x e.owned.1);
    at_level = (h.labels x e.owned.1).0 ∙ e.at_level;
    at_place = (h.labels x e.owned.1).1 ∙ e.at_place;
  }

  -- The word on the way to an address whose entry is another.
  pub word-off :
      (d x ptr : ℕ)
      → Here l p d x ptr
      → spot c ptr ≢ n * 512 + i
      → word_at m' x ptr (shift_of d) ≡ word_at m x ptr (shift_of d)
  word-off d x ptr e ne = elim (eq-cases x t) [
    | inr other ↦ word-other x ptr (shift_of d) e.owned other
    | inl same ↦
        let level : d ≡ c = sym e.at_level ∙ ap l.level same ∙ h.at_level in
        let number : spot c ptr / 512 ≡ n =
          ap (λ y. spot y ptr / 512) (sym level) ∙ sym e.at_place ∙ ap l.place same ∙ h.at_place in
        let idx : entry_idx ptr (shift_of d) ≡ spot c ptr % 512 =
          entry_idx-spot d ptr ∙ ap (λ y. spot y ptr % 512) level in
        rw same (word-apart ptr (shift_of d) (λ x. ne (omega arith)))
  ]

  -- The translation of such an address stays.
  pub off :
      (root ptr : ℕ)
      → IsPlaced 3 l m p root ptr
      → spot c ptr ≢ n * 512 + i
      → IsPlaced 3 l' m' p' root ptr
        × (cpu_walk (levels 3) m' root ptr ≡ cpu_walk (levels 3) m root ptr)
  off root ptr e ne =
      stays l l' m m' p p' ptr (λ d x le here. word-off d x ptr here ne)
        (λ d x here. Here-kept d x ptr here) 3 root (omega arith) e
