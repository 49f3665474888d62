-- ===== src/Frame/Owners.antt =====
-- The allocator and its clients: who owns a frame between its allocation and its release.
use mathlib.Core.Path.{subst}
use metal_to_app.Base.{
  ℕ, ◌+◌, ◌*◌, ◌/◌, ◌^◌, ◌≤◌, ◌<◌, ◌≡◌, ◌≢◌, sym, ◌∙◌, inl, inr, true, false, List, [], ◌∷◌, ◌++◌,
  Mem, arith, has, ne_of_has, All, All-has, All-map, All-remove, Distinct, Distinct-remove, Option,
  none, some, ne→==, Bool-cases,
}
use metal_to_app.Frame.{
  FrameState, init_frame_allocator, frame_alloc, frame_alloc_zero, frame_dealloc,
}
use metal_to_app.Frame.Pool
use metal_to_app.Frame.Pool.{Pool, IsPool, IsFrame, available}
use metal_to_app.Frame.Invariant.{
  Represents, Chain-frame, free_frames, init-Represents, frame_dealloc_refines,
}
use metal_to_app.Frame.Taken.{Taken, alloc-Taken}
use metal_to_app.Frame.Refine.{Agree, zeroed, frame_alloc_refines, frame_alloc_zero_refines}

-- What clients do with the allocator, with the frames that they own: the allocator is set up; a
-- frame is allocated; an owned frame is released; owned frames are written to, in any way.
pub data Run : FrameState → List ℕ → Type 0 where
  boot :
      (fm_start fm_end : ℕ) (m : Mem)
      → 0 < fm_start
      → (fm_start + 0xfff) / 0x1000 ≤ fm_end / 0x1000
      → fm_end ≤ 2 ^ 39
      → Run (init_frame_allocator fm_start fm_end m) []
  take :
      {s s' : FrameState} {a : ℕ} {held : List ℕ}
      → Run s held
      → frame_alloc s ≡ some (a, s')
      → Run s' (a ∷ held)
  take_zero :
      {s s' : FrameState} {a : ℕ} {held : List ℕ}
      → Run s held
      → frame_alloc_zero s ≡ some (a, s')
      → Run s' (a ∷ held)
  give :
      {s : FrameState} {held : List ℕ} (a : ℕ) (before behind : List ℕ)
      → Run s held
      → held ≡ before ++ (a ∷ behind)
      → Run (frame_dealloc a s) (before ++ behind)
  write :
      {s : FrameState} {held : List ℕ} (m : Mem)
      → Run s held
      → ((q : ℕ) → has (q / 0x1000 * 0x1000) held ≡ false → m q ≡ s.mem q)
      → Run (record s { mem = m }) held

-- What the allocator and the owners agree on.
record Sound (s : FrameState) (held : List ℕ) (p : Pool) : Type 0 where
  represents : Represents s p
  distinct : Distinct held
  owned : All (λ a. IsFrame a × (available a p ≡ false)) held

-- The pool after an allocation that gave `a`.
Agree-some :
    (after : ℕ → Mem) (o : Option (ℕ × Pool)) {a : ℕ} {s : FrameState}
    → Agree after (some (a, s)) o
    → (p : Pool) × (o ≡ some (a, p)) × Represents s p
Agree-some after none h = absurd h
Agree-some after (some (b, p)) (e, r, same) = (p, rw e, r)

-- A frame that is available is not owned.
not_owned :
    {s : FrameState} {held : List ℕ} {p : Pool}
    → Sound s held p
    → (a : ℕ) → available a p ≡ true
    → has a held ≡ false
not_owned {held} {p} v a free = elim (Bool-cases (has a held)) [
  | inr out ↦ out
  | inl h ↦
      let owned = All-has (λ b. IsFrame b × (available b p ≡ false)) a held v.owned h in
      cc (sym free ∙ owned.1)
]

Sound-take :
    {s s' : FrameState} {a : ℕ} (held : List ℕ) (p p' : Pool)
    → Sound s held p
    → Represents s' p'
    → Taken a p p'
    → Sound s' (a ∷ held) p'
Sound-take {a} held p p' v r t = record {
  represents = r;
  distinct = (not_owned v a t.was, v.distinct);
  owned = (
    (t.frame, t.gone),
    All-map (λ b. IsFrame b × (available b p ≡ false)) (λ b. IsFrame b × (available b p' ≡ false))
        held (λ b h (fb, out). (fb, t.kept b out)) v.owned,
  );
}

Sound-alloc :
    {s s' : FrameState} {a : ℕ} (held : List ℕ) (p : Pool) (after : ℕ → Mem)
    {r : Option (ℕ × FrameState)}
    → Sound s held p
    → Agree after r (Pool.alloc p)
    → r ≡ some (a, s')
    → (p' : Pool) × Sound s' (a ∷ held) p'
Sound-alloc {a} held p after v agree e =
    let (p', e', r) =
      Agree-some after (Pool.alloc p) (subst (λ o. Agree after o (Pool.alloc p)) e agree) in
    (p', Sound-take held p p' v r (alloc-Taken p a v.represents.pool e'))

Sound-give :
    {s : FrameState} (held : List ℕ) (p : Pool) (a : ℕ) (before behind : List ℕ)
    → Sound s held p
    → held ≡ before ++ (a ∷ behind)
    → Sound (frame_dealloc a s) (before ++ behind) (Pool.dealloc a p)
unfolding Pool.dealloc
Sound-give {s} held p a before behind v e =
    let (rest, mine) = All-remove Owned a before behind (subst (All Owned) e v.owned) in
    let (distinct, out) = Distinct-remove a before behind (subst Distinct e v.distinct) in
    record {
      represents = frame_dealloc_refines s p a v.represents mine.0 mine.1;
      distinct = distinct;
      owned =
          All-map Owned (λ b. IsFrame b × (available b (record p { free = a ∷ p.free }) ≡ false))
            (before ++ behind)
            (λ b h (fb, o).
              let ne : b ≢ a = ne_of_has b a (before ++ behind) h out in (fb, rw (ne→== b a ne) o))
            rest;
    }
  where
    Owned : ℕ → Type 0
    Owned b = IsFrame b × (available b p ≡ false)

Sound-write :
    {s : FrameState} (held : List ℕ) (p : Pool) (m : Mem)
    → Sound s held p
    → ((q : ℕ) → has (q / 0x1000 * 0x1000) held ≡ false → m q ≡ s.mem q)
    → Sound (record s { mem = m }) held p
Sound-write {s} held p m v same = record {
  represents = record {
    pool = r.pool;
    starts = r.starts;
    ends = r.ends;
    chain =
        Chain-frame s.mem m s.freelist p.free
          (λ a q h lo hi.
            let fa = (free_frames p r.pool a h).0 in
            let page : a ≡ q / 0x1000 * 0x1000 = omega arith in
            same q (subst (λ b. has b held ≡ false) page (not_owned v a (rw h))))
          r.chain;
  };
  distinct = v.distinct;
  owned = v.owned;
}
  where
    r : Represents s p
    r = v.represents

Run-Sound : {s : FrameState} {held : List ℕ} → Run s held → (p : Pool) × Sound s held p
Run-Sound (boot fm_start fm_end m pos order top) = (
  _,
  record {
    represents = init-Represents fm_start fm_end m pos order top;
    distinct = tt;
    owned = tt;
  },
)
Run-Sound (take {s} {held} run e) =
    let (p, v) = Run-Sound run in
    Sound-alloc held p (λ a. s.mem) v (frame_alloc_refines s p v.represents) e
Run-Sound (take_zero {s} {held} run e) =
    let (p, v) = Run-Sound run in
    Sound-alloc held p (zeroed s.mem) v (frame_alloc_zero_refines s p v.represents) e
Run-Sound (give {held} a before behind run e) =
    let (p, v) = Run-Sound run in (Pool.dealloc a p, Sound-give held p a before behind v e)
Run-Sound (write {held} m run same) = let (p, v) = Run-Sound run in (p, Sound-write held p m v same)

-- In every state that clients reach by setting the allocator up over a range within the linear
-- window, allocating frames (zeroed or not), releasing frames that they own and writing into
-- frames that they own in any way, the owned frames are pairwise distinct, page aligned, not
-- frame 0, and within the linear window.
pub owners-Distinct :
    {s : FrameState} {held : List ℕ} → Run s held → Distinct held × All IsFrame held
owners-Distinct {held} run =
    let (p, v) = Run-Sound run in
    (
      v.distinct,
      All-map (λ b. IsFrame b × (available b p ≡ false)) IsFrame held (λ b h o. o.0) v.owned,
    )
