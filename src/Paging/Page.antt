-- ===== src/Paging/Page.antt =====
-- A frame of the allocator, zeroed and then mapped, as the callers of `mmap` do.
use metal_to_app.Base.{
  ℕ, ◌+◌, ◌/◌, ◌%◌, ◌^◌, ◌≤◌, ◌<◌, ◌≡◌, ◌≢◌, refl, ap, ◌∙◌, inl, inr, Bool, true, false, some, List,
  [], ◌∷◌, Mem, has, ne_of_has, arith,
}
use metal_to_app.Memory.{linear_start}
use metal_to_app.Frame.{FrameState, frame_alloc_zero}
use metal_to_app.Frame.Pool
use metal_to_app.Frame.Pool.{Pool, IsFrame, available}
use metal_to_app.Frame.Invariant.{Represents}
use metal_to_app.Frame.Refine.{zeroed}
use metal_to_app.Frame.Taken.{Taken, alloc-Taken}
use metal_to_app.Paging.{entry_address, shifts, mmap}
use metal_to_app.Paging.Slots.{Owned, frame_alloc_zero-given}
use metal_to_app.Paging.Tables.{
  word_at, leaf, IsWay, IsWhole, KeepsBut, Shrinks, word_at-keep, tables-above,
}
use metal_to_app.Paging.Ensure.{Gives}
use metal_to_app.Paging.Mmu.{translate, page_of}
use metal_to_app.Paging.Entry.{translate-leaf, page_of-word}
use metal_to_app.Paging.Mapping.{Mapped, mmap-Mapped}

-- A way stays one when the pool shrinks and no owned frame changes, and it avoids what was available.
pub IsWay-avoids :
    (rest : List ℕ) (m m' : Mem) (p p' : Pool) (table ptr : ℕ) (above above' : List ℕ)
    → KeepsBut p [] m m'
    → Shrinks p p'
    → ((b : ℕ) → available b p ≡ false → has b above ≡ false → has b above' ≡ false)
    → IsWay rest m p table ptr above
    → IsWay rest m' p' table ptr above'
IsWay-avoids [] m m' p p' table ptr above above' keeps shrinks out w =
    ((w.0.0, shrinks table w.0.1), out table w.0.1 w.1)
IsWay-avoids (shift ∷ rest) m m' p p' table ptr above above' keeps shrinks out
      (o, here, small, way) =
    let same = word_at-keep p [] m m' table ptr shift keeps o refl in
    rw same (
      (o.0, shrinks table o.1),
      out table o.1 here,
      small,
      elim way [
        | inl absent ↦ inl absent
        | inr w ↦ inr (
            IsWay-avoids rest m m' p p' (entry_address (word_at m table ptr shift)) ptr
              (table ∷ above) (table ∷ above') keeps shrinks (λ b h h'. ground (arith, out b)) w)
      ],
    )

-- The frame that the pool gives next is none of the frames that it does not have.
pub avoids-given :
    (p p' : Pool) (a : ℕ) (above : List ℕ)
    → Taken a p p'
    → (b : ℕ) → available b p ≡ false
    → has b above ≡ false
    → has b (a ∷ above) ≡ false
avoids-given p p' a above t b h e = ground (arith, t.was)

pub zeroed-keeps :
    (p p' : Pool) (a : ℕ) (m m' : Mem)
    → Taken a p p'
    → ((q : ℕ) → m' q ≡ zeroed m a q)
    → KeepsBut p [] m m'
zeroed-keeps p p' a m m' t same b q o out lo hi =
    let ne : b ≢ a = λ e. ground (arith, t.was, o.1, ap (λ x. available x p) e) in
    same q ∙ outside_zeroed b o t.frame ne lo hi
  where
    outside_zeroed :
        (b : ℕ) → Owned p b → IsFrame a → b ≢ a → b ≤ q → q < b + 0x1000 → zeroed m a q ≡ m q
    outside_zeroed b o f ne lo hi = ground arith

-- What a new page comes to: the CPU reaches the zeroed frame through its addresses.
pub record NewPage (root ptr a : ℕ) (s' : FrameState) (p' : Pool) : Type 0 where
  pub represents : Represents s' p'
  pub owned : Owned p' a
  pub whole : IsWhole shifts s'.mem p' root ptr (a ∷ [])
  pub reached :
      (ptr' : ℕ)
      → ptr' / 0x1000 ≡ ptr / 0x1000
      → translate s'.mem root ptr' ≡ some (a + ptr' % 0x1000)
  pub zeros : (q : ℕ) → a ≤ q → q < a + 0x1000 → s'.mem q ≡ 0

pub mmap-NewPage :
    (root ptr a : ℕ) (usermode : Bool) (s : FrameState) (p p' : Pool)
    → Represents s p
    → Pool.alloc p ≡ some (a, p')
    → Gives 3 p'
    → IsWay shifts s.mem p root ptr []
    → (s₁ : FrameState) × (s' : FrameState) × (p₂ : Pool) × (frame_alloc_zero s ≡ some (a, s₁))
      × (mmap (linear_start + root) a ptr usermode s₁ ≡ some s')
      × NewPage root ptr a s' p₂
mmap-NewPage root ptr a usermode s p p' r e g way =
    let t = alloc-Taken p a r.pool e in
    let (s₁, given, r₁, same) = frame_alloc_zero-given s p a p' r e in
    let way₁ : IsWay shifts s₁.mem p' root ptr (a ∷ []) =
      IsWay-avoids shifts s.mem s₁.mem p p' root ptr [] (a ∷ [])
        (zeroed-keeps p p' a s.mem s₁.mem t same) t.kept (avoids-given p p' a [] t) way in
    let small : a < 2 ^ 52 = omega (arith, t.frame) in
    let (s', p₂, mapped, m) =
      mmap-Mapped root a ptr usermode (a ∷ []) s₁ p' r₁ g (t.gone, tt) way₁ t.frame.1 small in
    let apart = tables-above shifts s'.mem p₂ root ptr (a ∷ []) a m.whole (ground arith) in
    (
      s₁,
      s',
      p₂,
      given,
      mapped,
      record {
        represents = m.represents;
        owned = (t.frame, m.shrinks a t.gone);
        whole = m.whole;
        reached = λ ptr' page.
            translate-leaf s'.mem p₂ root ptr ptr' (a ∷ []) page m.whole
            ∙ ap (λ w. page_of w ptr') m.holds
            ∙ page_of-word a ptr' usermode t.frame.1 small;
        zeros =
            λ q lo hi. m.keeps a q (t.frame, t.gone) apart lo hi ∙ same q ∙ inside_zeroed q lo hi;
      },
    )
  where
    inside_zeroed : (q : ℕ) → a ≤ q → q < a + 0x1000 → zeroed s.mem a q ≡ 0
    inside_zeroed q lo hi = ground arith

-- A change in a frame above a whole way leaves the way.
pub IsWhole-apart :
    (rest : List ℕ) (m m' : Mem) (p : Pool) (table ptr : ℕ) (above : List ℕ) (a : ℕ)
    → KeepsBut p (a ∷ []) m m'
    → has a above ≡ true
    → IsWhole rest m p table ptr above
    → (word_at m' (leaf rest m' table ptr) ptr 12 ≡ word_at m (leaf rest m table ptr) ptr 12)
      × IsWhole rest m' p table ptr above
IsWhole-apart [] m m' p table ptr above a keeps h (o, out) = (
  word_at-keep p (a ∷ []) m m' table ptr 12 keeps o (not_table (ne_of_has a table above h out)),
  (o, out),
)
  where
    not_table : a ≢ table → has table (a ∷ []) ≡ false
    not_table ne = ground arith
IsWhole-apart (shift ∷ rest) m m' p table ptr above a keeps h (o, out, small, there, whole) =
    let same =
      word_at-keep p (a ∷ []) m m' table ptr shift keeps o
        (not_table (ne_of_has a table above h out)) in
    let (word, way) =
      IsWhole-apart rest m m' p (entry_address (word_at m table ptr shift)) ptr (table ∷ above) a
        keeps (ground arith) whole in
    rw same (word, (o, out, small, there, way))
  where
    not_table : a ≢ table → has table (a ∷ []) ≡ false
    not_table ne = ground arith

-- After `mmap` the CPU reaches the page also when the frames above the way change.
pub translate-changed :
    (root page ptr ptr' : ℕ) (usermode : Bool) (above : List ℕ) (s s' : FrameState) (p p' : Pool)
    (m' : Mem) (a : ℕ)
    → Mapped root page ptr usermode above s s' p p'
    → KeepsBut p' (a ∷ []) s'.mem m'
    → has a above ≡ true
    → page % 0x1000 ≡ 0
    → page < 2 ^ 52
    → ptr' / 0x1000 ≡ ptr / 0x1000
    → translate m' root ptr' ≡ some (page + ptr' % 0x1000)
translate-changed root page ptr ptr' usermode above s s' p p' m' a m keeps h aligned small page_eq =
    let (word, way) = IsWhole-apart shifts s'.mem m' p' root ptr above a keeps h m.whole in
    translate-leaf m' p' root ptr ptr' above page_eq way
    ∙ ap (λ w. page_of w ptr') (word ∙ m.holds)
    ∙ page_of-word page ptr' usermode aligned small
