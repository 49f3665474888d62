-- ===== src/Paging/Step.antt =====
-- A level of `resolve_pageentry` in an address space whose lower half is a tree: the tree may grow by
-- a table, and no address is translated in another way.
use metal_to_app.Base.{
  ℕ, suc, ◌+◌, ◌*◌, ◌/◌, ◌≤◌, ◌<◌, ◌≡◌, ◌≢◌, refl, sym, ap, ◌∙◌, ◌⊎◌, inl, inr, true, false, some,
  ◌==◌, if◌then◌else◌, Mem, store, load-store_self, store_outside, test_bit, eq-cases, eq→==, ne→==,
  Bool-cases, arith,
}
use mathlib.Core.Path.{subst}
use metal_to_app.Memory.{linear_start}
use metal_to_app.Frame.{FrameState}
use metal_to_app.Frame.Pool.{Pool, IsFrame, available}
use metal_to_app.Frame.Invariant.{Represents}
use metal_to_app.Frame.Refine.{zeroed}
use metal_to_app.Frame.Taken.{Taken, alloc-Taken}
use metal_to_app.Paging.{entry_word, entry_idx, entry_ptr, entry_address, read_entry, ensure_table}
use metal_to_app.Paging.Slots.{
  Owned, entry_idx-lt, read_entry-eq, write_entry-eq, Represents-store, frame_alloc_zero-given,
  entry_word-lem,
}
use metal_to_app.Paging.Tables.{word_at}
use metal_to_app.Paging.Ensure.{Gives, Gives-less, ensure_present, ensure_absent}
use metal_to_app.Paging.Levels.{shift_of, spot, entry_idx-spot}
use metal_to_app.Paging.Placed.{
  Labels, IsPlaced, IsLow, IsSpace, placed-Reaches, Reaches, Reaches-le, Reaches-spot, Reaches-next,
  off,
}
use metal_to_app.Paging.Grow.{Entered, below}
use metal_to_app.Paging.Mmu.{translate}

pub set_label : ℕ → ℕ → ℕ → Labels → Labels
set_label a c n l = record {
  level = λ b. if b == a then c else l.level b;
  place = λ b. if b == a then n else l.place b;
}

-- What stays: the allocator has no frame more, the frames that it does not have keep their labels, and
-- those of them that are no tables keep their bytes.
pub record Kept (l l' : Labels) (m m' : Mem) (p p' : Pool) : Type 0 where
  pub shrinks : (b : ℕ) → available b p ≡ false → available b p' ≡ false
  pub labels : (b : ℕ) → available b p ≡ false → (l'.level b ≡ l.level b) × (l'.place b ≡ l.place b)
  pub bytes : (b q : ℕ) → Owned p b → 4 ≤ l.level b → b ≤ q → q < b + 0x1000 → m' q ≡ m q

pub Kept-refl : (l : Labels) (m : Mem) (p : Pool) → Kept l l m m p p
Kept-refl l m p = record {
  shrinks = λ b h. h;
  labels = λ b h. (refl, refl);
  bytes = λ b q o le lo hi. refl;
}

pub Kept-trans :
    (l₁ l₂ l₃ : Labels) (m₁ m₂ m₃ : Mem) (p₁ p₂ p₃ : Pool)
    → Kept l₁ l₂ m₁ m₂ p₁ p₂
    → Kept l₂ l₃ m₂ m₃ p₂ p₃
    → Kept l₁ l₃ m₁ m₃ p₁ p₃
Kept-trans l₁ l₂ l₃ m₁ m₂ m₃ p₁ p₂ p₃ h k = record {
  shrinks = λ b e. k.shrinks b (h.shrinks b e);
  labels = λ b e. (
    (k.labels b (h.shrinks b e)).0 ∙ (h.labels b e).0,
    (k.labels b (h.shrinks b e)).1 ∙ (h.labels b e).1,
  );
  bytes = λ b q o le lo hi.
      k.bytes b q (o.0, h.shrinks b o.1) (omega (arith, (h.labels b o.1).0)) lo hi
      ∙ h.bytes b q o le lo hi;
}

-- No address of the lower half is translated in another way.
abbrev pub SameWalks : Mem → Mem → ℕ → Type 0
SameWalks m m' root = (ptr : ℕ) → IsLow ptr → translate m' root ptr ≡ translate m root ptr

-- The frame that the pool gives is none that it does not have.
pub Taken-ne : (p p' : Pool) (a b : ℕ) → Taken a p p' → available b p ≡ false → b ≢ a
Taken-ne p p' a b k h e = cc (sym h ∙ ap (λ x. available x p) e ∙ k.was)

pub set_label_other :
    (a c n b : ℕ) (l : Labels)
    → b ≢ a
    → ((set_label a c n l).level b ≡ l.level b) × ((set_label a c n l).place b ≡ l.place b)
unfolding set_label
set_label_other a c n b l ne = rw (ne→== b a ne) (refl, refl)

pub set_label_self :
    (a c n : ℕ) (l : Labels) → ((set_label a c n l).level a ≡ c) × ((set_label a c n l).place a ≡ n)
unfolding set_label
set_label_self a c n l = rw (eq→== a a refl) (refl, refl)

pub zeroed-outside :
    (m : Mem) (a b q : ℕ)
    → IsFrame a
    → IsFrame b
    → b ≢ a
    → b ≤ q
    → q < b + 0x1000
    → zeroed m a q ≡ m q
zeroed-outside m a b q fa fb ne lo hi = ground arith

pub zeroed-inside : (m : Mem) (a q : ℕ) → a ≤ q → q < a + 0x1000 → zeroed m a q ≡ 0
zeroed-inside m a q lo hi = ground arith

-- A step of the search at the table `t` of the level `suc d`.
pub record Stepped (n d t root ptr : ℕ) (l : Labels) (s s' : FrameState) (p p' : Pool)
    : Type 0 where
  pub new_labels : Labels
  pub represents : Represents s' p'
  pub gives : Gives n p'
  pub space : IsSpace new_labels s'.mem p' root
  pub walks : SameWalks s.mem s'.mem root
  pub kept : Kept l new_labels s.mem s'.mem p p'
  pub reaches :
      Reaches 3 s'.mem root ptr d (entry_address (word_at s'.mem t ptr (shift_of (suc d))))

module _ (n d t root ptr : ℕ) (l : Labels) (s : FrameState) (p : Pool) (r : Represents s p)
    (space : IsSpace l s.mem p root) (low : IsLow ptr)
    (reach : Reaches 3 s.mem root ptr (suc d) t) where
  abbrev idx : ℕ
  idx = entry_idx ptr (shift_of (suc d))

  at_t : IsPlaced (suc d) l s.mem p t ptr
  at_t = placed-Reaches 3 l s.mem p root ptr (suc d) t (space ptr low) reach

  spot_t : l.place t * 512 + idx ≡ spot (suc d) ptr
  spot_t = let at = at_t.0.at_place in let i = entry_idx-spot (suc d) ptr in omega arith

  abbrev entered : ℕ → FrameState → FrameState
  entered a s₁ = record s₁ { mem = store 8 s₁.mem (t + 8 * idx) (entry_word a true) }

  abbrev labelled : ℕ → Labels
  labelled a = set_label a d (l.place t * 512 + idx) l

  entered-Entered :
      (a : ℕ) (p₁ : Pool) (s₁ : FrameState)
      → test_bit (word_at s.mem t ptr (shift_of (suc d))) 0 ≡ false
      → Taken a p p₁
      → ((q : ℕ) → s₁.mem q ≡ zeroed s.mem a q)
      → Entered d t (l.place t) idx a l (labelled a) s.mem (entered a s₁).mem p p₁
  entered-Entered a p₁ s₁ absent k same =
      let o : Owned p t = at_t.0.owned in
      let ne : t ≢ a = Taken-ne p p₁ a t k o.1 in
      let lt = entry_idx-lt ptr (shift_of (suc d)) in
      record {
        changed = record {
          owned = o;
          at_level = at_t.0.at_level;
          at_place = refl;
          shrinks = k.kept;
          labels = λ b h. set_label_other a d (l.place t * 512 + idx) b l (Taken-ne p p₁ a b k h);
          keeps = λ b q ob lo hi apart.
              store_outside 8 s₁.mem (t + 8 * idx) (entry_word a true) q
                (apart_slot b q ob lo hi apart)
              ∙ same q
              ∙ zeroed-outside s.mem a b q k.frame ob.0 (Taken-ne p p₁ a b k ob.1) lo hi;
        };
        absent = absent;
        word =
            load-store_self 8 s₁.mem (t + 8 * idx) (entry_word a true)
              (omega (arith, (entry_word-lem a true k.frame).3));
        owned = (k.frame, k.gone);
        at_level = (set_label_self a d (l.place t * 512 + idx) l).0;
        at_place = (set_label_self a d (l.place t * 512 + idx) l).1;
        zeros = λ q lo hi.
            store_outside 8 s₁.mem (t + 8 * idx) (entry_word a true) q (omega (arith, k.frame))
            ∙ same q
            ∙ zeroed-inside s.mem a q lo hi;
        in_table = lt;
      }
    where
      apart_slot :
          (b q : ℕ)
          → Owned p b
          → b ≤ q
          → q < b + 0x1000
          → (b ≢ t) ⊎ ((q < t + 8 * idx) ⊎ (t + 8 * idx + 8 ≤ q))
          → (q < t + 8 * idx) ⊎ (t + 8 * idx + 8 ≤ q)
      apart_slot b q ob lo hi (inr h) = h
      apart_slot b q ob lo hi (inl ne) =
          omega (arith, ob.0, at_t.0.owned.0, entry_idx-lt ptr (shift_of (suc d)))

  walks_after :
      (a : ℕ) (p₁ : Pool) (s₁ : FrameState)
      → Entered d t (l.place t) idx a l (labelled a) s.mem (entered a s₁).mem p p₁
      → (q : ℕ) → IsLow q
      → IsPlaced 3 (labelled a) (entered a s₁).mem p₁ root q
        × (translate (entered a s₁).mem root q ≡ translate s.mem root q)
  walks_after a p₁ s₁ g q h = elim (eq-cases (spot (suc d) q) (l.place t * 512 + idx)) [
    | inl e ↦
        let same : spot (suc (suc d)) q ≡ spot (suc (suc d)) ptr = ap (λ x. x / 512) (e ∙ spot_t) in
        let (placed, walk, reached) =
          below d t (l.place t) idx a l (labelled a) s.mem (entered a s₁).mem p p₁ g 3 root q
            (space q h) (Reaches-spot 3 s.mem root ptr q (suc d) t same reach) e in
        (placed, walk)
    | inr ne ↦
        off (suc d) t (l.place t) idx l (labelled a) s.mem (entered a s₁).mem p p₁ g.changed root q
          (space q h) ne
  ]

  absent-Stepped :
      (a : ℕ) (p₁ : Pool) (s₁ : FrameState)
      → test_bit (word_at s.mem t ptr (shift_of (suc d))) 0 ≡ false
      → Taken a p p₁
      → Gives n p₁
      → Represents s₁ p₁
      → ((q : ℕ) → s₁.mem q ≡ zeroed s.mem a q)
      → Stepped n d t root ptr l s (entered a s₁) p p₁
  absent-Stepped a p₁ s₁ absent k gives r₁ same =
      let o : Owned p t = at_t.0.owned in
      let lt = entry_idx-lt ptr (shift_of (suc d)) in
      let le = Reaches-le 3 s.mem root ptr (suc d) t reach in
      let (bit, small, back, size) = entry_word-lem a true k.frame in
      let g = entered-Entered a p₁ s₁ absent k same in
      let each = walks_after a p₁ s₁ g in
      let here =
        below d t (l.place t) idx a l (labelled a) s.mem (entered a s₁).mem p p₁ g 3 root ptr
          (space ptr low) reach (sym spot_t) in
      record {
        new_labels = labelled a;
        represents = Represents-store t idx (entry_word a true) s₁ p₁ (o.0, k.kept t o.1) lt r₁;
        gives = gives;
        space = λ q h. (each q h).0;
        walks = λ q h. (each q h).1;
        kept = record {
          shrinks = k.kept;
          labels = g.changed.labels;
          bytes = λ b q ob high lo hi.
              g.changed.keeps b q ob lo hi
                (inl (λ e. omega (arith, ap l.level e, at_t.0.at_level)));
        };
        reaches =
            subst (λ y. Reaches 3 (entered a s₁).mem root ptr d y)
              (sym (ap entry_address g.word ∙ back)) here.2;
      }

  -- The first step of the search.
  pub ensure-Stepped :
      Gives (suc n) p
      → (s' : FrameState) × (p' : Pool) × (ensure_table (entry_ptr (linear_start + t) idx) s
          ≡ some s')
        × Stepped n d t root ptr l s s' p p'
  ensure-Stepped g = elim (Bool-cases (test_bit (word_at s.mem t ptr (shift_of (suc d))) 0)) [
    | inl there ↦ (
      s,
      p,
      ensure_present (entry_ptr (linear_start + t) idx) s (rw at_entry there),
      record {
        new_labels = l;
        represents = r;
        gives = Gives-less n p g;
        space = space;
        walks = λ q h. refl;
        kept = Kept-refl l s.mem p;
        reaches = Reaches-next 3 s.mem root ptr d t reach there;
      },
    )
    | inr absent ↦
        let (a, p₁, e, gives) = g in
        let (s₁, given, r₁, same) = frame_alloc_zero-given s p a p₁ r e in
        (
          entered a s₁,
          p₁,
          ensure_absent (entry_ptr (linear_start + t) idx) a s s₁ (rw at_entry absent) given
              ∙ ap some (
                  write_entry-eq t idx (entry_word a true) s₁ at_t.0.owned.0
                    (entry_idx-lt ptr (shift_of (suc d)))),
          absent-Stepped a p₁ s₁ absent (alloc-Taken p a r.pool e) gives r₁ same,
        )
  ]
    where
      at_entry :
          read_entry (entry_ptr (linear_start + t) idx) s ≡ word_at s.mem t ptr (shift_of (suc d))
      at_entry = read_entry-eq t idx s at_t.0.owned.0 (entry_idx-lt ptr (shift_of (suc d)))
