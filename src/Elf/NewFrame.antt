-- ===== src/Elf/NewFrame.antt =====
-- A new frame of data in an address space: it is zeroed, mapped and written.
use metal_to_app.Base.{
  ℕ, ◌+◌, ◌/◌, ◌%◌, ◌≤◌, ◌<◌, ◌≡◌, ◌≢◌, refl, ap, ◌∙◌, ◌==◌, if◌then◌else◌, true, false, some, Mem,
  load_agree, arith,
}
use metal_to_app.Memory.{linear_start}
use metal_to_app.Frame.{FrameState, frame_alloc_zero}
use metal_to_app.Frame.Pool.{Pool, available}
use metal_to_app.Frame.Invariant.{Represents}
use metal_to_app.Frame.Taken.{Taken, alloc-Taken}
use metal_to_app.Frame.Refine.{zeroed}
use metal_to_app.Paging.{mmap}
use metal_to_app.Paging.Slots.{Owned, slot, frame_alloc_zero-given}
use metal_to_app.Paging.Tables.{word_at}
use metal_to_app.Paging.Ensure.{Gives}
use metal_to_app.Paging.Levels.{shift_of}
use metal_to_app.Paging.Placed.{Labels, Here, IsLow, IsPlaced, IsSpace, stays}
use metal_to_app.Paging.Step.{
  Kept, Kept-trans, set_label, set_label_other, set_label_self, Taken-ne, zeroed-outside,
  zeroed-inside, SameWalks,
}
use metal_to_app.Paging.Search.{more}
use metal_to_app.Paging.Others.{mmap-Remapped}
use metal_to_app.Paging.Mmu.{translate}
use metal_to_app.Elf.{map_frame}

-- Where the tables keep their bytes, the address space stays.
pub IsSpace-stays :
    (l l' : Labels) (m m' : Mem) (p p' : Pool) (root : ℕ)
    → ((b : ℕ) → available b p ≡ false → available b p' ≡ false)
    → ((b : ℕ) → available b p ≡ false → (l'.level b ≡ l.level b) × (l'.place b ≡ l.place b))
    → ((b q : ℕ) → Owned p b → l.level b ≤ 3 → b ≤ q → q < b + 0x1000 → m' q ≡ m q)
    → IsSpace l m p root
    → IsSpace l' m' p' root × SameWalks m m' root
IsSpace-stays l l' m m' p p' root shrinks labels keeps space =
    (λ ptr low. (each ptr low).0, λ ptr low. (each ptr low).1)
  where
    word :
        (ptr d x : ℕ)
        → d ≤ 3
        → Here l p d x ptr
        → word_at m' x ptr (shift_of d) ≡ word_at m x ptr (shift_of d)
    word ptr d x le h =
        load_agree 8 m' m (slot x ptr (shift_of d))
          (λ q lo hi. keeps x q h.owned (omega (arith, h.at_level)) (omega arith) (omega arith))

    here : (ptr d x : ℕ) → Here l p d x ptr → Here l' p' d x ptr
    here ptr d x h = record {
      owned = (h.owned.0, shrinks x h.owned.1);
      at_level = (labels x h.owned.1).0 ∙ h.at_level;
      at_place = (labels x h.owned.1).1 ∙ h.at_place;
    }

    each :
        (ptr : ℕ)
        → IsLow ptr
        → IsPlaced 3 l' m' p' root ptr × (translate m' root ptr ≡ translate m root ptr)
    each ptr low =
        stays l l' m m' p p' ptr (word ptr) (here ptr) 3 root (omega arith) (space ptr low)

-- What a new frame `a` at the page of an address comes to.
pub record Framed (n root a ptr : ℕ) (l : Labels) (s s' : FrameState) (p p' : Pool) : Type 0 where
  pub new_labels : Labels
  pub represents : Represents s' p'
  pub gives : Gives n p'
  pub space : IsSpace new_labels s'.mem p' root
  pub kept : Kept l new_labels s.mem s'.mem p p'
  pub owned : Owned p' a
  pub new : (b : ℕ) → available b p ≡ false → b ≢ a
  pub no_table : new_labels.level a ≡ 4
  pub walks :
      (q : ℕ)
      → IsLow q
      → translate s'.mem root q
        ≡ (if q / 0x1000 == ptr / 0x1000 then some (a + q % 0x1000) else translate s.mem root q)

map_frame-found :
    (space a dest : ℕ) (s s₁ s₂ : FrameState)
    → frame_alloc_zero s ≡ some (a, s₁)
    → mmap space a dest true s₁ ≡ some s₂
    → map_frame space dest s ≡ some (a, s₂)
unfolding map_frame
map_frame-found space a dest s s₁ s₂ e f = rw (e, f, map_frame) refl

-- The allocation of a frame that becomes no table.
pub alloc-Kept :
    (a : ℕ) (l : Labels) (s s₁ : FrameState) (p p₁ : Pool)
    → Taken a p p₁
    → ((q : ℕ) → s₁.mem q ≡ zeroed s.mem a q)
    → Kept l (set_label a 4 0 l) s.mem s₁.mem p p₁
alloc-Kept a l s s₁ p p₁ k same = record {
  shrinks = k.kept;
  labels = λ b h. set_label_other a 4 0 b l (Taken-ne p p₁ a b k h);
  bytes = λ b q o high lo hi.
      same q ∙ zeroed-outside s.mem a b q k.frame o.0 (Taken-ne p p₁ a b k o.1) lo hi;
}

pub alloc-IsSpace :
    (a root : ℕ) (l : Labels) (s s₁ : FrameState) (p p₁ : Pool)
    → Taken a p p₁
    → ((q : ℕ) → s₁.mem q ≡ zeroed s.mem a q)
    → IsSpace l s.mem p root
    → IsSpace (set_label a 4 0 l) s₁.mem p₁ root × SameWalks s.mem s₁.mem root
alloc-IsSpace a root l s s₁ p p₁ k same space =
    IsSpace-stays l (set_label a 4 0 l) s.mem s₁.mem p p₁ root k.kept
      (λ b h. set_label_other a 4 0 b l (Taken-ne p p₁ a b k h))
      (λ b q o low lo hi.
        same q ∙ zeroed-outside s.mem a b q k.frame o.0 (Taken-ne p p₁ a b k o.1) lo hi)
      space

pub map_frame-Framed :
    (n root ptr : ℕ) (l : Labels) (s : FrameState) (p : Pool)
    → Represents s p
    → IsSpace l s.mem p root
    → Gives (more 4 n) p
    → IsLow ptr
    → (s' : FrameState) × (p' : Pool) × (a : ℕ) × (map_frame (linear_start + root) ptr s
        ≡ some (a, s'))
      × Framed n root a ptr l s s' p p'
      × ((q : ℕ) → a ≤ q → q < a + 0x1000 → s'.mem q ≡ 0)
map_frame-Framed n root ptr l s p r space (a, p₁, e, g) low =
    let k = alloc-Taken p a r.pool e in
    let (s₁, given, r₁, same) = frame_alloc_zero-given s p a p₁ r e in
    let l₁ : Labels = set_label a 4 0 l in
    let (space₁, walks₁) = alloc-IsSpace a root l s s₁ p p₁ k same space in
    let (s', p', mapped, m) =
      mmap-Remapped n root a ptr true l₁ s₁ p₁ r₁ space₁ g low k.frame.1 (omega (arith, k.frame)) in
    let level : l₁.level a ≡ 4 = (set_label_self a 4 0 l).0 in
    (
      s',
      p',
      a,
      map_frame-found (linear_start + root) a ptr s s₁ s' given mapped,
      record {
        new_labels = m.new_labels;
        represents = m.represents;
        gives = m.gives;
        space = m.space;
        kept =
            Kept-trans l l₁ m.new_labels s.mem s₁.mem s'.mem p p₁ p'
              (alloc-Kept a l s s₁ p p₁ k same) m.kept;
        owned = (k.frame, m.kept.shrinks a k.gone);
        new = λ b h. Taken-ne p p₁ a b k h;
        no_table = (m.kept.labels a k.gone).0 ∙ level;
        walks = λ q h.
            m.walks q h
            ∙ ap (λ x. if q / 0x1000 == ptr / 0x1000 then some (a + q % 0x1000) else x)
                (walks₁ q h);
      },
      λ q lo hi.
          m.kept.bytes a q (k.frame, k.gone) (omega (arith, level)) lo hi
          ∙ same q
          ∙ zeroed-inside s.mem a q lo hi,
    )
