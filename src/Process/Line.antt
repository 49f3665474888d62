-- ===== src/Process/Line.antt =====
-- The stack of a new process in an address space whose lower half is a tree.
use metal_to_app.Base.{
  Bool-cases, inl, inr, false, ℕ, ◌+◌, ◌/◌, ◌%◌, ◌≤◌, ◌<◌, ◌≡◌, ◌≢◌, sym, ap, ◌∙◌, ◌==◌,
  if◌then◌else◌, true, some, Mem, arith,
}
use metal_to_app.Memory.{linear_start}
use metal_to_app.Frame.{FrameState, frame_alloc_zero}
use metal_to_app.Frame.Pool.{Pool, IsFrame, available}
use metal_to_app.Frame.Invariant.{Represents}
use metal_to_app.Frame.Taken.{alloc-Taken}
use metal_to_app.Paging.{mmap}
use metal_to_app.Paging.Slots.{frame_alloc_zero-given}
use metal_to_app.Paging.Ensure.{Gives}
use metal_to_app.Paging.Placed.{Labels, IsSpace}
use metal_to_app.Paging.Step.{Kept, Kept-trans, set_label, set_label_self, Taken-ne}
use metal_to_app.Paging.Search.{more}
use metal_to_app.Paging.Others.{mmap-Remapped}
use metal_to_app.Elf.NewFrame.{Framed, alloc-Kept, alloc-IsSpace}
use metal_to_app.Elf.Data.{IsData, IsData-Kept, AllData}
use metal_to_app.Process.Stack.{stack_page}

-- A text of `k` bytes before its zero byte, in frames of data.
pub record IsText (l : Labels) (m : Mem) (p : Pool) (c k : ℕ) : Type 0 where
  pub full : (i : ℕ) → i < k → m (c + i) ≢ 0
  pub last : m (c + k) ≡ 0
  pub in_place : AllData l p c (k + 1)

pub IsText-Kept :
    (l l' : Labels) (m m' : Mem) (p p' : Pool) (c k : ℕ)
    → Kept l l' m m' p p'
    → IsText l m p c k
    → IsText l' m' p' c k
IsText-Kept l l' m m' p p' c k kept t =
    let same : (i : ℕ) → i ≤ k → IsData l' p' (c + i) × (m' (c + i) ≡ m (c + i)) =
      λ i le. IsData-Kept l l' m m' p p' (c + i) kept (t.in_place i (omega arith)) in
    record {
      full = λ i lt e. t.full i lt (sym (same i (omega arith)).1 ∙ e);
      last = (same k (omega arith)).1 ∙ t.last;
      in_place = λ i lt. (same i (omega arith)).0;
    }

-- A frame that the allocator had before and has no more.
pub record IsGiven (a : ℕ) (p p' : Pool) : Type 0 where
  pub frame : IsFrame a
  pub was : available a p ≡ true
  pub gone : available a p' ≡ false

pub IsGiven-before :
    (a : ℕ) (p p₁ p' : Pool)
    → ((b : ℕ) → available b p ≡ false → available b p₁ ≡ false)
    → IsGiven a p₁ p'
    → IsGiven a p p'
IsGiven-before a p p₁ p' shrinks g = record {
  frame = g.frame;
  was = elim (Bool-cases (available a p)) [ inl e ↦ e | inr e ↦ cc (sym (shrinks a e) ∙ g.was) ];
  gone = g.gone;
}

-- The frames of the stack and of the struct are given, and the stack is mapped.
pub record Stacked (n root : ℕ) (l : Labels) (s : FrameState) (p : Pool) : Type 0 where
  pub stack : ℕ
  pub struct : ℕ
  pub s₁ : FrameState
  pub s₂ : FrameState
  pub s₃ : FrameState
  pub pool : Pool
  pub stack_given : frame_alloc_zero s ≡ some (stack, s₁)
  pub struct_given : frame_alloc_zero s₁ ≡ some (struct, s₂)
  pub mapped : mmap (linear_start + root) stack stack_page true s₂ ≡ some s₃
  pub given : IsGiven struct p pool
  pub framed : Framed n root stack stack_page l s s₃ p pool

pub stacked :
    (n root : ℕ) (l : Labels) (s : FrameState) (p : Pool)
    → Represents s p
    → IsSpace l s.mem p root
    → Gives (more 5 n) p
    → Stacked n root l s p
stacked n root l s p r space (a, p₁, e₁, (t, p₂, e₂, g)) =
    let k₁ = alloc-Taken p a r.pool e₁ in
    let (s₁, given₁, r₁, same₁) = frame_alloc_zero-given s p a p₁ r e₁ in
    let k₂ = alloc-Taken p₁ t r₁.pool e₂ in
    let (s₂, given₂, r₂, same₂) = frame_alloc_zero-given s₁ p₁ t p₂ r₁ e₂ in
    let l₁ : Labels = set_label a 4 0 l in
    let l₂ : Labels = set_label t 4 0 l₁ in
    let (space₁, walks₁) = alloc-IsSpace a root l s s₁ p p₁ k₁ same₁ space in
    let (space₂, walks₂) = alloc-IsSpace t root l₁ s₁ s₂ p₁ p₂ k₂ same₂ space₁ in
    let kept₁ = alloc-Kept a l s s₁ p p₁ k₁ same₁ in
    let kept₂ = alloc-Kept t l₁ s₁ s₂ p₁ p₂ k₂ same₂ in
    let (s₃, p₃, mapped, m) =
      mmap-Remapped n root a stack_page true l₂ s₂ p₂ r₂ space₂ g (omega arith) k₁.frame.1
        (omega (arith, k₁.frame)) in
    let gone : available a p₂ ≡ _ = kept₂.shrinks a k₁.gone in
    record {
      stack = a;
      struct = t;
      s₁ = s₁;
      s₂ = s₂;
      s₃ = s₃;
      pool = p₃;
      stack_given = given₁;
      struct_given = given₂;
      mapped = mapped;
      given =
          IsGiven-before t p p₁ p₃ k₁.kept
            (record { frame = k₂.frame; was = k₂.was; gone = m.kept.shrinks t k₂.gone });
      framed = record {
        new_labels = m.new_labels;
        represents = m.represents;
        gives = m.gives;
        space = m.space;
        kept =
            Kept-trans l l₁ m.new_labels s.mem s₁.mem s₃.mem p p₁ p₃ kept₁
              (Kept-trans l₁ l₂ m.new_labels s₁.mem s₂.mem s₃.mem p₁ p₂ p₃ kept₂ m.kept);
        owned = (k₁.frame, m.kept.shrinks a gone);
        new = λ b h. Taken-ne p p₁ a b k₁ h;
        no_table =
            (m.kept.labels a gone).0 ∙ (kept₂.labels a k₁.gone).0 ∙ (set_label_self a 4 0 l).0;
        walks = λ q h.
            m.walks q h
            ∙ ap (λ x. if q / 0x1000 == stack_page / 0x1000 then some (a + q % 0x1000) else x)
                (walks₂ q h ∙ walks₁ q h);
      };
    }
