-- ===== src/Process/Stack.antt =====
-- The memory of a new process when its stack is mapped.
use metal_to_app.Base.{
  ℕ, ◌+◌, ◌-◌, ◌^◌, ◌≤◌, ◌<◌, ◌≡◌, ◌≢◌, refl, ap, ◌∙◌, true, some, [], ◌∷◌, Mem, arith,
}
use metal_to_app.Memory.{linear_start}
use metal_to_app.Frame.{FrameState, frame_size, frame_alloc_zero}
use metal_to_app.Frame.Pool
use metal_to_app.Frame.Pool.{Pool, IsFrame, available}
use metal_to_app.Frame.Invariant.{Represents}
use metal_to_app.Frame.Taken.{alloc-Taken}
use metal_to_app.Paging.{shifts, mmap}
use metal_to_app.Paging.Slots.{Owned, frame_alloc_zero-given}
use metal_to_app.Paging.Tables.{IsWay, tables-above}
use metal_to_app.Paging.Ensure.{Gives}
use metal_to_app.Paging.Mapping.{Mapped, mmap-Mapped}
use metal_to_app.Paging.Page.{IsWay-avoids, avoids-given, zeroed-keeps}
use metal_to_app.Process.{initrd_stack_addr}

-- The page of the stack.
abbrev pub stack_page : ℕ
stack_page = initrd_stack_addr - frame_size

-- A text of `n` bytes before its zero byte, at an address within one frame.
pub record IsLine (m : Mem) (b c n : ℕ) : Type 0 where
  pub starts : b ≤ c
  pub ends : c + n < b + 0x1000
  pub full : (i : ℕ) → i < n → m (c + i) ≢ 0
  pub last : m (c + n) ≡ 0

-- What is known when the stack is mapped: `a` is its frame, `t` that of the task, and the frame `b` is as
-- it was.
pub record Ready (root a t b : ℕ) (s s' : FrameState) : Type 1 where
  pub before : FrameState
  pub pool : Pool
  pub pool' : Pool
  pub mapped : Mapped root a stack_page true (t ∷ a ∷ b ∷ []) before s' pool pool'
  pub stack_frame : IsFrame a
  pub task_frame : IsFrame t
  pub apart : a ≢ b
  pub same : (q : ℕ) → b ≤ q → q < b + 0x1000 → s'.mem q ≡ s.mem q

pub ready :
    (root a t b : ℕ) (s : FrameState) (p p₁ p₂ : Pool)
    → Represents s p
    → Pool.alloc p ≡ some (a, p₁)
    → Pool.alloc p₁ ≡ some (t, p₂)
    → Gives 3 p₂
    → Owned p b
    → IsWay shifts s.mem p root stack_page (b ∷ [])
    → (s₁ : FrameState) × (s₂ : FrameState) × (s₃ : FrameState) × (frame_alloc_zero s
        ≡ some (a, s₁))
      × (frame_alloc_zero s₁ ≡ some (t, s₂))
      × (mmap (linear_start + root) a stack_page true s₂ ≡ some s₃)
      × Ready root a t b s s₃
ready root a t b s p p₁ p₂ r e₁ e₂ g ob way =
    let k₁ = alloc-Taken p a r.pool e₁ in
    let (s₁, given₁, r₁, same₁) = frame_alloc_zero-given s p a p₁ r e₁ in
    let k₂ = alloc-Taken p₁ t r₁.pool e₂ in
    let (s₂, given₂, r₂, same₂) = frame_alloc_zero-given s₁ p₁ t p₂ r₁ e₂ in
    let keeps₁ = zeroed-keeps p p₁ a s.mem s₁.mem k₁ same₁ in
    let keeps₂ = zeroed-keeps p₁ p₂ t s₁.mem s₂.mem k₂ same₂ in
    let way₁ : IsWay shifts s₁.mem p₁ root stack_page (a ∷ b ∷ []) =
      IsWay-avoids shifts s.mem s₁.mem p p₁ root stack_page (b ∷ []) (a ∷ b ∷ []) keeps₁ k₁.kept
        (avoids-given p p₁ a (b ∷ []) k₁) way in
    let way₂ : IsWay shifts s₂.mem p₂ root stack_page (t ∷ a ∷ b ∷ []) =
      IsWay-avoids shifts s₁.mem s₂.mem p₁ p₂ root stack_page (a ∷ b ∷ []) (t ∷ a ∷ b ∷ []) keeps₂
        k₂.kept (avoids-given p₁ p₂ t (a ∷ b ∷ []) k₂) way₁ in
    let b₁ : Owned p₁ b = (ob.0, k₁.kept b ob.1) in
    let b₂ : Owned p₂ b = (ob.0, k₂.kept b b₁.1) in
    let small : a < 2 ^ 52 = omega (arith, k₁.frame) in
    let (s₃, p₃, e, m) =
      mmap-Mapped root a stack_page true (t ∷ a ∷ b ∷ []) s₂ p₂ r₂ g
        (k₂.gone, (k₂.kept a k₁.gone, (b₂.1, tt))) way₂ k₁.frame.1 small in
    let avoided =
      tables-above shifts s₃.mem p₃ root stack_page (t ∷ a ∷ b ∷ []) b m.whole (ground arith) in
    (
      s₁,
      s₂,
      s₃,
      given₁,
      given₂,
      e,
      record {
        before = s₂;
        pool = p₂;
        pool' = p₃;
        mapped = m;
        stack_frame = k₁.frame;
        task_frame = k₂.frame;
        apart = λ x. ground (arith, k₁.was, ob.1, ap (λ y. available y p) x);
        same = λ q lo hi.
            m.keeps b q b₂ avoided lo hi ∙ keeps₂ b q b₁ refl lo hi ∙ keeps₁ b q ob refl lo hi;
      },
    )
