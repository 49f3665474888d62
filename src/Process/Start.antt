-- ===== src/Process/Start.antt =====
-- The stack and the registers that a new process starts with.
use metal_to_app.Base.{
  ne→==, ℕ, ◌+◌, ◌-◌, ◌/◌, ◌%◌, ◌^◌, ◌≤◌, ◌<◌, ◌≡◌, ◌≢◌, refl, sym, ap, ◌∙◌, ◌⊎◌, leb, ltb, ◌&&◌,
  true, false, some, [], ◌∷◌, Mem, arith,
}
use mathlib.Core.Path.{subst}
use metal_to_app.Klib.{strlen}
use metal_to_app.Klib.Laws.{strlen_lem}
use metal_to_app.Memory.{linear_start, physical, linear_address_to_ptr, pointer_to_linear_address}
use metal_to_app.Memory.Linear.{linear_address_to_ptr-eq, linear_round_trip}
use metal_to_app.Frame.{FrameState, frame_size, frame_alloc_zero}
use metal_to_app.Frame.Pool
use metal_to_app.Frame.Pool.{Pool, IsFrame, available}
use metal_to_app.Frame.Invariant.{Represents}
use metal_to_app.Paging.{shifts, mmap}
use metal_to_app.Paging.Slots.{Owned}
use metal_to_app.Paging.Tables.{IsWay, KeepsBut, root-Owned}
use metal_to_app.Paging.Ensure.{Gives}
use metal_to_app.Paging.Mmu.{translate}
use metal_to_app.Paging.Page.{translate-changed}
use metal_to_app.Scheduler.Task.{Task, make_task, can_execute}
use metal_to_app.Elf.{copy_bytes}
use metal_to_app.Elf.Write.{copied}
use metal_to_app.Process.{initrd_stack_addr, zero_task, padded_arg_size, fill_task, start_process}
use metal_to_app.Process.Stack.{stack_page, IsLine, Ready, ready}

pub fill_task-found :
    (fuel space root entry stack line n : ℕ) (s : FrameState)
    → strlen fuel s.mem (physical line) ≡ some n
    → pointer_to_linear_address (linear_start + root) ≡ some root
    → n < 0x1000
    → stack < 2 ^ 39
    → fill_task fuel space (linear_start + root) entry stack line s
      ≡ some (
        make_task space zero_task
            (initrd_stack_addr - padded_arg_size n)
            entry
            (initrd_stack_addr - padded_arg_size n)
            root
            true,
        copy_bytes (linear_address_to_ptr (stack + frame_size - padded_arg_size n)) line (n + 1) s,
      )
unfolding fill_task
fill_task-found fuel space root entry stack line n s e at small low =
    let whole : n % 2 ^ 32 ≡ n = omega arith in
    let padded : padded_arg_size n % 2 ^ 32 ≡ padded_arg_size n = omega arith in
    let dest : (stack + frame_size + (2 ^ 64 - padded_arg_size n)) % 2 ^ 64
        ≡ stack + frame_size - padded_arg_size n =
      omega arith in
    let bytes : (n + 1) % 2 ^ 32 ≡ n + 1 = omega arith in
    rw (e, at, whole, padded, dest, bytes, fill_task) refl

pub start_process-found :
    (fuel space root entry line a t : ℕ) (task : Task) (s s₁ s₂ s₃ s₄ : FrameState)
    → frame_alloc_zero s ≡ some (a, s₁)
    → frame_alloc_zero s₁ ≡ some (t, s₂)
    → mmap root a stack_page true s₂ ≡ some s₃
    → fill_task fuel space root entry a line s₃ ≡ some (task, s₄)
    → start_process fuel space root entry line s ≡ some (linear_address_to_ptr t, task, s₄)
unfolding start_process
start_process-found fuel space root entry line a t task s s₁ s₂ s₃ s₄ e₁ e₂ e₃ e₄ =
    rw (e₁, e₂, e₃, e₄, start_process) refl

-- Where the copy of a line of `n` bytes and its zero byte begins.
abbrev pub line_start : ℕ → ℕ → ℕ
line_start a n = a + frame_size - padded_arg_size n

line_bounds :
    (a b c n : ℕ)
    → IsFrame a
    → IsFrame b
    → a ≢ b
    → n < 0x1000
    → b ≤ c
    → c + n < b + 0x1000
    → (line_start a n < 2 ^ 39)
      × (a ≤ line_start a n)
      × (line_start a n + (n + 1) ≤ a + 0x1000)
      × ((line_start a n ≤ c) ⊎ (c + (n + 1) ≤ line_start a n))
line_bounds a b c n fa fb ne small lo hi = (omega arith, omega arith, omega arith, omega arith)

pub within : (d i n : ℕ) → i ≤ n → (leb d (d + i) && ltb (d + i) (d + (n + 1))) ≡ true
within d i n le = ground arith

without :
    (a b d n q : ℕ)
    → IsFrame a
    → IsFrame b
    → b ≢ a
    → a ≤ d
    → d + (n + 1) ≤ a + 0x1000
    → b ≤ q
    → q < b + 0x1000
    → (leb d q && ltb q (d + (n + 1))) ≡ false
without a b d n q fa fb ne lo hi lo' hi' = ground arith

pub stack_address :
    (a n i : ℕ)
    → n < 0x1000
    → i ≤ n
    → ((initrd_stack_addr - padded_arg_size n + i) / 0x1000 ≡ stack_page / 0x1000)
      × (a + (initrd_stack_addr - padded_arg_size n + i) % 0x1000 ≡ line_start a n + i)
stack_address a n i small le = (omega arith, omega arith)

-- What a new process starts with: the CPU reaches the line through the stack pointer.
record Started (root entry c n : ℕ) (m : Mem) (task : Task) (s' : FrameState) : Type 0 where
  pub aligned : task.context.rsp % 16 ≡ 0
  pub argument : task.context.rdi ≡ task.context.rsp
  pub begins : task.context.rip ≡ entry
  pub space : task.address_space ≡ root
  pub executable : can_execute task ≡ true
  pub line :
      (i : ℕ)
      → i ≤ n
      → (q : ℕ) × (translate s'.mem root (task.context.rsp + i) ≡ some q) × (s'.mem q ≡ m (c + i))

Ready-Started :
    (space root entry line a t b c n : ℕ) (s s₃ : FrameState)
    → Ready root a t b s s₃
    → IsFrame b
    → 0 < root
    → physical line ≡ c
    → n < 0x1000
    → b ≤ c
    → c + n < b + 0x1000
    → Started root entry c n s.mem
        (make_task space zero_task
          (initrd_stack_addr - padded_arg_size n)
          entry
          (initrd_stack_addr - padded_arg_size n)
          root
          true)
        (copy_bytes (linear_address_to_ptr (line_start a n)) line (n + 1) s₃)
unfolding make_task
Ready-Started space root entry line a t b c n s s₃ h fb pos at small lo hi =
    let d : ℕ = line_start a n in
    let (low, above_a, below_a, apart) = line_bounds a b c n h.stack_frame fb h.apart small lo hi in
    let keeps : KeepsBut h.pool' (a ∷ []) s₃.mem
        (copy_bytes (linear_address_to_ptr d) line (n + 1) s₃).mem =
      λ f q o out lo' hi'.
        copied d c line (n + 1) q s₃ low at apart
        ∙ rw (without a f d n q h.stack_frame o.0 (λ e. ground arith) above_a below_a lo' hi')
            refl in
    record {
      aligned = omega arith;
      argument = refl;
      begins = refl;
      space = rw (ne→== root 0 (omega arith)) refl;
      executable = refl;
      line = λ i le.
          let (page, back) = stack_address a n i small le in
          (
            d + i,
            translate-changed root a stack_page (initrd_stack_addr - padded_arg_size n + i) true
                  (t ∷ a ∷ b ∷ []) h.before s₃ h.pool h.pool'
                  (copy_bytes (linear_address_to_ptr d) line (n + 1) s₃).mem a h.mapped keeps
                  (ground arith) h.stack_frame.1 (omega (arith, h.stack_frame)) page
                ∙ ap some back,
            copied d c line (n + 1) (d + i) s₃ low at apart
                ∙ rw (within d i n le) (
                    ap (λ x. s₃.mem (c + x)) (omega arith)
                    ∙ h.same (c + i) (omega arith) (omega arith)),
          );
    }

-- With a command line of n < 4096 bytes within one frame that the allocator does not have, fuel
-- above n, five frames in the pool, and a way from the root table to the page of the stack that
-- mmap can map on and that avoids that frame, the part of make_userspace_process behind load_elf
-- returns; the task begins at the entry point in the given address space, is executable, has a
-- stack pointer that is a multiple of 16 and that is also its argument, and through the
-- addresses from the stack pointer on the CPU reaches the bytes of the command line with its
-- zero byte.
start_process-Started :
    (fuel space root entry line a t b c n : ℕ) (s : FrameState) (p p₁ p₂ : Pool)
    → n < fuel
    → n < 0x1000
    → Represents s p
    → Pool.alloc p ≡ some (a, p₁)
    → Pool.alloc p₁ ≡ some (t, p₂)
    → Gives 3 p₂
    → Owned p b
    → IsWay shifts s.mem p root stack_page (b ∷ [])
    → physical line ≡ c
    → IsLine s.mem b c n
    → (task : Task) × (s' : FrameState) × (start_process fuel space
          (linear_start + root)
          entry
          line
          s
        ≡ some (linear_start + t, task, s'))
      × Started root entry c n s.mem task s'
start_process-Started fuel space root entry line a t b c n s p p₁ p₂ enough small r e₁ e₂ g ob way
      at l =
    let (s₁, s₂, s₃, f₁, f₂, f₃, h) = ready root a t b s p p₁ p₂ r e₁ e₂ g ob way in
    let (o, _) = root-Owned shifts s.mem p root stack_page (b ∷ []) way in
    let lo : b ≤ c = l.starts in
    let hi : c + n < b + 0x1000 = l.ends in
    let same : (i : ℕ) → i ≤ n → s₃.mem (c + i) ≡ s.mem (c + i) =
      λ i le. h.same (c + i) (omega arith) (omega arith) in
    let len : strlen fuel s₃.mem (physical line) ≡ some n = rw at (
      strlen_lem n fuel s₃.mem c enough (λ i lt e. l.full i lt (sym (same i (omega arith)) ∙ e))
        (same n (omega arith) ∙ l.last)) in
    let back : pointer_to_linear_address (linear_start + root) ≡ some root =
      subst (λ x. pointer_to_linear_address x ≡ some root)
        (linear_address_to_ptr-eq root (omega (arith, o.0)))
        (linear_round_trip root o.0.0 (omega (arith, o.0))).0 in
    let bottom : ℕ = initrd_stack_addr - padded_arg_size n in
    let task : Task = make_task space zero_task bottom entry bottom root true in
    let s₄ : FrameState = copy_bytes (linear_address_to_ptr (line_start a n)) line (n + 1) s₃ in
    let filled =
      fill_task-found fuel space root entry a line n s₃ len back (omega arith)
        (omega (arith, h.stack_frame)) in
    (
      task,
      s₄,
      start_process-found fuel space (linear_start + root) entry line a t task s s₁ s₂ s₃ s₄ f₁ f₂
            f₃ filled
          ∙ ap (λ x. some (x, task, s₄)) (linear_address_to_ptr-eq t (omega (arith, h.task_frame))),
      Ready-Started space root entry line a t b c n s s₃ h ob.0 o.0.0 at small lo hi,
    )
