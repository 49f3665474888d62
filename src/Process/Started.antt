-- ===== src/Process/Started.antt =====
-- The processes of all boot modules.
use metal_to_app.Base.{
  ℕ, zero, suc, ◌+◌, ◌≤◌, ◌<◌, ◌≡◌, refl, ap, ◌∙◌, inl, inr, some, eq-cases, Mem, arith,
}
use metal_to_app.Memory.{linear_start, kernel_base, dynamic_start}
use metal_to_app.Frame.{FrameState}
use metal_to_app.Frame.Pool.{Pool}
use metal_to_app.Frame.Invariant.{Represents}
use metal_to_app.Paging.Ensure.{Gives}
use metal_to_app.Paging.Step.{Kept-refl, Kept-trans}
use metal_to_app.Paging.Search.{more}
use metal_to_app.Scheduler.Task.{Task}
use metal_to_app.Scheduler.Select.{Kernel, half, set_task, schedule, schedule_at}
use metal_to_app.Scheduler.Suspend.{slot_of_range}
use metal_to_app.Elf.Headers.{frames_for_all}
use metal_to_app.Multiboot.{InitrdInfo}
use metal_to_app.Process.{make_userspace_process}
use metal_to_app.Process.Program.{BelowStack, IsProgram, make_userspace_process-IsProgram}
use metal_to_app.Process.Boot.{start_processes}
use metal_to_app.Process.Running.{
  Program, unmarked, AllKept, forget, IsStartable, IsStartable-Kept, IsRunning, with_task,
  IsRunning-stays, started-IsRunning, IsRunning-image,
}

-- The frames for `n` programs from `i` on, and `r` more.
abbrev pub frames_for_programs : ℕ → ℕ → (ℕ → Program) → ℕ → ℕ
frames_for_programs zero i programs r = r
frames_for_programs (suc n) i programs r =
    suc (frames_for_all (programs i).segments (more 5 (frames_for_programs n (i + 1) programs r)))

next_process :
    (fuel kl kd n i initrd_task : ℕ) (m : ℕ → InitrdInfo) (k : Kernel) (s s' : FrameState)
    (task : Task)
    → i < half
    → make_userspace_process fuel kl kd k.kernel_address_space (m i).start (m i).command_line s
      ≡ some (initrd_task, task, s')
    → start_processes fuel kl kd (suc n) i m k s
      ≡ start_processes fuel kl kd n
          (i + 1)
          m
          (schedule_at (set_task k initrd_task task) (half + i) initrd_task 0).1
          s'
unfolding start_processes schedule
next_process fuel kl kd n i initrd_task m k s s' task lt e =
    rw (e, ((slot_of_range i).0 lt).0, start_processes, schedule) refl

-- What is known behind the loop.
pub record AllStarted (n i r : ℕ) (programs : ℕ → Program) (k k' : Kernel) (s s' : FrameState)
    (p p' : Pool) : Type 0 where
  pub represents : Represents s' p'
  pub gives : Gives r p'
  pub kept : AllKept s.mem s'.mem p p'
  pub running : (j : ℕ) → i ≤ j → j < i + n → IsRunning (half + j) (programs j) s.mem k' s'.mem p'
  pub earlier :
      (slot : ℕ) (g : Program) (m₀ : Mem)
      → slot < half + i
      → BelowStack g.segments
      → IsRunning slot g m₀ k s.mem p
      → IsRunning slot g m₀ k' s'.mem p'

AllStarted-none :
    (i r : ℕ) (programs : ℕ → Program) (k : Kernel) (s : FrameState) (p : Pool)
    → Represents s p
    → Gives r p
    → AllStarted 0 i r programs k k s s p p
AllStarted-none i r programs k s p rep g = record {
  represents = rep;
  gives = g;
  kept = Kept-refl unmarked s.mem p;
  running = λ j le lt. absurd (omega arith);
  earlier = λ slot g m₀ lt below h. h;
}

module _ (fuel n i r struct : ℕ) (task : Task) (infos : ℕ → InitrdInfo) (programs : ℕ → Program)
    (k k' : Kernel) (s s₁ s' : FrameState) (p p₁ p' : Pool)
    (startable : (j : ℕ) → i ≤ j → j < i + suc n → IsStartable fuel (infos j) s.mem p (programs j))
    (first : IsProgram
      (frames_for_programs n (i + 1) programs r)
      (programs i).entry
      (programs i).image
      (programs i).line
      (programs i).length
      struct
      (programs i).segments
      unmarked
      s
      p
      task
      s₁
      p₁)
    (rest : AllStarted n
      (i + 1)
      r
      programs
      (with_task (half + i) struct task k)
      k'
      s₁
      s'
      p₁
      p') where
  first_kept : AllKept s.mem s₁.mem p p₁
  first_kept = forget first.new_labels s.mem s₁.mem p p₁ first.kept

  all_running :
      (j : ℕ) → i ≤ j → j < i + suc n → IsRunning (half + j) (programs j) s.mem k' s'.mem p'
  all_running j le lt = elim (eq-cases j i) [
    | inl e ↦ rw e (
        rest.earlier (half + i) (programs i) s.mem (omega arith)
          (startable i (omega arith) (omega arith)).below
          (started-IsRunning (half + i) (frames_for_programs n (i + 1) programs r) struct task
            (programs i) k s s₁ p p₁ first))
    | inr ne ↦
        IsRunning-image fuel (half + j) (infos j) (programs j) k' s.mem s₁.mem s'.mem p p₁ p'
          first_kept (startable j le lt) (rest.running j (omega arith) (omega arith))
  ]

  AllStarted-next : AllStarted (suc n) i r programs k k' s s' p p'
  AllStarted-next = record {
    represents = rest.represents;
    gives = rest.gives;
    kept = Kept-trans unmarked unmarked unmarked s.mem s₁.mem s'.mem p p₁ p' first_kept rest.kept;
    running = all_running;
    earlier = λ slot g m₀ lt below h. rest.earlier slot g m₀ (omega arith) below (
        IsRunning-stays slot (half + i) struct task g m₀ k s.mem s₁.mem p p₁ (λ e. omega arith)
          below first_kept first.given.was h);
  }

-- With static tables in the kernel window, i + n at most 128, modules i to i + n - 1 whose
-- images and command lines each fit make_userspace_process and lie in frames that the allocator
-- does not have, and frames in the pool for all of them and r more, the rounds i to i + n - 1 of
-- the loop of cstart that calls make_userspace_process and schedule return; behind them each of
-- these modules j has in slot 128 + j of CPU 0 an executable task that begins at the entry point
-- of its image and whose argument is its stack pointer; in the address space of that task, also
-- behind the start of the later modules, the CPU reads the segments of its image and its command
-- line as they were before the loop, and translates no address of the lower half outside of the
-- pages of the segments and of the stack; the pool is still represented and has r frames, the
-- frames that the allocator did not have keep their bytes, and a program of which all this was
-- true in a slot below 128 + i is still one.
pub start_processes-AllStarted :
    (fuel kernel_linear kernel_pagedirtable n i r : ℕ) (infos : ℕ → InitrdInfo)
    (programs : ℕ → Program) (k : Kernel) (s : FrameState) (p : Pool)
    → kernel_base < kernel_linear
    → kernel_linear < dynamic_start
    → kernel_base < kernel_pagedirtable
    → kernel_pagedirtable < dynamic_start
    → i + n ≤ half
    → Represents s p
    → Gives (frames_for_programs n i programs r) p
    → ((j : ℕ) → i ≤ j → j < i + n → IsStartable fuel (infos j) s.mem p (programs j))
    → (k' : Kernel) × (s' : FrameState) × (p' : Pool) × (start_processes fuel kernel_linear
          kernel_pagedirtable n i infos k s
        ≡ some (k', s'))
      × AllStarted n i r programs k k' s s' p p'
unfolding start_processes
start_processes-AllStarted fuel kl kd zero i r infos programs k s p l₁ l₂ d₁ d₂ fits rep g
      startable =
    (k, s, p, refl, AllStarted-none i r programs k s p rep g)
start_processes-AllStarted fuel kl kd (suc n) i r infos programs k s p l₁ l₂ d₁ d₂ fits rep g
      startable =
    let g₀ : Program = programs i in
    let ok = startable i (omega arith) (omega arith) in
    let (struct, task, s₁, p₁, run, first) =
      make_userspace_process-IsProgram fuel kl kd (frames_for_programs n (i + 1) programs r)
        k.kernel_address_space g₀.image g₀.entry g₀.size (infos i).command_line g₀.line g₀.length
        g₀.segments unmarked s p l₁ l₂ d₁ d₂ ok.enough ok.small ok.at rep g ok.elf ok.below
        ok.text in
    let kept = forget first.new_labels s.mem s₁.mem p p₁ first.kept in
    let made =
      ap (λ x. make_userspace_process fuel kl kd k.kernel_address_space x (infos i).command_line s)
        ok.starts
      ∙ run in
    let (k', s', p', runs, rest) =
      start_processes-AllStarted fuel kl kd n (i + 1) r infos programs
        (with_task (half + i) struct task k) s₁ p₁ l₁ l₂ d₁ d₂ (omega arith) first.represents
        first.gives
        (λ j le lt.
          IsStartable-Kept fuel (infos j) s.mem s₁.mem p p₁ (programs j) kept
            (startable j (omega arith) (omega arith))) in
    (
      k',
      s',
      p',
      next_process fuel kl kd n i (linear_start + struct) infos k s s₁ task (omega arith) made
          ∙ runs,
      AllStarted-next fuel n i r struct task infos programs k k' s s₁ s' p p₁ p' startable first
          rest,
    )
