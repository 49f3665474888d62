-- ===== src/Scheduler/Total.antt =====
-- `scheduler` always returns, and what it returns can run.
use metal_to_app.Base.{
  ℕ, ◌<◌, ◌≡◌, ◌≢◌, refl, ◌⊎◌, inl, inr, ◌==◌, if◌then◌else◌, some, true, first_nonzero, arith, ◌∙◌,
}
use mathlib.Core.Path.{subst₂, sym}
use metal_to_app.Scheduler.Task.{TaskPtr, null, can_execute}
use metal_to_app.Scheduler.Select.{Kernel, half, slots, task_at, scheduler}
use metal_to_app.Scheduler.Scan.{slot_behind}
use metal_to_app.Scheduler.Choice.{
  NoneHigh, start, Chosen, high, turn, idle, scheduler_priority, scheduler_turn, scheduler_idle,
}

module _ (k : Kernel) (cpu : ℕ) where
  -- For every state and CPU, scheduler returns (its second loop ends before its fuel does), and
  -- the task and globals that it returns are those of the specification Chosen: the first
  -- executable task of slots 0 to 127; failing that, the first executable one among the 127 slots
  -- from round_schedule on, with the turn moved behind it; failing that, the idle task.
  pub scheduler-Chosen :
      (t : TaskPtr) × (k' : Kernel) × (scheduler k cpu ≡ some (t, k')) × Chosen k cpu t k'
  scheduler-Chosen = elim (first_nonzero (task_at k cpu) half 0) [
    | inl (i, lo, hi, before, ready) ↦
        let b : (m : ℕ) → m < i → task_at k cpu m ≡ null = λ m h. before m (omega arith) h in
        (_, _, scheduler_priority k cpu i hi b ready, high i hi b ready)
    | inr empty ↦
        let h : NoneHigh k cpu = λ m lt. empty m (omega arith) lt in
        elim (first_nonzero (λ m. task_at k cpu (slot_behind (start k cpu) m)) 127 0) [
          | inl (i, lo, hi, before, ready) ↦
              (_, _, scheduler_turn k cpu h i hi before ready, turn h i hi before ready)
          | inr before ↦ (_, _, scheduler_idle k cpu h before, idle h before)
        ]
  ]

task_at-executable :
    (k : Kernel) (cpu slot : ℕ)
    → task_at k cpu slot ≢ null
    → (task_at k cpu slot ≡ (k.scheduling_vector cpu slot).task)
      × (can_execute (k.tasks (task_at k cpu slot)) ≡ true)
unfolding task_at
task_at-executable k cpu slot ready = ground arith

-- What `scheduler` returns is the idle task, or a task that stands in the row of this CPU and is
-- marked as executable; it becomes the current task, and the task structs, the vector and the
-- current tasks of other CPUs stay as they were.
pub record Dispatched (k : Kernel) (cpu : ℕ) (t : TaskPtr) (k' : Kernel) : Type 0 where
  pub executable :
      (t ≡ k.idle_loop_task)
      ⊎ ((slot : ℕ) × (slot < slots)
          × (t ≡ (k.scheduling_vector cpu slot).task)
          × (can_execute (k.tasks t) ≡ true))
  pub current : (c : ℕ) → k'.current_task_table c ≡ (if c == cpu then t else k.current_task_table c)
  pub same_tasks : k'.tasks ≡ k.tasks
  pub same_vector : k'.scheduling_vector ≡ k.scheduling_vector
  pub same_idle : k'.idle_loop_task ≡ k.idle_loop_task

Chosen-Dispatched :
    (k : Kernel) (cpu : ℕ) {t : TaskPtr} {k' : Kernel} → Chosen k cpu t k' → Dispatched k cpu t k'
Chosen-Dispatched k cpu (high i lt before ready) =
    let (e, x) = task_at-executable k cpu i ready in
    record {
      executable = inr (i, omega arith, e, x);
      current = λ c. refl;
      same_tasks = refl;
      same_vector = refl;
      same_idle = refl;
    }
Chosen-Dispatched k cpu (turn h i lt before ready) =
    let (e, x) = task_at-executable k cpu (slot_behind (start k cpu) i) ready in
    record {
      executable = inr (slot_behind (start k cpu) i, omega arith, e, x);
      current = λ c. refl;
      same_tasks = refl;
      same_vector = refl;
      same_idle = refl;
    }
Chosen-Dispatched k cpu (idle h before) = record {
  executable = inl refl;
  current = λ c. refl;
  same_tasks = refl;
  same_vector = refl;
  same_idle = refl;
}

-- What scheduler returns is the idle task, or a task of the row of this CPU that is marked as
-- executable; it becomes the current task of this CPU and of no other; task structs, vector and
-- the address of the idle task stay.
pub scheduler-Dispatched :
    (k : Kernel) (cpu : ℕ) {t : TaskPtr} {k' : Kernel}
    → scheduler k cpu ≡ some (t, k')
    → Dispatched k cpu t k'
scheduler-Dispatched k cpu {t} {k'} e =
    let (t₁, k₁, e₁, c) = scheduler-Chosen k cpu in
    let at_t : t₁ ≡ t = cc (sym e₁ ∙ e) in
    let at_k : k₁ ≡ k' = cc (sym e₁ ∙ e) in
    subst₂ (Dispatched k cpu) at_t at_k (Chosen-Dispatched k cpu c)
