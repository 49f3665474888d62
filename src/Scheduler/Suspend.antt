-- ===== src/Scheduler/Suspend.antt =====
-- What `suspend`, `resume` and `schedule` come to.
use mathlib.Core.Path.{subst}
use metal_to_app.Base.{
  ℕ, ◌+◌, ◌-◌, ◌≤◌, ◌/◌, ◌≡◌, ◌≢◌, ◌<◌, refl, sym, ◌∙◌, ap, inl, inr, ◌==◌, if◌then◌else◌, ◌&&◌,
  true, false, none, some, arith, eq→==, ℤ,
}
use metal_to_app.Scheduler.Task.{Task, TaskPtr, null, can_execute, suspend_flags, resume_flags}
use metal_to_app.Scheduler.Select.{
  Kernel, SchedulingEntry, half, set_task, resume, schedule, slot_of, schedule_at, task_at,
}
use metal_to_app.Scheduler.Switch.{Cpu, suspend}
use metal_to_app.Scheduler.Yield.{running, reschedule-total, Switched-flags, reschedule-Switched}

-- `suspend` clears the flag and no other bit, `resume` sets it and no other bit.
pub flags_written :
    (t : Task)
    → (can_execute (suspend_flags t) ≡ false)
      × (can_execute (resume_flags t) ≡ true)
      × ((suspend_flags t).task_flags / 2 ≡ t.task_flags / 2)
      × ((resume_flags t).task_flags / 2 ≡ t.task_flags / 2)
unfolding suspend_flags resume_flags
flags_written t = ground arith

-- The task that a call of `suspend` names; NULL is the running one.
abbrev pub target : Kernel → TaskPtr → TaskPtr
target k p = if p == null then running k else p

marked : Kernel → TaskPtr → Kernel
marked k t = set_task k t (suspend_flags (k.tasks t))

marked_facts :
    (k : Kernel) (t : TaskPtr)
    → ((marked k t).tasks t ≡ suspend_flags (k.tasks t))
      × (running (marked k t) ≡ running k)
      × ((marked k t).idle_loop_task ≡ k.idle_loop_task)
unfolding marked set_task
marked_facts k t = (rw (eq→== t t refl), refl, refl)

-- suspend of a task (NULL: the running one) other than the idle task returns; afterwards the
-- task is marked as not executable with its other flags kept, and another task runs.
pub suspend_blocks :
    (k : Kernel) (cpu : Cpu) (p : TaskPtr)
    → target k p ≢ k.idle_loop_task
    → (k' : Kernel) × (cpu' : Cpu) × (suspend k cpu p ≡ some (k', cpu'))
      × (can_execute (k'.tasks (target k p)) ≡ false)
      × ((k'.tasks (target k p)).task_flags / 2 ≡ (k.tasks (target k p)).task_flags / 2)
      × (running k' ≢ target k p)
unfolding suspend marked
suspend_blocks k cpu p ne =
    let (k', cpu', e) = reschedule-total (marked k t) cpu in
    let sw = reschedule-Switched (marked k t) cpu e in
    let flags : (k'.tasks t).task_flags ≡ (suspend_flags (k.tasks t)).task_flags =
      Switched-flags sw t ∙ ap (λ (x : Task). x.task_flags) (marked_facts k t).0 in
    let blocked : can_execute (k'.tasks t) ≡ false = rw flags (flags_written (k.tasks t)).0 in
    (
      k',
      cpu',
      e,
      blocked,
      rw flags (flags_written (k.tasks t)).2,
      λ same. elim sw.runnable [
        | inl idle ↦ ne (sym same ∙ idle ∙ (marked_facts k t).2)
        | inr runs ↦ cc (sym blocked ∙ subst (λ q. can_execute (k'.tasks q) ≡ true) same runs)
      ],
    )
  where
    t : TaskPtr
    t = target k p

-- For a non-NULL task in any slot of any CPU: after resume of it the slot offers it for choice,
-- and after the flag writes of suspend the slot offers nothing.
task_at-resume :
    (k : Kernel) (cpu slot p : ℕ)
    → p ≢ null
    → (k.scheduling_vector cpu slot).task ≡ p
    → (task_at (resume k p) cpu slot ≡ p)
      × (task_at (set_task k p (suspend_flags (k.tasks p))) cpu slot ≡ null)
unfolding task_at resume suspend_flags
task_at-resume k cpu slot p ne e = (ground arith, ground arith)

-- `schedule` accepts the priorities -128 to 127 and no other.
pub slot_of_range :
    (n : ℕ)
    → (n < half
        → (slot_of (ℤ.pos n) ≡ some (half + n)) × (slot_of (ℤ.negsuc n) ≡ some (half - 1 - n)))
      × (half ≤ n → (slot_of (ℤ.pos n) ≡ none) × (slot_of (ℤ.negsuc n) ≡ none))
unfolding slot_of
slot_of_range n = ground arith

-- schedule at a priority of the row of CPU 0 returns the entry of that slot, replaces that entry
-- and no other, and changes nothing else; scheduling the returned entry again restores the
-- vector.
schedule_lem :
    (k : Kernel) (priority : ℤ) (task : TaskPtr) (flags slot : ℕ)
    → slot_of priority ≡ some slot
    → (k₁ : Kernel) × (schedule k priority task flags ≡ some (k.scheduling_vector 0 slot, k₁))
      × ((c s : ℕ)
          → k₁.scheduling_vector c s ≡ (
              if c == 0 && (s == slot)
              then record { flags = flags; task = task }
              else k.scheduling_vector c s))
      × (k₁ ≡ record k { scheduling_vector = k₁.scheduling_vector })
      × ((k₂ : Kernel) × (schedule k₁ priority
              (k.scheduling_vector 0 slot).task
              (k.scheduling_vector 0 slot).flags
            ≡ some (record { flags = flags; task = task }, k₂))
          × ((c s : ℕ) → k₂.scheduling_vector c s ≡ k.scheduling_vector c s))
unfolding schedule schedule_at
schedule_lem k priority task flags slot e =
    let k₁ : Kernel = (schedule_at k slot task flags).1 in
    let old : SchedulingEntry = k.scheduling_vector 0 slot in
    (
      k₁,
      rw (e, schedule),
      λ c s. refl,
      refl,
      (
        (schedule_at k₁ slot old.task old.flags).1,
        rw (e, schedule) (ground arith),
        λ c s. ground arith,
      ),
    )
