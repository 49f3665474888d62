-- ===== src/Scheduler/Yield.antt =====
-- Context switches: what a switch saves and loads, and what `suspend` and `resume` come to.
use mathlib.Core.Path.{subst₂}
use metal_to_app.Base.{
  ◌≡◌, ◌≢◌, refl, sym, ◌∙◌, ap, ◌⊎◌, inl, inr, ◌==◌, if◌then◌else◌, true, some, ne→==, eq→==,
  eq-cases, ◌%◌, ◌^◌,
}
use metal_to_app.Scheduler.Task.{Context, Task, TaskPtr, can_execute}
use metal_to_app.Scheduler.Select.{Kernel, scheduler, resume}
use metal_to_app.Scheduler.Switch.{Cpu, get_cpuid, save_context, load_context, reschedule}
use metal_to_app.Scheduler.Total.{Dispatched, scheduler-Chosen, scheduler-Dispatched}

-- The task that runs on the CPU.
abbrev pub running : Kernel → TaskPtr
running k = k.current_task_table get_cpuid

-- A context switch always ends: `scheduler` returns.
pub reschedule-total :
    (k : Kernel) (cpu : Cpu) → (k' : Kernel) × (cpu' : Cpu) × (reschedule k cpu ≡ some (k', cpu'))
unfolding reschedule
reschedule-total k cpu =
    let (t, k', e, c) = scheduler-Chosen (save_context k (running k) cpu.context) get_cpuid in
    (k', load_context k' t, rw (e, reschedule))

-- What a switch does: the registers go to the struct of the task that ran, whose flags and address
-- space stay, as does every other struct; the registers and the address space of the
-- task that is now current are loaded; and that task is the idle task or is marked as executable.
pub record Switched (k : Kernel) (cpu : Cpu) (k' : Kernel) (cpu' : Cpu) : Type 0 where
  pub saved :
      (q : TaskPtr)
      → k'.tasks q
        ≡ (if q == running k then record (k.tasks q) { context = cpu.context } else k.tasks q)
  pub loaded :
      (cpu'.context ≡ (k'.tasks (running k')).context)
      × (cpu'.ds ≡ cpu'.context.ss % 2 ^ 16)
      × (cpu'.cr3 ≡ (k'.tasks (running k')).address_space)
  pub runnable : (running k' ≡ k.idle_loop_task) ⊎ (can_execute (k'.tasks (running k')) ≡ true)
  pub same_idle : k'.idle_loop_task ≡ k.idle_loop_task

save_context-at :
    (k : Kernel) (p q : TaskPtr) (c : Context)
    → (save_context k p c).tasks q
      ≡ (if q == p then record (k.tasks q) { context = c } else k.tasks q)
unfolding save_context
save_context-at k p q c = elim (eq-cases q p) [
  | inl e ↦ rw (eq→== q p e, e)
  | inr ne ↦ rw (ne→== q p ne)
]

-- The kernel in which `scheduler` is called.
abbrev saved_kernel : Kernel → Cpu → Kernel
saved_kernel k cpu = save_context k (running k) cpu.context

reschedule-eq :
    (k : Kernel) (cpu : Cpu) {t : TaskPtr} {k₁ : Kernel}
    → scheduler (saved_kernel k cpu) get_cpuid ≡ some (t, k₁)
    → reschedule k cpu ≡ some (k₁, load_context k₁ t)
unfolding reschedule
reschedule-eq k cpu e = rw (e, reschedule)

same_idle_saved : (k : Kernel) (cpu : Cpu) → (saved_kernel k cpu).idle_loop_task ≡ k.idle_loop_task
unfolding save_context
same_idle_saved k cpu = refl

Dispatched-Switched :
    (k : Kernel) (cpu : Cpu) {t : TaskPtr} {k₁ : Kernel}
    → Dispatched (saved_kernel k cpu) get_cpuid t k₁
    → Switched k cpu k₁ (load_context k₁ t)
unfolding load_context
Dispatched-Switched k cpu {t} {k₁} d = record {
  saved = λ q. rw d.same_tasks (save_context-at k (running k) q cpu.context);
  loaded = (rw (d.current 0), refl, rw (d.current 0));
  runnable = elim d.executable [
    | inl e ↦ inl (d.current 0 ∙ e ∙ same_idle_saved k cpu)
    | inr (slot, lt, e, x) ↦ inr (rw (d.current 0, d.same_tasks) x)
  ];
  same_idle = d.same_idle ∙ same_idle_saved k cpu;
}

-- A context switch that returns stores the registers in the struct of the task that ran and
-- changes no other part of any task struct; the registers and cr3 of the new current task are
-- loaded, with DS the low 16 bits of SS; and that task is the idle task or is marked as
-- executable.
pub reschedule-Switched :
    (k : Kernel) (cpu : Cpu) {k' : Kernel} {cpu' : Cpu}
    → reschedule k cpu ≡ some (k', cpu')
    → Switched k cpu k' cpu'
reschedule-Switched k cpu {k'} {cpu'} e =
    let (t, k₁, e₁, c) = scheduler-Chosen (saved_kernel k cpu) get_cpuid in
    let d = scheduler-Dispatched (saved_kernel k cpu) get_cpuid e₁ in
    let at_k : k₁ ≡ k' = cc (sym (reschedule-eq k cpu e₁) ∙ e) in
    let at_cpu : load_context k₁ t ≡ cpu' = cc (sym (reschedule-eq k cpu e₁) ∙ e) in
    subst₂ (Switched k cpu) at_k at_cpu (Dispatched-Switched k cpu d)

module _ {k k' : Kernel} {cpu cpu' : Cpu} (s : Switched k cpu k' cpu') where
  pub Switched-self : (k'.tasks (running k)).context ≡ cpu.context
  Switched-self =
      ap (λ (x : Task). x.context) (s.saved (running k)) ∙ rw (eq→== (running k) (running k) refl)

  pub Switched-other : (q : TaskPtr) → q ≢ running k → k'.tasks q ≡ k.tasks q
  Switched-other q ne = s.saved q ∙ rw (ne→== q (running k) ne)

  -- A switch writes no flags.
  pub Switched-flags : (t : TaskPtr) → (k'.tasks t).task_flags ≡ (k.tasks t).task_flags
  Switched-flags t = ap (λ (x : Task). x.task_flags) (s.saved t) ∙ elim (eq-cases t (running k)) [
    | inl e ↦ rw (eq→== t (running k) e)
    | inr ne ↦ rw (ne→== t (running k) ne)
  ]

-- What may happen while the task `p` does not run: the running task computes, another task's flags
-- are written, and the CPU switches from a task that is not `p`.
pub data Elsewhere (p : TaskPtr) (k : Kernel) (cpu : Cpu) : Kernel → Cpu → Type 0 where
  start : Elsewhere p k cpu k cpu
  compute :
      {k' : Kernel} {cpu' : Cpu} (cpu'' : Cpu)
      → Elsewhere p k cpu k' cpu'
      → Elsewhere p k cpu k' cpu''
  wake :
      {k' : Kernel} {cpu' : Cpu} (q : TaskPtr)
      → Elsewhere p k cpu k' cpu'
      → Elsewhere p k cpu (resume k' q) cpu'
  switch :
      {k' k'' : Kernel} {cpu' cpu'' : Cpu}
      → Elsewhere p k cpu k' cpu'
      → running k' ≢ p
      → reschedule k' cpu' ≡ some (k'', cpu'')
      → Elsewhere p k cpu k'' cpu''

resume-context : (k : Kernel) (q p : TaskPtr) → ((resume k q).tasks p).context ≡ (k.tasks p).context
unfolding resume
resume-context k q p = elim (eq-cases p q) [
  | inl e ↦ rw (eq→== p q e, e)
  | inr ne ↦ rw (ne→== p q ne)
]

Elsewhere-context :
    (p : TaskPtr) {k : Kernel} {cpu : Cpu} {k' : Kernel} {cpu' : Cpu}
    → Elsewhere p k cpu k' cpu'
    → (k'.tasks p).context ≡ (k.tasks p).context
Elsewhere-context p start = refl
Elsewhere-context p (compute cpu'' run) = Elsewhere-context p run
Elsewhere-context p (wake {k'} q run) = resume-context k' q p ∙ Elsewhere-context p run
Elsewhere-context p (switch {k'} {cpu'} run ne e) =
    ap (λ (t : Task). t.context)
      (Switched-other (reschedule-Switched k' cpu' e) p (λ q. ne (sym q)))
    ∙ Elsewhere-context p run

-- If a context switch takes the CPU from the running task, others then compute, wake tasks and
-- switch among themselves, and a switch comes back to the task, then the registers are those of
-- the first switch.
pub reschedule_restores :
    (k : Kernel) (cpu : Cpu) {k₁ k₃ : Kernel} {cpu₁ cpu₃ : Cpu} (k₂ : Kernel) (cpu₂ : Cpu)
    → reschedule k cpu ≡ some (k₁, cpu₁)
    → Elsewhere (running k) k₁ cpu₁ k₂ cpu₂
    → running k₂ ≢ running k
    → reschedule k₂ cpu₂ ≡ some (k₃, cpu₃)
    → running k₃ ≡ running k
    → cpu₃.context ≡ cpu.context
reschedule_restores k cpu k₂ cpu₂ out run ne back again =
    let first = reschedule-Switched k cpu out in
    let last = reschedule-Switched k₂ cpu₂ back in
    last.loaded.0
    ∙ rw again (
        ap (λ (t : Task). t.context) (Switched-other last (running k) (λ q. ne (sym q)))
        ∙ Elsewhere-context (running k) run
        ∙ Switched-self first)
