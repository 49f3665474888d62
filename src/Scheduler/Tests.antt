-- ===== src/Scheduler/Tests.antt =====
-- The theorems about the scheduler at small kernels.
use metal_to_app.Base.{
  ℕ, ◌+◌, ◌<◌, ◌≡◌, ◌≢◌, refl, ◌==◌, if◌then◌else◌, none, some, false, arith, ◌/◌,
}
use metal_to_app.Scheduler.Task.{Context, Task, TaskPtr, null, can_execute}
use metal_to_app.Scheduler.Select.{
  Kernel, SchedulingEntry, half, slots, task_at, set_current, scheduler,
}
use metal_to_app.Scheduler.Switch.{Cpu, reschedule, suspend}
use metal_to_app.Scheduler.Choice.{Chosen, NoneHigh}
use metal_to_app.Scheduler.Total.{Dispatched, scheduler-Chosen, scheduler-Dispatched}
use metal_to_app.Scheduler.Turn.{RunsWithin, turn_comes}
use metal_to_app.Scheduler.Starve.{here, sole_task_runs_once}
use metal_to_app.Scheduler.Yield.{
  running, Switched, reschedule-Switched, start, reschedule_restores,
}
use metal_to_app.Scheduler.Suspend.{target, suspend_blocks}

abbrev pub registers : ℕ → Context
registers n = record {
  ss = n;
  rsp = n;
  rflags = n;
  cs = n;
  rip = n;
  rbp = n;
  rax = n;
  rbx = n;
  rcx = n;
  rdx = n;
  rsi = n;
  rdi = n;
  r8 = n;
  r9 = n;
  r10 = n;
  r11 = n;
  r12 = n;
  r13 = n;
  r14 = n;
  r15 = n;
}

abbrev pub ready_task : ℕ → Task
ready_task p = record { context = registers p; task_flags = 1; address_space = 0x5000 }

abbrev entry : ℕ → SchedulingEntry
entry p = record { flags = 0; task = p }

-- The task 7 at priority 3 alone; 100 is the idle task, and runs.
abbrev pub sole : Kernel
sole = record {
  current_task_table = λ c. 100;
  scheduling_vector = λ c s. if s == 131 then entry 7 else entry 0;
  round_schedule = 0;
  tasks = ready_task;
  idle_loop_task = 100;
  kernel_address_space = 0x5000;
}

-- Beside it the task 5 at priority 4, which runs.
abbrev pair : Kernel
pair = record sole {
  current_task_table = λ c. 5;
  scheduling_vector = λ c s. if s == 131 then entry 7 else if s == 132 then entry 5 else entry 0;
}

abbrev cpu : Cpu
cpu = record { context = registers 42; ds = 16; cr3 = 0x5000 }

blocked : (slot : ℕ) → slot < slots → slot ≢ half + 3 → task_at sole 0 slot ≡ null
unfolding task_at
blocked slot lt ne = ground arith

none_high : NoneHigh sole 0
none_high m lt = blocked m (omega arith) (omega arith)

ready : task_at sole 0 (half + 3) ≢ null
unfolding task_at
ready = ground arith

first : scheduler sole 0 ≡ some (7, set_current (record sole { round_schedule = 4 }) 0 7)
unfolding scheduler
first = refl

scheduler-Chosen_example :
    (t : TaskPtr) × (k' : Kernel) × (scheduler sole 0 ≡ some (t, k')) × Chosen sole 0 t k'
scheduler-Chosen_example = scheduler-Chosen sole 0

scheduler-Dispatched_example :
    Dispatched sole 0 7 (set_current (record sole { round_schedule = 4 }) 0 7)
scheduler-Dispatched_example = scheduler-Dispatched sole 0 first

turn_comes_example : RunsWithin 0 (task_at sole 0 (half + 3)) 3 sole
turn_comes_example = turn_comes 3 sole 0 3 none_high (omega arith) (omega arith) (omega arith) ready

sole_task_runs_once_example :
    (7 ≡ task_at sole 0 (half + 3))
    × ((k₃ : Kernel) × (scheduler (set_current (record sole { round_schedule = 4 }) 0 7) 0
          ≡ some (100, k₃)))
sole_task_runs_once_example =
    sole_task_runs_once sole 0 3 (omega arith) (omega arith) ready blocked first here

-- The kernel and the CPU behind a switch.
behind : Kernel → Cpu → Kernel × Cpu
unfolding reschedule scheduler
behind k c = elim (reschedule k c) [ none ↦ (k, c) | some p ↦ p ]

abbrev one : Kernel × Cpu
one = behind pair cpu

abbrev two : Kernel × Cpu
two = behind one.0 one.1

switch_one : reschedule pair cpu ≡ some one
unfolding behind
switch_one = refl

switch_two : reschedule one.0 one.1 ≡ some two
unfolding behind
switch_two = refl

who_runs : (running one.0 ≡ 7) × (running two.0 ≡ 5)
unfolding behind
who_runs = (refl, refl)

reschedule-Switched_example : Switched pair cpu one.0 one.1
reschedule-Switched_example = reschedule-Switched pair cpu switch_one

reschedule_restores_example : two.1.context ≡ cpu.context
reschedule_restores_example =
    reschedule_restores pair cpu one.0 one.1 switch_one start (λ e. omega (arith, who_runs))
      switch_two who_runs.1

suspend_blocks_example :
    (k' : Kernel) × (cpu' : Cpu) × (suspend pair cpu null ≡ some (k', cpu'))
    × (can_execute (k'.tasks (target pair null)) ≡ false)
    × ((k'.tasks (target pair null)).task_flags / 2
        ≡ (pair.tasks (target pair null)).task_flags / 2)
    × (running k' ≢ target pair null)
suspend_blocks_example = suspend_blocks pair cpu null (λ e. omega arith)
