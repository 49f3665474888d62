-- ===== src/Scheduler/Select.antt =====
-- The scheduling vector and the function `scheduler`, which picks the next task.
use metal_to_app.Base.{
  ℕ, zero, suc, ◌+◌, ◌-◌, ◌%◌, ◌==◌, ltb, if◌then◌else◌, not, ◌&&◌, Option, none, some, ℤ,
}
use metal_to_app.Scheduler.Task.{Task, TaskPtr, null, can_execute, resume_flags}

-- `struct scheduling_entry`.
pub record SchedulingEntry : Type 0 where
  pub flags : ℕ
  pub task : TaskPtr

-- The globals of scheduler.c: the two tables by CPU, the static `round_schedule` of `scheduler`,
-- the task structs, the address of `idle_loop_task`, and memory.c's `kernel_address_space`.
-- They are values beside the memory of the other parts.
pub record Kernel : Type 0 where
  pub current_task_table : ℕ → TaskPtr
  pub scheduling_vector : ℕ → ℕ → SchedulingEntry
  pub round_schedule : ℕ
  pub tasks : TaskPtr → Task
  pub idle_loop_task : TaskPtr
  pub kernel_address_space : ℕ

-- The slots of one row of the vector, and those of each half.
abbrev pub slots : ℕ
slots = 256

abbrev pub half : ℕ
half = 128

unfoldable pub get_if_can_execute : Kernel → SchedulingEntry → TaskPtr
get_if_can_execute k entry =
    if not (entry.task == null) && can_execute (k.tasks entry.task) then entry.task else null

unfoldable pub task_at : Kernel → ℕ → ℕ → TaskPtr
unfolding get_if_can_execute
task_at k cpu slot = get_if_can_execute k (k.scheduling_vector cpu slot)

-- The first loop of `scheduler`, with `n` slots left from `slot` on; `pos` there is `slot - 128`.
unfoldable pub scan_high : Kernel → ℕ → ℕ → ℕ → TaskPtr
unfolding task_at
scan_high k cpu zero slot = null
scan_high k cpu (suc n) slot =
    let rest = scan_high k cpu n (slot + 1) in
    let next_task = task_at k cpu slot in if next_task == null then rest else next_task

-- What the second loop comes to.
pub data Pick : Type 0 where
  found : TaskPtr → ℕ → Pick
  exhausted : Pick
  out_of_fuel : Pick

-- The second loop of `scheduler`, on fuel: from `pos` round the 128 slots, up to `stop`.
unfoldable pub scan_round : Kernel → ℕ → ℕ → ℕ → ℕ → Pick
unfolding task_at
scan_round k cpu stop zero pos = out_of_fuel
scan_round k cpu stop (suc fuel) pos =
    let rest = scan_round k cpu stop fuel ((pos + 1) % half) in
    let next_task = task_at k cpu (half + pos) in
    if pos == stop then exhausted else if next_task == null then rest else found next_task pos

abbrev pub set_current : Kernel → ℕ → TaskPtr → Kernel
set_current k cpu t = record k {
  current_task_table = λ c. if c == cpu then t else k.current_task_table c;
}

abbrev pub dispatch : Kernel → ℕ → Pick → Option (TaskPtr × Kernel)
dispatch k cpu (found t pos) = some (t, set_current (record k { round_schedule = pos + 1 }) cpu t)
dispatch k cpu exhausted = some (k.idle_loop_task, set_current k cpu k.idle_loop_task)
dispatch k cpu out_of_fuel = none

-- `scheduler(cpu_id)`: the task that it returns and the globals after it. `none` would be a second
-- loop that has not ended after 128 rounds. `round_schedule` is at most 128 here, so that the
-- int16_t arithmetic of the source is that of ℕ.
unfoldable pub scheduler : Kernel → ℕ → Option (TaskPtr × Kernel)
unfolding scan_high scan_round
scheduler k cpu =
    let next_task = scan_high k cpu half 0 in
    let r = k.round_schedule in
    let second = dispatch k cpu (scan_round k cpu ((r + 127) % half) half (r % half)) in
    if next_task == null then second else some (next_task, set_current k cpu next_task)

unfoldable pub set_task : Kernel → TaskPtr → Task → Kernel
set_task k p t = record k { tasks = λ q. if q == p then t else k.tasks q }

-- `resume`.
unfoldable pub resume : Kernel → TaskPtr → Kernel
unfolding set_task resume_flags
resume k p = set_task k p (resume_flags (k.tasks p))

-- The index `128 + priority` into the row of CPU 0; `none` outside of the row, which the source does
-- not check.
unfoldable pub slot_of : ℤ → Option ℕ
slot_of (ℤ.pos n) = if ltb n half then some (half + n) else none
slot_of (ℤ.negsuc n) = if ltb n half then some (half - 1 - n) else none

-- `schedule` at an index of the row: the old entry and the globals after it.
unfoldable pub schedule_at : Kernel → ℕ → TaskPtr → ℕ → SchedulingEntry × Kernel
schedule_at k slot task flags =
    (k.scheduling_vector 0 slot, record k { scheduling_vector = vector })
  where
    vector : ℕ → ℕ → SchedulingEntry
    vector c s =
        if c == 0 && (s == slot)
        then record { flags = flags; task = task }
        else k.scheduling_vector c s

-- `schedule`; `none` stands for the access out of the row.
unfoldable pub schedule : Kernel → ℤ → TaskPtr → ℕ → Option (SchedulingEntry × Kernel)
unfolding slot_of schedule_at
schedule k priority task flags = elim (slot_of priority) [
  | none ↦ none
  | some slot ↦ some (schedule_at k slot task flags)
]
