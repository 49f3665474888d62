-- ===== src/Scheduler/Choice.antt =====
-- What `scheduler` picks: the upper half of the priorities first, then the lower half in turn.
use metal_to_app.Base.{ℕ, ◌+◌, ◌%◌, ◌<◌, ◌≡◌, ◌≢◌, some, ne→==, arith}
use metal_to_app.Scheduler.Task.{TaskPtr, null}
use metal_to_app.Scheduler.Select.{
  Kernel, half, task_at, scan_high, scan_round, set_current, scheduler,
}
use metal_to_app.Scheduler.Scan.{
  slot_behind, first_ready, scan_round-first_ready, NoneBefore, first_ready-found,
  first_ready-exhausted, scan_high-found, scan_high-null,
}

module _ (k : Kernel) (cpu : ℕ) where
  -- No task of the first half of the row can run.
  abbrev pub NoneHigh : Type 0
  NoneHigh = (m : ℕ) → m < half → task_at k cpu m ≡ null

  -- The place in the second half where the search begins.
  abbrev pub start : ℕ
  start = k.round_schedule % half

  -- What the function may return, with the globals after it: the first executable task of the first
  -- half; failing that, the first executable one among the 127 slots from `start` on, and the turn
  -- goes to the slot behind it; failing that, the idle task.
  pub data Chosen : TaskPtr → Kernel → Type 0 where
    high :
        (i : ℕ)
        → i < half
        → ((m : ℕ) → m < i → task_at k cpu m ≡ null)
        → task_at k cpu i ≢ null
        → Chosen (task_at k cpu i) (set_current k cpu (task_at k cpu i))
    turn :
        NoneHigh
        → (i : ℕ) → i < 127
        → NoneBefore k cpu start 0 i
        → task_at k cpu (slot_behind start i) ≢ null
        → Chosen (task_at k cpu (slot_behind start i)) (
            set_current
              (record k { round_schedule = (start + i) % half + 1 })
              cpu
              (task_at k cpu (slot_behind start i)))
    idle :
        NoneHigh
        → NoneBefore k cpu start 0 127
        → Chosen k.idle_loop_task (set_current k cpu k.idle_loop_task)

  second_loop_at :
      (stop place : ℕ)
      → stop ≡ (start + 127) % half
      → place ≡ (start + 0) % half
      → scan_round k cpu stop half place ≡ first_ready k cpu start 127 0
  second_loop_at stop place e e' =
      rw (e, e')
        (scan_round-first_ready k cpu start 127 half 0 (omega arith) (omega arith) (omega arith))

  second_loop :
      scan_round k cpu ((k.round_schedule + 127) % half) half start ≡ first_ready k cpu start 127 0
  second_loop = second_loop_at ((k.round_schedule + 127) % half) start (omega arith) (omega arith)

  high_null : NoneHigh → scan_high k cpu half 0 ≡ null
  high_null h = scan_high-null k cpu half 0 (λ m l lt. h m (omega arith))

  -- The first executable task of the first half runs, and the turn of the second half is kept.
  pub scheduler_priority :
      (i : ℕ)
      → i < half
      → ((m : ℕ) → m < i → task_at k cpu m ≡ null)
      → task_at k cpu i ≢ null
      → scheduler k cpu ≡ some (task_at k cpu i, set_current k cpu (task_at k cpu i))
  unfolding scheduler
  scheduler_priority i hi before ready = rw (
    scan_high-found k cpu half 0 i (omega arith) (omega arith) (λ m l h. before m h) ready,
    ne→== (task_at k cpu i) null ready,
  )

  -- With none there, the first executable task among the 127 slots from the turn on runs, and the
  -- turn goes to the slot behind it.
  pub scheduler_turn :
      NoneHigh
      → (i : ℕ) → i < 127
      → NoneBefore k cpu start 0 i
      → task_at k cpu (slot_behind start i) ≢ null
      → scheduler k cpu
        ≡ some (
          task_at k cpu (slot_behind start i),
          set_current
              (record k { round_schedule = (start + i) % half + 1 })
              cpu
              (task_at k cpu (slot_behind start i)),
        )
  unfolding scheduler
  scheduler_turn h i lt before ready = rw (
    high_null h,
    second_loop,
    first_ready-found k cpu start 127 0 i (omega arith) (omega arith) before ready,
  )

  -- With none in either, the idle task runs.
  pub scheduler_idle :
      NoneHigh
      → NoneBefore k cpu start 0 127
      → scheduler k cpu ≡ some (k.idle_loop_task, set_current k cpu k.idle_loop_task)
  unfolding scheduler
  scheduler_idle h before =
      rw (high_null h, second_loop, first_ready-exhausted k cpu start 127 0 before)
