-- ===== src/Scheduler/Starve.antt =====
-- A task that alone can run is not returned again: the search leaves one slot out.
use metal_to_app.Base.{ℕ, ◌+◌, ◌%◌, ◌<◌, ◌≡◌, ◌≢◌, refl, some, arith, ◌∙◌}
use mathlib.Core.Path.{subst, sym}
use metal_to_app.Scheduler.Task.{TaskPtr, null}
use metal_to_app.Scheduler.Select.{Kernel, half, slots, task_at, set_current, scheduler}
use metal_to_app.Scheduler.Scan.{slot_behind}
use metal_to_app.Scheduler.Choice.{start, scheduler_turn, scheduler_idle}
use metal_to_app.Scheduler.Turn.{ahead, task_at_same}

-- `k'` comes of `k` by calls of `scheduler`.
pub data Calls (cpu : ℕ) (k : Kernel) : Kernel → Type 0 where
  here : Calls cpu k k
  call :
      {k' k'' : Kernel} (t : TaskPtr)
      → Calls cpu k k'
      → scheduler k' cpu ≡ some (t, k'')
      → Calls cpu k k''

-- The only task of the row that can run stands in the slot just before the turn.
pub record IsAlone (cpu place : ℕ) (k : Kernel) : Type 0 where
  pub turn_behind : k.round_schedule ≡ place + 1
  pub others_blocked : (slot : ℕ) → slot < slots → slot ≢ half + place → task_at k cpu slot ≡ null

alone_idle :
    (cpu place : ℕ) (k : Kernel)
    → place < half
    → IsAlone cpu place k
    → scheduler k cpu ≡ some (k.idle_loop_task, set_current k cpu k.idle_loop_task)
alone_idle cpu place k lt alone =
    scheduler_idle k cpu (λ m l. alone.others_blocked m (omega arith) (omega arith))
      (λ m l u.
        alone.others_blocked (slot_behind (start k cpu) m) (omega arith)
          (omega (arith, alone.turn_behind)))

set_current-IsAlone :
    (cpu place : ℕ) (k : Kernel) (t : TaskPtr)
    → IsAlone cpu place k
    → IsAlone cpu place (set_current k cpu t)
set_current-IsAlone cpu place k t alone = record {
  turn_behind = alone.turn_behind;
  others_blocked = λ s l ne. task_at_same k cpu k.round_schedule t s ∙ alone.others_blocked s l ne;
}

Calls-IsAlone :
    (cpu place : ℕ) (k : Kernel)
    → place < half
    → IsAlone cpu place k
    → {k' : Kernel} → Calls cpu k k'
    → IsAlone cpu place k' × (k'.idle_loop_task ≡ k.idle_loop_task)
Calls-IsAlone cpu place k lt alone here = (alone, refl)
Calls-IsAlone cpu place k lt alone (call {k'} {k''} t c e) =
    let (before, same) = Calls-IsAlone cpu place k lt alone c in
    let after : set_current k' cpu k'.idle_loop_task ≡ k'' =
      cc (sym (alone_idle cpu place k' lt before) ∙ e) in
    subst (λ (q : Kernel). IsAlone cpu place q × (q.idle_loop_task ≡ k.idle_loop_task)) after
      (set_current-IsAlone cpu place k' k'.idle_loop_task before, same)

-- A task of the second half that alone can run, outside the slot that the search leaves out, is
-- returned by the next call of scheduler, and every call after that one, however many were made,
-- returns the idle task.
pub sole_task_runs_once :
    (k : Kernel) (cpu place : ℕ)
    → place < half
    → ahead k cpu place < 127
    → task_at k cpu (half + place) ≢ null
    → ((slot : ℕ) → slot < slots → slot ≢ half + place → task_at k cpu slot ≡ null)
    → {t : TaskPtr} {k₁ k₂ : Kernel} → scheduler k cpu ≡ some (t, k₁)
    → Calls cpu k₁ k₂
    → (t ≡ task_at k cpu (half + place))
      × ((k₃ : Kernel) × (scheduler k₂ cpu ≡ some (k.idle_loop_task, k₃)))
sole_task_runs_once k cpu place lt far ready blocked {t} {k₁} {k₂} e c =
    let at_t : task_at k cpu (half + place) ≡ t = cc (sym first ∙ e) in
    let at_k : after ≡ k₁ = cc (sym first ∙ e) in
    let (still, same) = Calls-IsAlone cpu place k₁ lt (subst (IsAlone cpu place) at_k alone) c in
    let idle_same : k₁.idle_loop_task ≡ k.idle_loop_task = rw (← at_k) in
    (
      sym at_t,
      (
        set_current k₂ cpu k₂.idle_loop_task,
        cc (alone_idle cpu place k₂ lt still, same, idle_same),
      ),
    )
  where
    i : ℕ
    i = ahead k cpu place

    b : slot_behind (start k cpu) i ≡ half + place
    b = omega arith

    after : Kernel
    after =
        set_current (record k { round_schedule = (start k cpu + i) % half + 1 }) cpu
          (task_at k cpu (half + place))

    first : scheduler k cpu ≡ some (task_at k cpu (half + place), after)
    first = rw b at (
        scheduler_turn k cpu (λ m l. blocked m (omega arith) (omega arith)) i far
          (λ m l u. blocked (slot_behind (start k cpu) m) (omega arith) (omega arith))
          (λ q. ready (rw (← b) q)))

    alone : IsAlone cpu place after
    alone = record {
      turn_behind = omega arith;
      others_blocked = λ s l ne.
          task_at_same k cpu ((start k cpu + i) % half + 1) (task_at k cpu (half + place)) s
          ∙ blocked s l ne;
    }
