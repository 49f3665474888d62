-- ===== src/Scheduler/Turn.antt =====
-- The second half of the priorities is served in turn: how long a task waits.
use metal_to_app.Base.{
  ℕ, zero, suc, ◌+◌, ◌-◌, ◌%◌, ◌≤◌, ◌<◌, ◌≡◌, ◌≢◌, refl, ◌⊎◌, inl, inr, some, eq-cases, lt-cases,
  first_nonzero, arith, ◌∙◌,
}
use mathlib.Core.Path.{subst, sym}
use metal_to_app.Scheduler.Task.{TaskPtr, null}
use metal_to_app.Scheduler.Select.{Kernel, half, task_at, set_current, scheduler}
use metal_to_app.Scheduler.Scan.{slot_behind}
use metal_to_app.Scheduler.Choice.{NoneHigh, start, scheduler_turn}

-- One of the next n + 1 calls of `scheduler` returns `t`.
pub data RunsWithin (cpu : ℕ) (t : TaskPtr) : ℕ → Kernel → Type 0 where
  now : {n : ℕ} {k k' : Kernel} → scheduler k cpu ≡ some (t, k') → RunsWithin cpu t n k
  later :
      {n : ℕ} {k k' : Kernel} (u : TaskPtr)
      → scheduler k cpu ≡ some (u, k')
      → RunsWithin cpu t n k'
      → RunsWithin cpu t (suc n) k

-- The number of slots that lie before `slot` when the search of the second half begins.
abbrev pub ahead : Kernel → ℕ → ℕ → ℕ
ahead k cpu place = (place + half - start k cpu) % half

pub task_at_same :
    (k : Kernel) (cpu r : ℕ) (t : TaskPtr) (slot : ℕ)
    → task_at (set_current (record k { round_schedule = r }) cpu t) cpu slot ≡ task_at k cpu slot
unfolding task_at
task_at_same k cpu r t slot = refl

after_turn : Kernel → ℕ → ℕ → Kernel
after_turn k cpu i =
    set_current (record k { round_schedule = (start k cpu + i) % half + 1 }) cpu
      (task_at k cpu (slot_behind (start k cpu) i))

-- One call: it returns the task at `place`, or a task that stands ahead of it.
turn_step :
    (k : Kernel) (cpu place : ℕ)
    → NoneHigh k cpu
    → place < half
    → ahead k cpu place < 127
    → task_at k cpu (half + place) ≢ null
    → ((k' : Kernel) × (scheduler k cpu ≡ some (task_at k cpu (half + place), k')))
      ⊎ ((i : ℕ) × (i < ahead k cpu place)
          × (scheduler k cpu
              ≡ some (task_at k cpu (slot_behind (start k cpu) i), after_turn k cpu i)))
unfolding after_turn
turn_step k cpu place h lt far ready =
    elim (first_nonzero (λ m. task_at k cpu (slot_behind (start k cpu) m)) 127 0) [
      | inr empty ↦ absurd (ready (rw (← at_place) (empty (ahead k cpu place) (omega arith) far)))
      | inl (i, lo, hi, before, there) ↦
          let e = scheduler_turn k cpu h i hi before there in
          elim (lt-cases i (ahead k cpu place)) [
            | inl less ↦ inr (i, less, e)
            | inr more ↦ elim (eq-cases i (ahead k cpu place)) [
              | inl same ↦
                  let b : slot_behind (start k cpu) i ≡ half + place = omega arith in
                  inl (_, rw b at e)
              | inr ne ↦
                  absurd (
                    ready
                      (rw (← at_place) (before (ahead k cpu place) (omega arith) (omega arith))))
            ]
          ]
    ]
  where
    at_place : slot_behind (start k cpu) (ahead k cpu place) ≡ half + place
    at_place = omega arith

-- While no task of slots 0 to 127 can run, an executable task of the second half of the row that
-- is not in the slot that the search leaves out is returned by one of the next d + 1 calls of
-- scheduler, where at most d slots lie ahead of it in the turn.
pub turn_comes :
    (d : ℕ) (k : Kernel) (cpu place : ℕ)
    → NoneHigh k cpu
    → place < half
    → ahead k cpu place ≤ d
    → ahead k cpu place < 127
    → task_at k cpu (half + place) ≢ null
    → RunsWithin cpu (task_at k cpu (half + place)) d k
unfolding after_turn
turn_comes zero k cpu place h lt le far ready = elim (turn_step k cpu place h lt far ready) [
  | inl (k', e) ↦ now e
  | inr (i, less, e) ↦ absurd (omega arith)
]
turn_comes (suc d) k cpu place h lt le far ready = elim (turn_step k cpu place h lt far ready) [
  | inl (k', e) ↦ now e
  | inr (i, less, e) ↦
      let closer : ahead (after_turn k cpu i) cpu place < ahead k cpu place = omega arith in
      let same = λ (s : ℕ).
        task_at_same k cpu ((start k cpu + i) % half + 1)
          (task_at k cpu (slot_behind (start k cpu) i)) s in
      later _ e (
        subst (λ t. RunsWithin cpu t d (after_turn k cpu i)) (same (half + place))
          (turn_comes d (after_turn k cpu i) cpu place (λ m l. same m ∙ h m l) lt (omega arith)
            (omega arith) (λ q. ready (sym (same (half + place)) ∙ q))))
]
