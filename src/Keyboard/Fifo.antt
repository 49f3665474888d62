-- ===== src/Keyboard/Fifo.antt =====
-- The command queue against a list of at most fifteen commands.
use metal_to_app.Base.{
  ℕ, zero, suc, ◌+◌, ◌-◌, ◌%◌, ◌<◌, ◌≡◌, ◌≢◌, ap, ◌∙◌, inl, inr, ◌==◌, if◌then◌else◌, false, Option,
  none, some, List, [], ◌∷◌, ◌++◌, eq→==, ne→==, eq-cases, arith,
}
use mathlib.Core.Path.{ap₂}
use metal_to_app.Keyboard.Queue.{Command, CommandQueue, push, halts, front, pop, queue_length}

pub record IsQueue (q : CommandQueue) : Type 0 where
  pub first_in : q.first < 16
  pub last_in : q.last < 16

-- The `n` cells from `h` on, going round.
abbrev pub window : (ℕ → Command) → ℕ → ℕ → List Command
window cells h zero = []
window cells h (suc n) = cells h ∷ window cells ((h + 1) % 16) n

abbrev pub contents : CommandQueue → List Command
contents q = window q.cells q.first (queue_length q)

-- Writing the cell behind a window extends it.
window-put :
    (cells : ℕ → Command) (cmd : Command) (i n h : ℕ)
    → h < 16
    → n < 16
    → i ≡ (h + n) % 16
    → window (λ j. if j == i then cmd else cells j) h (suc n) ≡ window cells h n ++ (cmd ∷ [])
window-put cells cmd i zero h hh hn e = rw (eq→== h i (omega arith))
window-put cells cmd i (suc n) h hh hn e = rw (
  ne→== h i (omega arith),
  window-put cells cmd i n ((h + 1) % 16) (omega arith) (omega arith) (omega arith),
)

-- The outcome of a push: panic exactly at fifteen commands, and else the command at the back.
abbrev pub Pushed : CommandQueue → Command → Option CommandQueue → Type 0
Pushed q cmd none = queue_length q ≡ 15
Pushed q cmd (some q') =
    (queue_length q < 15) × IsQueue q' × (contents q' ≡ contents q ++ (cmd ∷ []))

-- On a command queue whose indices are below 16, push panics exactly when fifteen commands are
-- queued; else the contents are the old contents with the command behind them.
pub push_refines : (cmd : Command) (q : CommandQueue) → IsQueue q → Pushed q cmd (push cmd q)
unfolding push queue_length
push_refines cmd q v = elim (eq-cases ((q.last + 1) % 16) q.first) [
  | inl e ↦ rw (eq→== ((q.last + 1) % 16) q.first e) (omega arith)
  | inr ne ↦ rw (ne→== ((q.last + 1) % 16) q.first ne) (
    omega arith,
    record { first_in = v.first_in; last_in = omega arith },
    ap (window (λ j. if j == q.last then cmd else q.cells j) q.first) (longer ne)
        ∙ window-put q.cells cmd q.last ((q.last + 16 - q.first) % 16) q.first v.first_in
            (omega arith) (omega arith),
  )
]
  where
    longer :
        (q.last + 1) % 16 ≢ q.first
        → ((q.last + 1) % 16 + 16 - q.first) % 16 ≡ suc ((q.last + 16 - q.first) % 16)
    longer ne = omega arith

window_step :
    (cells : ℕ → Command) (h n : ℕ)
    → 0 < n
    → window cells h n ≡ cells h ∷ window cells ((h + 1) % 16) (n - 1)
window_step cells h zero pos = absurd (omega arith)
window_step cells h (suc n) pos = ap (λ k. window cells h (suc k)) (omega arith)

-- On a command queue whose indices are below 16 and differ, the contents are the front command
-- followed by the contents after pop, whose indices are below 16 again, and neither operation
-- halts.
pub front-pop :
    (q : CommandQueue)
    → IsQueue q
    → q.first ≢ q.last
    → (contents q ≡ front q ∷ contents (pop q)) × IsQueue (pop q) × (halts q ≡ false)
unfolding front pop queue_length
front-pop q v ne = (
  window_step q.cells q.first ((q.last + 16 - q.first) % 16) (omega arith)
      ∙ ap (λ n. q.cells q.first ∷ n) (ap₂ (window q.cells) (omega arith) (omega arith)),
  record { first_in = omega arith; last_in = v.last_in },
  ne→== q.first q.last ne,
)

-- An empty command queue whose indices are below 16 has length 0, and pop of it, behind the
-- instruction hlt, leaves a queue whose indices are below 16 again and whose contents are
-- fifteen commands: the cells behind the first one, going round.
pub pop-empty :
    (q : CommandQueue)
    → IsQueue q
    → q.first ≡ q.last
    → (queue_length q ≡ 0)
      × IsQueue (pop q)
      × (queue_length (pop q) ≡ 15)
      × (contents (pop q) ≡ window q.cells ((q.first + 1) % 16) 15)
unfolding pop queue_length
pop-empty q v e = (
  omega arith,
  record { first_in = omega arith; last_in = v.last_in },
  omega arith,
  ap₂ (window q.cells) {y = (q.first + 1) % 16} {v = 15} (omega arith) (omega arith),
)
