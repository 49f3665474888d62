-- ===== src/Keyboard/Session.antt =====
-- `keyboard_test_loop` over as many rounds as commands are queued.
use metal_to_app.Base.{
  ℕ, zero, suc, ◌≤◌, ◌==◌, ◌≡◌, refl, sym, ap, ◌∙◌, if◌then◌else◌, Bool, Bool-cases, inl, inr, true,
  false, ◌||◌, some, arith,
}
use mathlib.Core.Path.{subst}
use metal_to_app.Keyboard.Queue.{CommandQueue, front, pop, queue_length}
use metal_to_app.Keyboard.Fifo.{IsQueue}
use metal_to_app.Keyboard.Ports.{Ports, Answers, initps2}
use metal_to_app.Keyboard.Loop.{Keyboard, round, rounds, keyboard_test_loop}
use metal_to_app.Keyboard.Polite.{IsPolite, When-some}
use metal_to_app.Keyboard.Replies.{IsResponsive}
use metal_to_app.Keyboard.Setup.{initps2_lem}
use metal_to_app.Keyboard.Rounds.{round_lem, keyboard_test_loop-IsPolite}

-- A queue of at least `n` commands of at most two data bytes each.
record IsReady (n : ℕ) (q : CommandQueue) : Type 0 where
  queue : IsQueue q
  long : n ≤ queue_length q
  data_lengths : (j : ℕ) → (q.cells j).data_length ≤ 2

pop-IsReady : (n : ℕ) (q : CommandQueue) → IsReady (suc n) q → IsReady n (pop q)
unfolding pop queue_length
pop-IsReady n q h = record {
  queue = record { first_in = omega arith; last_in = h.queue.last_in };
  long = omega (arith, h.queue.first_in, h.queue.last_in, h.long);
  data_lengths = h.data_lengths;
}

after-IsReady :
    (n : ℕ) (b : Bool) (q : CommandQueue) → IsReady (suc n) q → IsReady n (if b then pop q else q)
after-IsReady n true q h = pop-IsReady n q h
after-IsReady n false q h = record {
  queue = h.queue;
  long = omega (arith, h.long);
  data_lengths = h.data_lengths;
}

rounds-on :
    (answers : Answers) (fuel n : ℕ) (k k' : Keyboard)
    → round answers fuel k ≡ some (true, k')
    → rounds answers fuel (suc n) k ≡ rounds answers fuel n k'
unfolding rounds
rounds-on answers fuel n k k' e = rw (e, rounds) refl

rounds-off :
    (answers : Answers) (fuel n : ℕ) (k k' : Keyboard)
    → round answers fuel k ≡ some (false, k')
    → rounds answers fuel (suc n) k ≡ some (false, k')
unfolding rounds
rounds-off answers fuel n k k' e = rw (e, rounds) refl

rounds_end :
    (answers : Answers) (fuel n : ℕ) (k : Keyboard)
    → IsResponsive answers fuel
    → IsReady n k.queue
    → (r : Bool × Keyboard) × (rounds answers fuel n k ≡ some r)
unfolding rounds front
rounds_end answers fuel zero k h ready = ((true, k), refl)
rounds_end answers fuel (suc n) k h ready =
    let (v, k', codes, run, only, did, queue) =
      round_lem answers fuel k h (λ e. omega (arith, e, ready.long))
        (ready.data_lengths k.queue.first) in
    elim (Bool-cases (v == 0xfa || v == 0xfe)) [
      | inl on ↦
          let ready' : IsReady n k'.queue =
            subst (IsReady n) (sym queue) (after-IsReady n (v == 0xfa) k.queue ready) in
          let (r, rest) = rounds_end answers fuel n k' h ready' in
          (r, rounds-on answers fuel n k k' (run ∙ ap (λ b. some (b, k')) on) ∙ rest)
      | inr off ↦ ((false, k'), rounds-off answers fuel n k k' (run ∙ ap (λ b. some (b, k')) off))
    ]

keyboard_test_loop-found :
    (answers : Answers) (fuel n : ℕ) (k : Keyboard) (s : Ports) (r : Bool × Keyboard)
    → initps2 answers fuel k.ports ≡ some s
    → rounds answers fuel n (record k { ports = s }) ≡ some r
    → keyboard_test_loop answers fuel n k ≡ some r
unfolding keyboard_test_loop
keyboard_test_loop-found answers fuel n k s r e₁ e₂ = rw (e₁, e₂, keyboard_test_loop) refl

-- With a controller as for initps2, and a queue whose indices are below 16, of n or more
-- commands with at most two data bytes each, initps2 and the first n rounds of
-- keyboard_test_loop end; every read of the data port comes directly behind a status with bit 0,
-- and every write to it directly behind a status without bit 1, if this was so before.
pub keyboard_test_loop_lem :
    (answers : Answers) (fuel n : ℕ) (k : Keyboard)
    → IsResponsive answers fuel
    → IsQueue k.queue
    → n ≤ queue_length k.queue
    → ((j : ℕ) → (k.queue.cells j).data_length ≤ 2)
    → IsPolite k.ports.events
    → (r : Bool × Keyboard) × (keyboard_test_loop answers fuel n k ≡ some r)
      × IsPolite r.1.ports.events
keyboard_test_loop_lem answers fuel n k h queue long small p =
    let (s, cc, test, stale, e₁, only, did, bits) = initps2_lem answers fuel k.ports h in
    let (r, e₂) =
      rounds_end answers fuel n (record k { ports = s }) h
        (record { queue = queue; long = long; data_lengths = small }) in
    let run = keyboard_test_loop-found answers fuel n k s r e₁ e₂ in
    (
      r,
      run,
      When-some _ (keyboard_test_loop answers fuel n k) r run
          (keyboard_test_loop-IsPolite answers fuel n k p),
    )
