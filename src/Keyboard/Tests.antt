-- ===== src/Keyboard/Tests.antt =====
-- The theorems about the keyboard at concrete bytes and queues.
use metal_to_app.Base.{
  ℕ, ◌≡◌, ◌≢◌, ◌==◌, if◌then◌else◌, refl, true, false, some, List, [], ◌∷◌, ◌++◌, pos, arith,
}
use metal_to_app.Base.{
  ◌+◌, ◌*◌, ◌%◌, ◌<◌, ◌≤◌, ◌⊎◌, inl, inr, ltb, lt-cases, test_bit, Bool, ◌&&◌, ◌||◌,
}
use metal_to_app.Keyboard.Ports.{Ports, Answers, initps2, configured}
use metal_to_app.Keyboard.Loop.{Keyboard, round, keyboard_test_loop}
use metal_to_app.Keyboard.Polite.{Transfer, took, gave, commanded, OnlyTook, IsPolite, Did}
use metal_to_app.Keyboard.Replies.{IsResponsive}
use metal_to_app.Keyboard.Setup.{initps2_lem}
use metal_to_app.Keyboard.Rounds.{round_lem}
use metal_to_app.Keyboard.Session.{keyboard_test_loop_lem}
use metal_to_app.Keyboard.Tables.{single_codes, extended_codes}
use metal_to_app.Keyboard.Keys.{key_z, key_end}
use metal_to_app.Keyboard.Decode.{Decoded, negate, switch, ps2_set2_to_usb, process_scancode}
use metal_to_app.Keyboard.Presses.{
  events, feed, process_scancode_lem, single_press_release, extended_press_release,
}
use metal_to_app.Keyboard.Distinct.{single_codes_distinct}
use metal_to_app.Keyboard.Queue.{Command, CommandQueue, push, halts, front, pop, queue_length}
use metal_to_app.Keyboard.Fifo.{
  IsQueue, window, contents, Pushed, push_refines, front-pop, pop-empty,
}

process_scancode_lem_example :
    (d : Decoded) × (ps2_set2_to_usb 2 0xF01A ≡ some d)
    × (process_scancode 0xF0 0x1A ≡ some (events d.0, d.1))
process_scancode_lem_example = process_scancode_lem 0xF0 0x1A

single_press_release_example :
    (feed (0x1A ∷ []) 0 ≡ some (events (pos (switch single_codes 0x1A)), 0))
    × (feed (0xF0 ∷ 0x1A ∷ []) 0 ≡ some (events (negate (pos (switch single_codes 0x1A))), 0))
single_press_release_example = single_press_release 0x1A (omega arith) refl

extended_press_release_example :
    (feed (0xE0 ∷ 0x69 ∷ []) 0 ≡ some (events (pos (switch extended_codes 0xE069)), 0))
    × (feed (0xE0 ∷ 0xF0 ∷ 0x69 ∷ []) 0
        ≡ some (events (negate (pos (switch extended_codes 0xE069))), 0))
extended_press_release_example = extended_press_release 0x69 (omega arith) refl

-- The codes of the two keys.
codes : (switch single_codes 0x1A ≡ key_z) × (switch extended_codes 0xE069 ≡ key_end)
unfolding switch
codes = (refl, refl)

z_is_a_key : switch single_codes 0x1A ≢ 0
unfolding switch
z_is_a_key e = omega (arith, e)

single_codes_distinct_example : ◌≡◌ {A = ℕ} 0x1A 0x1A
single_codes_distinct_example =
    single_codes_distinct 0x1A 0x1A (omega arith) (omega arith) (omega arith) (omega arith)
      z_is_a_key refl

abbrev set_leds : Command
set_leds = record { command = 0xED; data_length = 1; data_bytes = (2, 0) }

abbrev set_rate : Command
set_rate = record { command = 0xF3; data_length = 1; data_bytes = (0, 0) }

-- A queue that goes round: the cells 15 and 0 are in use.
abbrev round_queue : CommandQueue
round_queue = record { cells = λ i. if i == 15 then set_leds else set_rate; first = 15; last = 1 }

round_queue-IsQueue : IsQueue round_queue
round_queue-IsQueue = record { first_in = omega arith; last_in = omega arith }

round_contents : contents round_queue ≡ set_leds ∷ set_rate ∷ []
unfolding queue_length
round_contents = refl

push_refines_example : Pushed round_queue set_leds (push set_leds round_queue)
push_refines_example = push_refines set_leds round_queue round_queue-IsQueue

front-pop_example :
    (contents round_queue ≡ front round_queue ∷ contents (pop round_queue))
    × IsQueue (pop round_queue)
    × (halts round_queue ≡ false)
front-pop_example = front-pop round_queue round_queue-IsQueue (omega arith)

abbrev empty_queue : CommandQueue
empty_queue = record { cells = λ i. if i == 3 then set_leds else set_rate; first = 15; last = 15 }

pop-empty_example :
    (queue_length empty_queue ≡ 0)
    × IsQueue (pop empty_queue)
    × (queue_length (pop empty_queue) ≡ 15)
    × (contents (pop empty_queue) ≡ window empty_queue.cells 0 15)
pop-empty_example =
    pop-empty empty_queue (record { first_in = omega arith; last_in = omega arith }) refl

-- A controller that takes each byte, has two bytes to give at every other pair of reads, and acknowledges.
abbrev acknowledging : Answers
acknowledging = λ n port. if port == 0x64 then (if ltb (n % 4) 2 then 0 else 1) else 0xfa

acknowledging-IsResponsive : IsResponsive acknowledging 3
acknowledging-IsResponsive = record {
  takes = λ n. (0, omega arith, ground arith);
  gives = λ n. if_gives n (lt-cases (n % 4) 2);
  empties = λ n. if_empties n (lt-cases (n % 4) 2);
}
  where
    if_gives :
        (n : ℕ)
        → (n % 4 < 2) ⊎ (2 ≤ n % 4)
        → (k : ℕ) × (k < 3) × (test_bit (acknowledging (n + k) 0x64 % 256) 0 ≡ true)
    if_gives n (inl lt) = (2, omega arith, ground arith)
    if_gives n (inr le) = (0, omega arith, ground arith)

    if_empties :
        (n : ℕ)
        → (n % 4 < 2) ⊎ (2 ≤ n % 4)
        → (k : ℕ) × (k < 3) × (test_bit (acknowledging (n + 2 * k) 0x64 % 256) 0 ≡ false)
    if_empties n (inl lt) = (0, omega arith, ground arith)
    if_empties n (inr le) = (1, omega arith, ground arith)

-- The command 0xED with one byte of data.
abbrev lights : Command
lights = record { command = 0xed; data_length = 1; data_bytes = (7, 0) }

abbrev driver : Keyboard
driver = record {
  queue = record { cells = λ j. lights; first = 3; last = 5 };
  code_buffer = 0;
  ports = record { reads = 0; events = [] };
}

initps2_lem_example :
    (s' : Ports) × (cc test : ℕ) × (stale : List Transfer) × (initps2 acknowledging 3 driver.ports
      ≡ some s')
    × OnlyTook stale
    × Did acknowledging
        (commanded 0xae
          ∷ took test
          ∷ commanded 0xaa
          ∷ gave (configured cc)
          ∷ commanded 0x60
          ∷ took cc
          ∷ commanded 0x20
          ∷ (stale ++ (commanded 0xa7 ∷ commanded 0xad ∷ [])))
        driver.ports
        s'
    × ((b : ℕ) → b < 8 → test_bit (configured cc) b ≡ (test_bit cc b && test_bit 0x34 b))
initps2_lem_example = initps2_lem acknowledging 3 driver.ports acknowledging-IsResponsive

round_lem_example :
    (v : ℕ) × (k' : Keyboard) × (codes : List Transfer) × (round acknowledging 3 driver
      ≡ some (v == 0xfa || v == 0xfe, k'))
    × OnlyTook codes
    × Did acknowledging (took v ∷ gave 7 ∷ gave 0xed ∷ codes) driver.ports k'.ports
    × (k'.queue ≡ (if v == 0xfa then pop driver.queue else driver.queue))
unfolding front queue_length
round_lem_example =
    round_lem acknowledging 3 driver acknowledging-IsResponsive (λ e. omega (arith, e))
      (omega arith)

keyboard_test_loop_lem_example :
    (r : Bool × Keyboard) × (keyboard_test_loop acknowledging 3 2 driver ≡ some r)
    × IsPolite r.1.ports.events
unfolding queue_length
keyboard_test_loop_lem_example =
    keyboard_test_loop_lem acknowledging 3 2 driver acknowledging-IsResponsive
      (record { first_in = omega arith; last_in = omega arith }) (omega arith) (λ j. omega arith) tt
