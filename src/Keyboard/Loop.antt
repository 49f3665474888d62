-- ===== src/Keyboard/Loop.antt =====
-- `keyboard_test_loop` of keyboard.c: scan codes are read and decoded, and the commands of the queue sent.
use metal_to_app.Base.{
  ℕ, zero, suc, ◌+◌, ◌-◌, ◌%◌, ◌^◌, ◌==◌, if◌then◌else◌, Bool, true, false, Option, none, some,
  List, [], ◌∷◌, ℤ, pos, negsuc, test_bit,
}
use metal_to_app.Keyboard.Decode.{process_scancode}
use metal_to_app.Keyboard.Queue.{Command, CommandQueue, halts, front, pop, queue_length}
use metal_to_app.Keyboard.Ports.{
  print, println, printhex, hlt, Ports, Answers, does, inb, ps2data, ps2_read_spin, initps2,
}

-- The queue of commands, the static `codeBuffer` of `processScancode`, and the ports.
pub record Keyboard : Type 0 where
  pub queue : CommandQueue
  pub code_buffer : ℕ
  pub ports : Ports

-- A key as `uint16_t`.
abbrev pub usb_word : ℤ → ℕ
usb_word (pos n) = n % 2 ^ 16
usb_word (negsuc n) = 2 ^ 16 - 1 - n % 2 ^ 16

-- `processUsbCode` for each code in order.
unfoldable pub process_usb_codes : List ℤ → Ports → Ports
process_usb_codes [] s = s
process_usb_codes (key ∷ keys) s =
    process_usb_codes keys (does (println "") (does (printhex (usb_word key)) s))

-- The loop that reads scan codes.
unfoldable pub read_codes : Answers → ℕ → Keyboard → Option Keyboard
read_codes answers zero k = none
read_codes answers (suc fuel) k =
    let (status, s) = inb answers 0x64 k.ports in
    let (scan_code, s') = inb answers 0x60 s in
    let more : Option Keyboard = elim (process_scancode k.code_buffer scan_code) [
      | none ↦ none
      | some (keys, buffer) ↦
          read_codes answers fuel
            (record k { code_buffer = buffer; ports = process_usb_codes keys s' })
    ] in
    if test_bit status 0 then more else some (record k { ports = s })

-- The loop around it, which ends when a command is in the queue.
unfoldable pub await_command : Answers → ℕ → ℕ → Keyboard → Option Keyboard
await_command answers fuel zero k = none
await_command answers fuel (suc rounds) k = elim (read_codes answers fuel k) [
  | none ↦ none
  | some k' ↦
      let again = await_command answers fuel rounds k' in
      if queue_length k'.queue == 0 then again else some k'
]

-- A byte of `data`; there are two.
abbrev pub data_byte : ℕ → Command → Option ℕ
data_byte i cmd =
    if i == 0 then some cmd.data_bytes.0 else if i == 1 then some cmd.data_bytes.1 else none

-- The loop over the data of a command, of which `n` bytes from `i` on are left.
unfoldable pub send_data : Answers → ℕ → ℕ → ℕ → Command → Ports → Option Ports
send_data answers fuel zero i cmd s = some s
send_data answers fuel (suc n) i cmd s = elim (data_byte i cmd) [
  | none ↦ none
  | some byte ↦ elim (ps2data answers fuel byte s) [
    | none ↦ none
    | some s' ↦ send_data answers fuel n (i + 1) cmd s'
  ]
]

-- A command is sent, and the result read.
unfoldable pub send_command : Answers → ℕ → Command → Ports → Option (ℕ × Ports)
send_command answers fuel cmd s = elim (ps2data answers fuel cmd.command s) [
  | none ↦ none
  | some s₁ ↦ elim (send_data answers fuel cmd.data_length 0 cmd s₁) [
    | none ↦ none
    | some s₂ ↦ ps2_read_spin answers fuel s₂
  ]
]

-- The `hlt` of `kbdCommandQueueFront` and `kbdCommandQueuePop` where the queue is empty.
abbrev pub wait_if_empty : Keyboard → Keyboard
wait_if_empty k = record k { ports = if halts k.queue then does hlt k.ports else k.ports }

-- What comes of the result of a command; `false` when the loop returns.
unfoldable pub finish_command : ℕ → Keyboard → Bool × Keyboard
finish_command result k =
    if result == 0xfa
    then (true, record k { queue = pop k.queue; ports = (wait_if_empty k).ports })
    else if result == 0xfe
    then (true, k)
    else (
      false,
      record k {
        ports =
            does hlt (does (printhex result) (does (print "unknown byte from keyboard") k.ports));
      },
    )

-- A round of the endless loop.
unfoldable pub round : Answers → ℕ → Keyboard → Option (Bool × Keyboard)
round answers fuel k = elim (await_command answers fuel fuel k) [
  | none ↦ none
  | some k' ↦ elim (send_command answers fuel (front k'.queue) (wait_if_empty k').ports) [
    | none ↦ none
    | some (result, s) ↦ some (finish_command result (record k' { ports = s }))
  ]
]

-- The first `n` rounds, or fewer when the loop returns.
unfoldable pub rounds : Answers → ℕ → ℕ → Keyboard → Option (Bool × Keyboard)
rounds answers fuel zero k = some (true, k)
rounds answers fuel (suc n) k = elim (round answers fuel k) [
  | none ↦ none
  | some (true, k') ↦ rounds answers fuel n k'
  | some (false, k') ↦ some (false, k')
]

-- `keyboard_test_loop`.
unfoldable pub keyboard_test_loop : Answers → ℕ → ℕ → Keyboard → Option (Bool × Keyboard)
keyboard_test_loop answers fuel n k = elim (initps2 answers fuel k.ports) [
  | none ↦ none
  | some s ↦ rounds answers fuel n (record k { ports = s })
]
