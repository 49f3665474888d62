-- ===== src/Keyboard/Queue.antt =====
-- The queue of keyboard commands of keyboard.c: sixteen cells of which at most fifteen are in use.
use metal_to_app.Base.{ℕ, ◌+◌, ◌-◌, ◌%◌, ◌==◌, if◌then◌else◌, Bool, Option, none, some}

-- `struct keyboardCommand`; the two data bytes are a pair.
pub record Command : Type 0 where
  pub command : ℕ
  pub data_length : ℕ
  pub data_bytes : ℕ × ℕ

-- `kbdCommandQueue`, `kbdCommandQueueBegin` and `kbdCommandQueueEnd`.
pub record CommandQueue : Type 0 where
  pub cells : ℕ → Command
  pub first : ℕ
  pub last : ℕ

-- `kbdCommandQueuePush`; `none` is its `panic`.
unfoldable pub push : Command → CommandQueue → Option CommandQueue
push cmd q = if next_end == q.first then none else some (record q { cells = put; last = next_end })
  where
    next_end : ℕ
    next_end = (q.last + 1) % 16

    put : ℕ → Command
    put i = if i == q.last then cmd else q.cells i

-- The condition under which `front` and `pop` execute `hlt` first. The instruction waits for the next
-- interrupt and changes nothing of the queue; `front` and `pop` are what they do behind it, and the loop of
-- Keyboard.Loop has the instruction in its log.
abbrev pub halts : CommandQueue → Bool
halts q = q.first == q.last

-- `kbdCommandQueueFront`.
unfoldable pub front : CommandQueue → Command
front q = q.cells q.first

-- `kbdCommandQueuePop`.
unfoldable pub pop : CommandQueue → CommandQueue
pop q = record q { first = (q.first + 1) % 256 % 16 }

-- `kbdCommandQueueLength`.
unfoldable pub queue_length : CommandQueue → ℕ
queue_length q = (q.last + 16 - q.first) % 16
