-- ===== src/Syscall/Calls.antt =====
-- src/syscall_table.c, and the choice of a function in src/syscall_asm.s: the table of calls, and what a
-- call by number does. The addresses of the two texts, which the linker chooses, are arguments; the
-- registers of the CPU are those at the `int $201` of `yield`.
use metal_to_app.Base.{ℕ, ◌==◌, ltb, if◌then◌else◌, Option, none, some}
use metal_to_app.Console.{Screen, println}
use metal_to_app.Scheduler.Task.{null}
use metal_to_app.Scheduler.Select.{Kernel}
use metal_to_app.Scheduler.Switch.{Cpu, reschedule, suspend}

-- An entry of the table: a null pointer, or one of the functions of the file.
pub data Function : Type 0 where
  unset : Function
  syscall_exit syscall_abort syscall_write syscall_yield : Function

-- `syscall_table`.
abbrev pub CallTable : Type 0
CallTable = ℕ → Function

-- The table as the program starts.
abbrev pub zero_table : CallTable
zero_table n = unset

abbrev pub set_entry : ℕ → Function → CallTable → CallTable
set_entry i f t n = if n == i then f else t n

-- `load_syscall_table`.
unfoldable pub load_syscall_table : CallTable → CallTable
load_syscall_table t =
    let t₁ = set_entry 0x01 syscall_exit t in
    let t₂ = set_entry 0x11 syscall_abort t₁ in
    let t₃ = set_entry 0x04 syscall_write t₂ in set_entry 0x99 syscall_yield t₃

-- The kernel, the registers and the screen.
pub record System : Type 0 where
  pub kernel : Kernel
  pub cpu : Cpu
  pub screen : Screen

-- What a call comes to: it returns a value, or another task runs and the value is returned when the
-- caller runs again, or the kernel stops.
pub data Outcome : Type 0 where
  returned : ℕ → System → Outcome
  switched : ℕ → System → Outcome
  panicked : System → Outcome

-- `println` on the screen of the system, with the fuel for the text.
unfoldable pub say : ℕ → ℕ → System → Option System
say fuel message s = elim (println fuel message s.screen) [
  | none ↦ none
  | some screen ↦ some (record s { screen = screen })
]

unfoldable pub after_switch : System → Option (Kernel × Cpu) → Option Outcome
after_switch s none = none
after_switch s (some (k, cpu)) = some (switched 0 (record s { kernel = k; cpu = cpu }))

-- The two texts of the file.
pub record Texts : Type 0 where
  pub exit : ℕ
  pub abort : ℕ

-- The functions, with the second argument of the call, a text in the windows of the kernel; `none` is a call of the null pointer, or an
-- exhausted fuel.
unfoldable pub call : Texts → ℕ → Function → ℕ → System → Option Outcome
unfolding say after_switch
call texts fuel unset buffer s = none
call texts fuel syscall_exit buffer s = elim (say fuel texts.exit s) [
  | none ↦ none
  | some s' ↦ after_switch s' (suspend s'.kernel s'.cpu null)
]
call texts fuel syscall_abort buffer s = elim (say fuel texts.abort s) [
  | none ↦ none
  | some s' ↦ some (panicked s')
]
call texts fuel syscall_write buffer s = elim (say fuel buffer s) [
  | none ↦ none
  | some s' ↦ some (returned 0 s')
]
call texts fuel syscall_yield buffer s = after_switch s (reschedule s.kernel s.cpu)

-- `syscall_entry_asm` on the number in rax, which it does not compare with the 256 entries; `none` also
-- stands for a jump by what lies behind the table.
unfoldable pub syscall_entry : Texts → ℕ → CallTable → ℕ → ℕ → System → Option Outcome
unfolding call
syscall_entry texts fuel table number buffer s =
    if ltb number 256 then call texts fuel (table number) buffer s else none
