-- ===== src/Scheduler/Switch.antt =====
-- The context switch `asm_reschedule`, and the calls that yield the CPU by `int $201`.
use metal_to_app.Base.{ℕ, ◌%◌, ◌^◌, ◌==◌, if◌then◌else◌, Option, none, some}
use metal_to_app.Interrupts.{Idt, trap_gate, load_interrupt_fn}
use metal_to_app.Scheduler.Task.{Context, Task, TaskPtr, null, suspend_flags}
use metal_to_app.Scheduler.Select.{Kernel, scheduler, set_task}

-- The CPU: the registers that a task keeps (those of the interrupt frame as the interrupted code
-- had them), the data segment and the root of the page tables.
pub record Cpu : Type 0 where
  pub context : Context
  pub ds : ℕ
  pub cr3 : ℕ

-- `asm_get_cpuid`.
abbrev pub get_cpuid : ℕ
get_cpuid = 0

-- The pushes of `asm_reschedule`: the frame and the registers go to the struct of the task.
unfoldable pub save_context : Kernel → TaskPtr → Context → Kernel
unfolding set_task
save_context k p c =
    set_task k p (record { context = c; task_flags = task_flags; address_space = address_space })
  where
    open k.tasks p use {task_flags, address_space}

-- Its loads: cr3, then the frame and the registers, and DS from SS.
unfoldable pub load_context : Kernel → TaskPtr → Cpu
load_context k p = record { context = context; ds = context.ss % 2 ^ 16; cr3 = address_space }
  where
    open k.tasks p use {context, address_space}

-- `asm_reschedule`, from the interrupt to `iretq`.
unfoldable pub reschedule : Kernel → Cpu → Option (Kernel × Cpu)
unfolding save_context load_context
reschedule k cpu = elim (scheduler saved get_cpuid) [
  | none ↦ none
  | some (t, k') ↦ some (k', load_context k' t)
]
  where
    saved : Kernel
    saved = save_context k (k.current_task_table get_cpuid) cpu.context

-- `suspend`; NULL stands for the current task. The call ends by `yield`.
unfoldable pub suspend : Kernel → Cpu → TaskPtr → Option (Kernel × Cpu)
unfolding set_task suspend_flags
suspend k cpu p = reschedule (set_task k t (suspend_flags (k.tasks t))) cpu
  where
    t : TaskPtr
    t = if p == null then k.current_task_table get_cpuid else p

-- `init_scheduler`, with the address of `asm_reschedule`.
unfoldable pub init_scheduler : ℕ → Kernel → Idt → Kernel × Idt
unfolding set_task load_interrupt_fn
init_scheduler asm_reschedule k idt = (
  record k {
    tasks = λ q. if q == idle_loop_task then idle else k.tasks q;
    current_task_table = λ c. if c == 0 then idle_loop_task else k.current_task_table c;
  },
  load_interrupt_fn asm_reschedule 201 trap_gate idt,
)
  where
    open k use {idle_loop_task}

    idle : Task
    idle = record (k.tasks idle_loop_task) { address_space = k.kernel_address_space }
