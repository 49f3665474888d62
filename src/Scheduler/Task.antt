-- ===== src/Scheduler/Task.antt =====
-- `struct task`, `make_task` and the flag that `suspend` and `resume` write.
use metal_to_app.Base.{ℕ, ◌+◌, ◌^◌, ◌==◌, if◌then◌else◌, Bool, test_bit, or_bit, xor_bit}
use metal_to_app.Gdt.{offset_cs64, offset_ds, offset_dsu, offset_cs64u}

-- The registers that a task keeps, in the order of `struct task`: the interrupt frame, then the
-- general registers.
pub record Context : Type 0 where
  pub ss : ℕ
  pub rsp : ℕ
  pub rflags : ℕ
  pub cs : ℕ
  pub rip : ℕ
  pub rbp : ℕ
  pub rax : ℕ
  pub rbx : ℕ
  pub rcx : ℕ
  pub rdx : ℕ
  pub rsi : ℕ
  pub rdi : ℕ
  pub r8 : ℕ
  pub r9 : ℕ
  pub r10 : ℕ
  pub r11 : ℕ
  pub r12 : ℕ
  pub r13 : ℕ
  pub r14 : ℕ
  pub r15 : ℕ

-- `struct task`.
pub record Task : Type 0 where
  pub context : Context
  pub task_flags : ℕ
  pub address_space : ℕ

-- A `struct task *`; 0 is NULL.
abbrev pub TaskPtr : Type 0
TaskPtr = ℕ

abbrev pub null : TaskPtr
null = 0

abbrev pub default_rflags : ℕ
default_rflags = 0x246

-- `TASK_FLAG_MASK_CAN_EXECUTE` is bit 0 of the flags.
abbrev pub can_execute_bit : ℕ
can_execute_bit = 0

abbrev pub can_execute : Task → Bool
can_execute t = test_bit t.task_flags can_execute_bit

-- The two writes of `suspend`: set the bit, then flip it.
unfoldable pub suspend_flags : Task → Task
suspend_flags t = record t {
  task_flags = xor_bit (or_bit t.task_flags can_execute_bit) can_execute_bit;
}

-- The write of `resume`.
unfoldable pub resume_flags : Task → Task
resume_flags t = record t { task_flags = or_bit t.task_flags can_execute_bit }

-- `make_task`, on what the struct held before; `kernel_address_space` is the global.
unfoldable pub make_task : ℕ → Task → ℕ → ℕ → ℕ → ℕ → Bool → Task
make_task kernel_address_space task stack entry arg address_space user_mode = record task {
  context = record old {
    rip = entry;
    cs = if user_mode then offset_cs64u + 3 else offset_cs64;
    rflags = default_rflags;
    ss = if user_mode then offset_dsu + 3 else offset_ds;
    rsp = stack;
    rdi = arg;
  };
  task_flags = 2 ^ can_execute_bit;
  address_space = if address_space == 0 then kernel_address_space else address_space;
}
  where
    old : Context
    old = task.context
