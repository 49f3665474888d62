-- ===== src/Process.antt =====
-- src/userspace.c: the address space and the task of a program. The struct of the new task is a value
-- beside memory, as in the scheduler.
pub mod Stack
pub mod Start
pub mod Line
pub mod Launch
pub mod Program
pub mod Boot
pub mod Running
pub mod Started
mod Tests
use metal_to_app.Base.{ℕ, ◌+◌, ◌-◌, ◌*◌, ◌/◌, ◌%◌, ◌^◌, true, Option, none, some}
use metal_to_app.Klib.{strlen}
use metal_to_app.Memory.{linear_address_to_ptr, pointer_to_linear_address, physical}
use metal_to_app.Frame.{FrameState, frame_size, frame_alloc_zero, frame_dealloc}
use metal_to_app.Paging.{mmap, munmap}
use metal_to_app.Paging.Space.{create_address_space}
use metal_to_app.Scheduler.Task.{Task, TaskPtr, make_task}
use metal_to_app.Elf.{copy_bytes, load_elf}

-- `initrd_stack_addr`.
abbrev pub initrd_stack_addr : ℕ
initrd_stack_addr = 0x7ffffffff000

-- A `struct task` in a zeroed frame.
abbrev pub zero_task : Task
zero_task = record {
  context = record {
    ss = 0;
    rsp = 0;
    rflags = 0;
    cs = 0;
    rip = 0;
    rbp = 0;
    rax = 0;
    rbx = 0;
    rcx = 0;
    rdx = 0;
    rsi = 0;
    rdi = 0;
    r8 = 0;
    r9 = 0;
    r10 = 0;
    r11 = 0;
    r12 = 0;
    r13 = 0;
    r14 = 0;
    r15 = 0;
  };
  task_flags = 0;
  address_space = 0;
}

-- The bytes at the end of the stack that a command line takes, before the wrap to 32 bits.
abbrev pub padded_arg_size : ℕ → ℕ
padded_arg_size arg_size = arg_size / 16 * 16 + 16

-- The command line goes to the end of the stack, and the task starts below it.
unfoldable pub fill_task : ℕ → ℕ → ℕ → ℕ → ℕ → ℕ → FrameState → Option (Task × FrameState)
fill_task fuel kernel_address_space root entry initrd_stack command_line s =
    elim (strlen fuel s.mem (physical command_line)) [
      | none ↦ none
      | some length ↦ elim (pointer_to_linear_address root) [
        | none ↦ none
        | some space ↦
            let arg_size = length % 2 ^ 32 in
            let padded = padded_arg_size arg_size % 2 ^ 32 in
            let bottom = initrd_stack_addr - padded in
            let end = initrd_stack + frame_size in
            let dest = linear_address_to_ptr ((end + (2 ^ 64 - padded)) % 2 ^ 64) in
            some (
              make_task kernel_address_space zero_task bottom entry bottom space true,
              copy_bytes dest command_line ((arg_size + 1) % 2 ^ 32) s,
            )
      ]
    ]

-- `make_userspace_process` behind the call of `load_elf`: the pointer to the task, the task and memory.
unfoldable pub start_process : ℕ → ℕ → ℕ → ℕ → ℕ → FrameState → Option (TaskPtr × Task × FrameState)
start_process fuel kernel_address_space root entry command_line s = elim (frame_alloc_zero s) [
  | none ↦ none
  | some (initrd_stack, s₁) ↦ elim (frame_alloc_zero s₁) [
    | none ↦ none
    | some (frame, s₂) ↦ elim (mmap root initrd_stack (initrd_stack_addr - frame_size) true s₂) [
      | none ↦ none
      | some s₃ ↦
          elim (fill_task fuel kernel_address_space root entry initrd_stack command_line s₃) [
            | none ↦ none
            | some (task, s₄) ↦ some (linear_address_to_ptr frame, task, s₄)
          ]
    ]
  ]
]

-- `make_userspace_process`, with the addresses of the static tables.
unfoldable pub make_userspace_process :
    ℕ → ℕ → ℕ → ℕ → ℕ → ℕ → FrameState → Option (TaskPtr × Task × FrameState)
make_userspace_process fuel kernel_linear kernel_pagedirtable kernel_address_space elf_start
      command_line s =
    elim (create_address_space kernel_linear kernel_pagedirtable s) [
      | none ↦ none
      | some (root, s₁) ↦ elim (load_elf fuel elf_start root s₁) [
        | none ↦ none
        | some (entry, s₂) ↦ start_process fuel kernel_address_space root entry command_line s₂
      ]
    ]

-- `cleanup`, with the task whose struct is in memory; `destroy_address_space` does nothing.
unfoldable pub cleanup : TaskPtr → Task → FrameState → Option FrameState
cleanup cleanup_task task s =
    elim (munmap (linear_address_to_ptr task.address_space) 0x40000000 s) [
      | none ↦ none
      | some (stack, s') ↦ elim (pointer_to_linear_address cleanup_task) [
        | none ↦ none
        | some frame ↦ some (frame_dealloc frame (frame_dealloc stack s'))
      ]
    ]
