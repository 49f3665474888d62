-- ===== src/Syscall/Tests.antt =====
-- The set-up of SYSCALL at registers that hold 5.
use metal_to_app.Base.{
  ℕ, ◌+◌, ◌*◌, ◌/◌, ◌^◌, ◌≤◌, ◌<◌, ◌≡◌, ◌≢◌, ◌==◌, if◌then◌else◌, true, false, some, inr, arith,
}
use metal_to_app.Memory.{kernel_base}
use metal_to_app.Console.Output.{screen, shown}
use metal_to_app.Console.Tests.{text, memory, blank, hi-IsMessage}
use metal_to_app.Scheduler.Yield.{running}
use metal_to_app.Scheduler.Task.{make_task, can_execute}
use metal_to_app.Scheduler.Tests.{ready_task, registers, sole}
use metal_to_app.Syscall.Calls.{
  Texts, System, switched, syscall_entry, load_syscall_table, zero_table,
}
use metal_to_app.Syscall.Exit.{syscall-exit}
use metal_to_app.Syscall.{Msrs, star_addr, lstar_addr, sfmask_addr, setup_syscall}
use metal_to_app.Syscall.Selectors.{syscall_selectors, sysret_selectors, setup_syscall_lem}

abbrev fives : Msrs
fives = λ r. 5

setup_syscall_lem_example :
    let after = setup_syscall 0xffffff8000007000 fives in
    let user = (make_task 0x5000 (ready_task 1) 0 0 0 0 true).context in
    let kernel = (make_task 0x5000 (ready_task 1) 0 0 0 0 false).context in
    (sysret_selectors (after star_addr) ≡ record { cs = user.cs; ss = user.ss })
    × (syscall_selectors (after star_addr) ≡ record { cs = kernel.cs; ss = kernel.ss })
    × (after lstar_addr ≡ 0xffffff8000007000)
    × (after sfmask_addr ≡ fives sfmask_addr / 2 ^ 32 * 2 ^ 32)
    × ((r : ℕ)
        → after r ≡ (
            if r == star_addr
            then after r
            else if r == lstar_addr
            then after r
            else if r == sfmask_addr
            then after r
            else fives r))
setup_syscall_lem_example =
    setup_syscall_lem fives 0xffffff8000007000 0x5000 0 0 0 0 (ready_task 1) (omega arith)
      (λ r. omega arith)

-- The task 7 runs and ends.
abbrev busy : System
busy = record {
  kernel = record sole { current_task_table = λ c. 7 };
  cpu = record { context = registers 42; ds = 16; cr3 = 0x5000 };
  screen = blank;
}

abbrev texts : Texts
texts = record { exit = kernel_base + 0x200000; abort = kernel_base + 0x200000 }

syscall-exit_example :
    (s' : System) × (syscall_entry texts 3 (load_syscall_table zero_table) 1 0 busy
      ≡ some (switched 0 s'))
    × (can_execute (s'.kernel.tasks 7) ≡ false)
    × (running s'.kernel ≢ 7)
    × ((q : ℕ) → screen ≤ q → q < screen + 4000 → s'.screen.mem q ≡ shown text 80 0 2 memory q)
syscall-exit_example =
    syscall-exit texts 3 2 0x200000 0 text busy (omega arith) (omega arith) hi-IsMessage
      (inr (omega arith)) (λ e. absurd (omega arith))
