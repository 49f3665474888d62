-- ===== src/Process/Boot.antt =====
-- The loop of `cstart` in src/main.c that starts a process for each boot module. The struct of a new task goes
-- to the store of tasks under its address.
use metal_to_app.Base.{ℕ, zero, suc, ◌+◌, Option, none, some, pos}
use metal_to_app.Frame.{FrameState}
use metal_to_app.Multiboot.{InitrdInfo}
use metal_to_app.Scheduler.Select.{Kernel, set_task, schedule}
use metal_to_app.Process.{make_userspace_process}

unfoldable pub start_processes :
    ℕ → ℕ → ℕ → ℕ → ℕ → (ℕ → InitrdInfo) → Kernel → FrameState → Option (Kernel × FrameState)
start_processes fuel kernel_linear kernel_pagedirtable zero i m k s = some (k, s)
start_processes fuel kernel_linear kernel_pagedirtable (suc n) i m k s =
    elim (make_userspace_process fuel kernel_linear kernel_pagedirtable k.kernel_address_space
      (m i).start (m i).command_line s) [
        | none ↦ none
        | some (initrd_task, task, s') ↦
            elim (schedule (set_task k initrd_task task) (pos i) initrd_task 0) [
              | none ↦ none
              | some (entry, k') ↦
                  start_processes fuel kernel_linear kernel_pagedirtable n (i + 1) m k' s'
            ]
      ]
