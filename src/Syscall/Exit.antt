-- ===== src/Syscall/Exit.antt =====
-- The call by which a task ends.
use metal_to_app.Base.{ℕ, ◌+◌, ◌≤◌, ◌<◌, ◌≡◌, ◌≢◌, refl, false, some}
use metal_to_app.Console.{Screen, println}
use metal_to_app.Console.Output.{IsMessage, IsApart, screen, shown, println_lem}
use metal_to_app.Scheduler.Task.{null, can_execute}
use metal_to_app.Scheduler.Select.{Kernel}
use metal_to_app.Scheduler.Switch.{Cpu, suspend}
use metal_to_app.Scheduler.Yield.{running}
use metal_to_app.Scheduler.Suspend.{suspend_blocks}
use metal_to_app.Syscall.Calls.{
  Texts, System, switched, say, call, after_switch, syscall_entry, load_syscall_table, zero_table,
}

say-found :
    (fuel message : ℕ) (s : System) (after : Screen)
    → println fuel message s.screen ≡ some after
    → say fuel message s ≡ some (record s { screen = after })
unfolding say
say-found fuel message s after e = rw (e, say) refl

exit-found :
    (texts : Texts) (fuel buffer : ℕ) (s s' : System) (k : Kernel) (cpu : Cpu)
    → say fuel texts.exit s ≡ some s'
    → suspend s'.kernel s'.cpu null ≡ some (k, cpu)
    → syscall_entry texts fuel (load_syscall_table zero_table) 1 buffer s
      ≡ some (switched 0 (record s' { kernel = k; cpu = cpu }))
unfolding syscall_entry call load_syscall_table after_switch
exit-found texts fuel buffer s s' k cpu e f =
    rw (syscall_entry, call, load_syscall_table, e, after_switch, f) refl

-- With a zero-terminated text of n bytes in the mapped windows for the exit message that the
-- written part of the screen does not overlap, room for n characters from the cursor to the end
-- of the screen and fuel above n, the call 1 of a running task other than the idle task switches
-- to another task; the caller is then marked as not executable, and each of the 4000 bytes of
-- the screen shows the message or what it held before. The task structs and the tables of the
-- scheduler are values beside memory, and do not lie on the screen.
pub syscall-exit :
    (texts : Texts) (fuel n a buffer : ℕ) (text : ℕ → ℕ) (s : System)
    → n < fuel
    → s.screen.current_offset + n ≤ 2000
    → IsMessage text n texts.exit a s.screen.mem
    → IsApart a s.screen.current_offset n
    → running s.kernel ≢ s.kernel.idle_loop_task
    → (s' : System) × (syscall_entry texts fuel (load_syscall_table zero_table) 1 buffer s
        ≡ some (switched 0 s'))
      × (can_execute (s'.kernel.tasks (running s.kernel)) ≡ false)
      × (running s'.kernel ≢ running s.kernel)
      × ((q : ℕ)
          → screen ≤ q
          → q < screen + 4000
          → s'.screen.mem q ≡ shown text s.screen.current_offset 0 n s.screen.mem q)
syscall-exit texts fuel n a buffer text s lt o t apart ne =
    let (on_screen, found, same, _, _, _, _) =
      println_lem fuel n texts.exit a text s.screen lt o t apart in
    let (k, cpu, e, blocked, _, other) = suspend_blocks s.kernel s.cpu null ne in
    (
      record { kernel = k; cpu = cpu; screen = on_screen },
      exit-found texts fuel buffer s (record s { screen = on_screen }) k cpu
          (say-found fuel texts.exit s on_screen found) e,
      blocked,
      other,
      λ q lo hi. same q,
    )
