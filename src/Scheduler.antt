-- ===== src/Scheduler.antt =====
-- src/scheduler.h, scheduler.c and scheduler_asm.s: tasks, the scheduling vector, the choice of the
-- next task and the context switch. A `struct task *` is the task's address, and `tasks` is the
-- store of the structs; what changes a task changes the store.
pub mod Task
pub mod Select
pub mod Switch
pub mod Scan
pub mod Choice
pub mod Total
pub mod Turn
pub mod Starve
pub mod Yield
pub mod Suspend
pub mod Tests
