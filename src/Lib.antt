-- ===== src/Lib.antt =====
-- A model of the kernel metal-to-app: the parts of its C sources, and of one assembly file, that
-- carry its logic, as definitions that run, with theorems about them.
--
-- The program. `cstart` (src/main.c) builds the address space, gives the frame allocator a range of
-- memory, fills the descriptor tables, starts the scheduler, prepares SYSCALL and schedules a task
-- for each boot module. The interrupt 201 then switches tasks whenever a task or the clock raises
-- it.
--
-- Base: names of the standard library passed on; Base.Tests: Boolean tests on numbers; Base.Words:
-- bits of a word; Base.Int: signed numbers over the same natural numbers; Base.Bytes: memory as a
-- function from address to byte, with little-endian loads and stores; Base.Members: lists of
-- addresses without repetition.
--
-- Klib (src/klib/memset.c, memcpy.c, strlen.c): the loops as structural recursion, strlen on fuel,
-- for which more than the length of the string is enough. Klib.Laws: what they do.
--
-- Memory (src/memory.h, memory.c): the windows at LINEAR_START and KERNEL_BASE, linearAddressToPtr
-- and pointerToLinearAddress; `physical` is the address that an access through a pointer reaches,
-- by the two windows of the kernel. Of these, 512 GiB from LINEAR_START and 32 MiB from KERNEL_BASE
-- are mapped; an access beyond faults in the program, and statements about accesses keep to the
-- mapped parts. Memory.Linear: the conversions against each other.
--
-- Frame (src/frame.c): init_frame_allocator, frame_alloc, frame_alloc_zero and frame_dealloc on the
-- three globals and memory. Frame.Pool: the abstract pool of frames; Frame.Invariant, Frame.Refine:
-- each operation against the pool; Frame.Taken: which frames are out; Frame.Owners: runs in which
-- clients allocate, release and write into the frames that they own. `none` is panic().
--
-- Scheduler: Task (struct task of src/scheduler.h, make_task, the flag writes of suspend and
-- resume), Select (the two tables by CPU, the static turn counter and the function scheduler of
-- src/scheduler.c; resume, schedule), Switch (asm_reschedule of src/scheduler_asm.s on the
-- registers of a CPU; suspend, init_scheduler). A struct task * is an address, NULL is 0, and the
-- structs lie in a store. The second loop of scheduler is recursion on fuel; 128 rounds are enough.
-- The structs, the two tables and the turn counter are values beside the memory of the other parts:
-- a write to them changes no byte there. Scan, Choice, Total: the choice against its specification;
-- Turn, Starve: who gets a turn; Yield: registers across switches; Suspend: suspend, resume and
-- schedule.
--
-- Gdt (src/arch/x86_64/gdt.c, gdt.h): descriptors as records of bit-fields; Gdt.Segments: what the
-- CPU reads from them; Gdt.Load: the TSS and the loads of registers; Gdt.InterruptStack: the stack
-- at an interrupt. Interrupts (src/arch/x86_64/idt.h, interrupts.c, exceptions.c, src/portio.h):
-- the gates, load_interrupt_fn and its callers, and eoi as the port writes that it makes; the
-- addresses of the handlers, which the linker chooses, are arguments. Interrupts.Actions:
-- enable_interrupts and the handlers as the actions that they take in order; Interrupts.Vectors:
-- the table after the boot sequence; Interrupts.Pic: the lines in service and the end of an
-- interrupt; Interrupts.Delivery: the two controllers as their documentation has them, and where an
-- IRQ arrives.
--
-- Syscall (src/syscall.c): the model-specific registers that setup_syscall writes;
-- Syscall.Selectors: against the selectors of make_task. Syscall.Calls (src/syscall_table.c,
-- syscall_asm.s): the table and the four calls on a record of kernel, registers and screen;
-- Syscall.Exit: the end of a task.
--
-- Paging (src/address_space.c, with struct pagetable_entry of memory.h): resolve_pageentry as a
-- recursion on the shifts of its levels, mmap and munmap, on tables that lie in memory.
-- Paging.Slots: entries in frames; Tables: the tables on the way to an address; Ensure, Way: what
-- the search does to them; Mmu: the translation that the CPU makes; Entry, Mapping: mmap and munmap
-- against it; Page: a frame of the allocator that is zeroed and mapped; Space:
-- create_address_space. The translation is the walk through the tables in memory; translations that
-- the CPU holds in its TLB are not part of the model, and the program never executes INVLPG. Three
-- frames are enough for the tables of a mapping. Paging.Kernel (src/memory.c):
-- createKernelAddressSpace and init_address_space; Cells, Image, Rows, Static: the words that they
-- leave in the four static tables; Walk, Window: the translation by those tables. Placed: address
-- spaces whose lower half is a tree, by labels that give each table its level and its place;
-- Levels, Grow, Fill, Step, Search: one level of the search in them and all levels; Others: mmap
-- and the translation of every address; Empty: the address space of create_address_space.
--
-- Faults (src/map-dynamic.c, with page_fault of exceptions.c): handle_dynamic_fault on the page
-- tables and the frame allocator; Faults.Dynamic: the page that a fault maps.
--
-- Elf (src/elf.c): copy_section on fuel, of which more than the pages of the section is enough, and
-- load_elf. Elf.NewFrame, Write: a frame that is mapped and written; Data: bytes in frames that
-- neither the allocator nor the page tables use, and what a section leaves; Section, Copy: the loop
-- of copy_section; Headers, Images: the program headers and the segments that they name; Segments,
-- Load: the loop of load_elf and load_elf.
--
-- Process (src/userspace.c): make_userspace_process and cleanup. Process.Stack, Start: the part
-- behind load_elf on one way through the tables; Line, Launch: the same part in an address space
-- whose lower half is a tree; Program: make_userspace_process as a whole. Boot: the loop of cstart
-- in src/main.c; Running, Started: what is true of a program while others are started, and behind
-- the loop.
--
-- Console (src/print.c, print.h): the screen as part of memory and the offset into it, cwrite on
-- fuel, for which more than the length of the message is enough; printhex as the text that it
-- prints. Console.Output: what println leaves; Console.Hex: reading a number back.
--
-- Multiboot (src/arch/x86_64/multiboot.c, multiboot.h, src/initrd.c): the search of the memory map
-- on fuel, for which more than the number of its entries is enough, the range that the frame
-- allocator gets, and the list of boot modules. Multiboot.Regions: the largest region of a list;
-- Setup: the search against it; Modules: the array of the modules.
--
-- Keyboard (src/scancodes.c, src/usb_hid_keys.h, src/keyboard.c): Keys and Tables hold the key
-- codes and the rows of the switches in their order; Decode has ps2Set2ToUsb and processScancode,
-- both on fuel, of which two rounds are enough; Presses: key presses and releases; Distinct: which
-- bytes share a code; Queue: the ring of keyboard commands; Fifo: the ring against a list. Ports,
-- Loop: initps2 and keyboard_test_loop on the log of what they do with the ports, with the answers
-- of the controller as a parameter and fuel for each wait; Polite: the order in which the ports are
-- used and what goes over them; Replies: controllers that answer within fuel; Setup: initps2;
-- Reading, Rounds, Session: the rounds of the loop.
--
-- Not modelled. The boot code src/bootstrap.s, and the calls of cstart as one sequence; the
-- registers that syscall_entry_asm keeps on the stack of its caller, and what setup_initrd prints.
-- src/test_scheduler.c is a demonstration that nothing calls, and modules/ holds programs that run
-- on the kernel.
pub mod Base
pub mod Klib
pub mod Memory
pub mod Paging
pub mod Multiboot
pub mod Console
pub mod Faults
pub mod Elf
pub mod Process
pub mod Frame
pub mod Gdt
pub mod Interrupts
pub mod Keyboard
pub mod Scheduler
pub mod Syscall
