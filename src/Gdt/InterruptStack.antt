-- ===== src/Gdt/InterruptStack.antt =====
-- The stack that the CPU switches to at an interrupt, after the set-up of the tables.
use metal_to_app.Base.{ℕ, ◌+◌, ◌-◌, ◌*◌, ◌==◌, if◌then◌else◌, Option, none, some, Mem, load, store}
use metal_to_app.Klib.{memset}
use metal_to_app.Memory.{physical}
use metal_to_app.Gdt.{Gdt, offset_tss}
use metal_to_app.Gdt.Segments.{tss_base_of}
use metal_to_app.Gdt.Load.{Registers, tss_size, offset_ist1, init_tss, load_gdt, load_tss}

-- The stack pointer of a gate: none where its field `ist` is 0; else the entry of the TSS that the task
-- register names.
abbrev pub stack_of : Mem → Gdt → Registers → ℕ → Option ℕ
stack_of m gdt r ist =
    if ist == 0
    then none
    else if r.tr == offset_tss
    then some (load 8 m (physical (tss_base_of gdt.tss + offset_ist1 + 8 * (ist - 1))))
    else none

module _ (gdt : Gdt) (gdt_base tss stack_bottom : ℕ) (m : Mem) (r : Registers) where
  -- The table, memory and registers after the calls of `cstart`, and the address of the TSS.
  abbrev pub loaded : Mem × Registers
  loaded = load_tss tss stack_bottom (init_tss tss m) (load_gdt gdt_base r)

  abbrev ist_entry : ℕ → ℕ → ℕ
  ist_entry a k = load 8 (store 8 (memset tss_size m a 0) (a + offset_ist1) stack_bottom) (a + k)
