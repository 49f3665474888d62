-- ===== src/Gdt/Load.antt =====
-- The parts of gdt.c that load CPU registers, and the TSS, which lies in memory.
use metal_to_app.Base.{ℕ, ◌+◌, ◌-◌, ◌%◌, ◌^◌, Mem, store}
use metal_to_app.Klib.{memset}
use metal_to_app.Memory.{physical}
use metal_to_app.Gdt.{offset_cs64, offset_ds, offset_tss}

-- `struct descriptor_register`, which lgdt loads.
pub record DescriptorRegister : Type 0 where
  pub base : ℕ
  pub size : ℕ

-- The registers that the file loads.
pub record Registers : Type 0 where
  pub gdtr : DescriptorRegister
  pub cs : ℕ
  pub ds : ℕ
  pub ss : ℕ
  pub tr : ℕ

-- `sizeof(tss)`, `sizeof(struct GDT)` and the offset of `ist1`.
abbrev pub tss_size : ℕ
tss_size = 100

abbrev pub gdt_size : ℕ
gdt_size = 64

abbrev pub offset_ist1 : ℕ
offset_ist1 = 36

-- `init_tss`, with the address of `tss`.
unfoldable pub init_tss : ℕ → Mem → Mem
init_tss tss m = memset tss_size m (physical tss) 0

-- `load_gdt`, with the address of `gdt`.
unfoldable pub load_gdt : ℕ → Registers → Registers
load_gdt gdt r = record r {
  gdtr = record { base = gdt; size = gdt_size };
  cs = offset_cs64;
  ds = offset_ds;
  ss = offset_ds;
}

-- `start_tss`.
unfoldable pub start_tss : ℕ → Registers → Registers
start_tss gdt_offset r = record r { tr = gdt_offset % 2 ^ 16 }

-- `load_tss`, with the addresses of `tss` and `STACK_BOTTOM`.
unfoldable pub load_tss : ℕ → ℕ → Mem → Registers → Mem × Registers
unfolding start_tss
load_tss tss stack_bottom m r =
    (store 8 m (physical (tss + offset_ist1)) stack_bottom, start_tss offset_tss r)

-- `load_kernel_stack`: the pointer, below the stack pointer, to the slot.
unfoldable pub load_kernel_stack : ℕ → ℕ → Mem → Mem
load_kernel_stack rsp ist m = store 8 m (physical ist) ((rsp + (2 ^ 64 - 32)) % 2 ^ 64)
