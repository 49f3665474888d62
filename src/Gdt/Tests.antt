-- ===== src/Gdt/Tests.antt =====
-- The descriptor table that comes out of zeroed storage.
use metal_to_app.Base.{arith}
use metal_to_app.Gdt.{Gdt, zero_descriptor, init_gdt}
use metal_to_app.Gdt.Load.{Registers}
use metal_to_app.Interrupts.{Idt, zero_entry}
use metal_to_app.Gdt.Segments.{Segment, code64, code32, data_segment, IsTss, init_gdt_lem}

abbrev storage : Gdt
storage = record {
  zero = zero_descriptor;
  cs64 = zero_descriptor;
  ds = zero_descriptor;
  cs32u = zero_descriptor;
  dsu = zero_descriptor;
  cs64u = zero_descriptor;
  tss = record { low = zero_descriptor; base_over = 0; reserved = 0 };
}

init_gdt_lem_example :
    let after = init_gdt storage 0xffffff8000123456 in
    Segment after.cs64 0 (code64 0)
    × Segment after.ds 0 (data_segment 0)
    × Segment after.cs32u 0 (code32 0)
    × Segment after.dsu 0 (data_segment 3)
    × Segment after.cs64u 0 (code64 3)
    × IsTss after.tss 0xffffff8000123456
init_gdt_lem_example = init_gdt_lem storage 0xffffff8000123456 (omega arith)

-- The registers as the loader leaves them.
abbrev unset : Registers
unset = record { gdtr = record { base = 0; size = 0 }; cs = 8; ds = 16; ss = 16; tr = 0 }

abbrev idt : Idt
idt = λ v. zero_entry
