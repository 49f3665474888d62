-- ===== src/Gdt.antt =====
-- src/arch/x86_64/gdt.c and gdt.h: segment descriptors, the TSS descriptor and the table itself.
-- A struct of bit-fields is a record with one number for each field, below its width.
pub mod Segments
pub mod Load
pub mod InterruptStack
pub mod Tests
use metal_to_app.Base.{ℕ, ◌/◌, ◌%◌, ◌^◌, if◌then◌else◌, Bool, test_bit}

-- `enum gdt_segment_type`: the values that `init_gdt` uses, and the bit that it tests.
abbrev pub type_data_rw : ℕ
type_data_rw = 2

abbrev pub type_code_xr : ℕ
type_code_xr = 10

-- `struct gdt_segment_descriptor`.
pub record SegmentDescriptor : Type 0 where
  pub limit_low : ℕ  -- 16 bits
  pub base_low : ℕ  -- 16
  pub base_mid : ℕ  -- 8
  pub type : ℕ  -- 4
  pub descriptor_type : ℕ  -- 1
  pub dpl : ℕ  -- 2
  pub present : ℕ  -- 1
  pub limit_high : ℕ  -- 4
  pub available : ℕ  -- 1
  pub long_mode : ℕ  -- 1
  pub operation_size : ℕ  -- 1
  pub granularity : ℕ  -- 1
  pub base_high : ℕ  -- 8

-- `struct gdt_tss_descriptor`: the same fields and 64 bits more.
pub record TssDescriptor : Type 0 where
  pub low : SegmentDescriptor
  pub base_over : ℕ  -- 32 bits
  pub reserved : ℕ  -- 32

-- `struct GDT`.
pub record Gdt : Type 0 where
  pub zero : SegmentDescriptor
  pub cs64 : SegmentDescriptor
  pub ds : SegmentDescriptor
  pub cs32u : SegmentDescriptor
  pub dsu : SegmentDescriptor
  pub cs64u : SegmentDescriptor
  pub tss : TssDescriptor

-- A descriptor of zero bytes, as the static storage of `gdt` starts out.
abbrev pub zero_descriptor : SegmentDescriptor
zero_descriptor = record {
  limit_low = 0;
  base_low = 0;
  base_mid = 0;
  type = 0;
  descriptor_type = 0;
  dpl = 0;
  present = 0;
  limit_high = 0;
  available = 0;
  long_mode = 0;
  operation_size = 0;
  granularity = 0;
  base_high = 0;
}

-- `offsetof` the members of `struct GDT`: eight bytes for each descriptor before the member.
abbrev pub offset_cs64 : ℕ
offset_cs64 = 8

abbrev pub offset_ds : ℕ
offset_ds = 16

abbrev pub offset_cs32u : ℕ
offset_cs32u = 24

abbrev pub offset_dsu : ℕ
offset_dsu = 32

abbrev pub offset_cs64u : ℕ
offset_cs64u = 40

abbrev pub offset_tss : ℕ
offset_tss = 48

-- `type & gdt_segment_type_code_x`, bit 3 of the type.
abbrev pub is_code : ℕ → Bool
is_code type = test_bit type 3

-- `init_segment_descriptor`: -1 fills a limit field; `base_mid` is left as it was.
unfoldable pub init_segment_descriptor : SegmentDescriptor → ℕ → ℕ → SegmentDescriptor
init_segment_descriptor desc type privilege_level = record desc {
  base_high = 0;
  base_low = 0;
  limit_high = 0xf;
  limit_low = 0xffff;
  type = type % 16;
  descriptor_type = 1;
  dpl = privilege_level % 4;
  present = 1;
  operation_size = if is_code type then 0 else 1;
  granularity = 1;
  long_mode = if is_code type then 1 else 0;
  available = 0;
}

-- `init_tss_descriptor`: `available` is left as it was.
unfoldable pub init_tss_descriptor : TssDescriptor → ℕ → TssDescriptor
init_tss_descriptor descriptor tss_base = record descriptor {
  low = record low {
    limit_low = 100;
    base_low = tss_base % 2 ^ 16;
    base_mid = tss_base / 2 ^ 16 % 2 ^ 8;
    type = 9;
    descriptor_type = 0;
    dpl = 0;
    present = 1;
    limit_high = 0;
    long_mode = 0;
    operation_size = 0;
    granularity = 0;
    base_high = tss_base / 2 ^ 24 % 2 ^ 8;
  };
  base_over = tss_base / 2 ^ 32 % 2 ^ 32;
  reserved = 0;
}
  where
    open descriptor use {low}

-- `init_gdt`, with the address of `tss`.
unfoldable pub init_gdt : Gdt → ℕ → Gdt
unfolding init_segment_descriptor init_tss_descriptor
init_gdt gdt tss_base = record gdt {
  zero = zero_descriptor;
  cs64 = init_segment_descriptor gdt.cs64 type_code_xr 0;
  ds = init_segment_descriptor gdt.ds type_data_rw 0;
  cs32u = record flat { long_mode = 0; operation_size = 1 };
  dsu = init_segment_descriptor gdt.dsu type_data_rw 3;
  cs64u = init_segment_descriptor gdt.cs64u type_code_xr 3;
  tss = init_tss_descriptor gdt.tss tss_base;
}
  where
    flat : SegmentDescriptor
    flat = init_segment_descriptor gdt.cs32u type_code_xr 0
