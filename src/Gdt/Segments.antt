-- ===== src/Gdt/Segments.antt =====
-- What the CPU reads from the descriptors that `init_gdt` leaves.
use metal_to_app.Base.{ℕ, ◌+◌, ◌*◌, ◌^◌, ◌<◌, ◌≡◌, refl, Bool, true, false, test_bit, arith}
use metal_to_app.Gdt.{
  SegmentDescriptor, TssDescriptor, Gdt, init_segment_descriptor, init_tss_descriptor, init_gdt,
}

-- The base and the limit of a descriptor; the limit counts pages where the granularity is 1.
abbrev pub base : SegmentDescriptor → ℕ
base d = d.base_low + d.base_mid * 2 ^ 16 + d.base_high * 2 ^ 24

abbrev pub limit : SegmentDescriptor → ℕ
limit d = d.limit_low + d.limit_high * 2 ^ 16

abbrev pub tss_base_of : TssDescriptor → ℕ
tss_base_of d = base d.low + d.base_over * 2 ^ 32

-- The mode of a segment: its ring, whether it holds code, whether it is readable code or writable data,
-- whether it is conforming code or data that expands down, and its two width bits.
pub record Mode : Type 0 where
  pub ring : ℕ
  pub code : Bool
  pub access : Bool
  pub conforming : Bool
  pub long : ℕ
  pub wide : ℕ

abbrev pub mode : SegmentDescriptor → Mode
mode d = record {
  ring = d.dpl;
  code = test_bit d.type 3;
  access = test_bit d.type 1;
  conforming = test_bit d.type 2;
  long = d.long_mode;
  wide = d.operation_size;
}

-- A present segment of 4 GiB of a mode, with a base. The S bit of a descriptor of code or data is 1, that
-- of a system descriptor 0.
pub record Segment (d : SegmentDescriptor) (b : ℕ) (m : Mode) : Type 0 where
  pub code_or_data : d.descriptor_type ≡ 1
  pub at_base : base d ≡ b
  pub whole : limit d ≡ 0xfffff
  pub pages : d.granularity ≡ 1
  pub is_present : d.present ≡ 1
  pub in_mode : mode d ≡ m

abbrev pub code64 : ℕ → Mode
code64 ring = record {
  ring = ring;
  code = true;
  access = true;
  conforming = false;
  long = 1;
  wide = 0;
}

abbrev pub code32 : ℕ → Mode
code32 ring = record {
  ring = ring;
  code = true;
  access = true;
  conforming = false;
  long = 0;
  wide = 1;
}

abbrev pub data_segment : ℕ → Mode
data_segment ring = record {
  ring = ring;
  code = false;
  access = true;
  conforming = false;
  long = 0;
  wide = 1;
}

-- A present system descriptor of an available 64-bit TSS for ring 0, of 101 bytes from an address.
pub record IsTss (d : TssDescriptor) (tss_base : ℕ) : Type 0 where
  pub at_base : tss_base_of d ≡ tss_base
  pub system : d.low.descriptor_type ≡ 0
  pub available : d.low.type ≡ 9
  pub ring : d.low.dpl ≡ 0
  pub is_present : d.low.present ≡ 1
  pub whole : limit d.low ≡ 100
  pub bytes : d.low.granularity ≡ 0

-- For a TSS address below 2^64, init_gdt makes five present code or data descriptors of 4 GiB,
-- readable, not conforming 64-bit code and writable data that expands up for rings 0 and 3, and
-- readable, not conforming 32-bit code of ring 0, each of which keeps the middle byte of its
-- former base as its base, and a present system descriptor of ring 0 for an available 64-bit
-- TSS, with the limit 100 in bytes, whose base is the address given.
pub init_gdt_lem :
    (gdt : Gdt) (tss_base : ℕ)
    → tss_base < 2 ^ 64
    → let after = init_gdt gdt tss_base in
      Segment after.cs64 (gdt.cs64.base_mid * 2 ^ 16) (code64 0)
      × Segment after.ds (gdt.ds.base_mid * 2 ^ 16) (data_segment 0)
      × Segment after.cs32u (gdt.cs32u.base_mid * 2 ^ 16) (code32 0)
      × Segment after.dsu (gdt.dsu.base_mid * 2 ^ 16) (data_segment 3)
      × Segment after.cs64u (gdt.cs64u.base_mid * 2 ^ 16) (code64 3)
      × IsTss after.tss tss_base
unfolding init_gdt init_segment_descriptor init_tss_descriptor
init_gdt_lem gdt tss_base small = (
  record {
    code_or_data = refl;
    at_base = omega arith;
    whole = refl;
    pages = refl;
    is_present = refl;
    in_mode = refl;
  },
  record {
    code_or_data = refl;
    at_base = omega arith;
    whole = refl;
    pages = refl;
    is_present = refl;
    in_mode = refl;
  },
  record {
    code_or_data = refl;
    at_base = omega arith;
    whole = refl;
    pages = refl;
    is_present = refl;
    in_mode = refl;
  },
  record {
    code_or_data = refl;
    at_base = omega arith;
    whole = refl;
    pages = refl;
    is_present = refl;
    in_mode = refl;
  },
  record {
    code_or_data = refl;
    at_base = omega arith;
    whole = refl;
    pages = refl;
    is_present = refl;
    in_mode = refl;
  },
  record {
    at_base = omega arith;
    system = refl;
    available = refl;
    ring = refl;
    is_present = refl;
    whole = refl;
    bytes = refl;
  },
)
