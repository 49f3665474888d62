-- ===== src/Memory.antt =====
-- src/memory.h and memory.c: the windows of the kernel's address space and the conversions between
-- kernel pointers and linear (physical) addresses.
pub mod Linear
mod Tests
use metal_to_app.Base.{
  ℕ, ◌+◌, ◌-◌, ◌%◌, ◌^◌, ◌≤◌, ◌<◌, ◌⊎◌, ltb, leb, if◌then◌else◌, ◌&&◌, Option, none, some,
}

-- `LINEAR_START`, `addrshift512G`, `addrshift1G` and `LINEAR_END`.
abbrev pub linear_start : ℕ
linear_start = 0xffff_8000_0000_0000

abbrev pub addrshift_512g : ℕ
addrshift_512g = 2 ^ 39

abbrev pub addrshift_1g : ℕ
addrshift_1g = 2 ^ 30

abbrev pub linear_end : ℕ
linear_end = linear_start + addrshift_512g

-- `KERNEL_BASE` of the linker script and `DYNAMIC_START`.
abbrev pub kernel_base : ℕ
kernel_base = 0xffff_ffff_8000_0000

abbrev pub dynamic_start : ℕ
dynamic_start = kernel_base + addrshift_1g

-- `linearAddressToPtr`.
unfoldable pub linear_address_to_ptr : ℕ → ℕ
linear_address_to_ptr a = (linear_start + a) % 2 ^ 64

-- `pointerToLinearAddress`; `none` is its `panic`.
unfoldable pub pointer_to_linear_address : ℕ → Option ℕ
pointer_to_linear_address ptr =
    if ltb kernel_base ptr && ltb ptr dynamic_start
    then some (ptr - kernel_base)
    else if ltb linear_start ptr && ltb ptr linear_end
    then some (ptr - linear_start)
    else none

-- The physical address that an access through a kernel pointer reaches: the kernel window lies above
-- the linear window. The page tables map 512 GiB of the linear window and 32 MiB of the kernel window,
-- and an access beyond them faults: statements about accesses have a hypothesis such as `IsMapped`.
unfoldable pub physical : ℕ → ℕ
physical ptr = if leb kernel_base ptr then ptr - kernel_base else ptr - linear_start

-- Where the two windows are mapped.
abbrev pub IsMapped : ℕ → Type 0
IsMapped ptr =
    ((linear_start ≤ ptr) × (ptr < linear_end))
    ⊎ ((kernel_base ≤ ptr) × (ptr < kernel_base + 2 ^ 25))
