-- ===== src/Memory/Linear.antt =====
-- The conversions between pointers and linear addresses.
use metal_to_app.Base.{ℕ, ◌+◌, ◌<◌, ◌≡◌, ◌⊎◌, none, some, arith}
use metal_to_app.Memory.{
  linear_start, linear_end, kernel_base, dynamic_start, addrshift_512g, linear_address_to_ptr,
  pointer_to_linear_address, physical,
}

-- The pointer to a linear address below 512 GiB is the one at that distance in the linear window.
pub linear_address_to_ptr-eq :
    (a : ℕ) → a < addrshift_512g → linear_address_to_ptr a ≡ linear_start + a
unfolding linear_address_to_ptr
linear_address_to_ptr-eq a h = omega arith

pub physical-linear : (a : ℕ) → a < addrshift_512g → physical (linear_start + a) ≡ a
unfolding physical
physical-linear a h = ground arith

-- For every linear address but 0 below 512 GiB, pointerToLinearAddress of linearAddressToPtr
-- gives the address back, and an access through that pointer reaches it.
pub linear_round_trip :
    (a : ℕ)
    → 0 < a
    → a < addrshift_512g
    → (pointer_to_linear_address (linear_address_to_ptr a) ≡ some a)
      × (physical (linear_address_to_ptr a) ≡ a)
unfolding linear_address_to_ptr pointer_to_linear_address physical
linear_round_trip a pos h = ground arith

-- A pointer into the kernel window or the linear window, but for the first byte of each, gives
-- the address that an access through it reaches.
pub pointer_to_linear_address_lem :
    (ptr : ℕ)
    → ((kernel_base < ptr) × (ptr < dynamic_start)) ⊎ ((linear_start < ptr) × (ptr < linear_end))
    → pointer_to_linear_address ptr ≡ some (physical ptr)
unfolding pointer_to_linear_address physical
pointer_to_linear_address_lem ptr h = ground arith

-- The first byte of the linear window and that of the kernel window panic.
window_starts_panic :
    (pointer_to_linear_address (linear_address_to_ptr 0) ≡ none)
    × (pointer_to_linear_address kernel_base ≡ none)
unfolding linear_address_to_ptr pointer_to_linear_address
window_starts_panic = ground arith
