-- ===== src/Memory/Tests.antt =====
-- The theorems about addresses at one address.
use metal_to_app.Base.{◌≡◌, some, arith}
use metal_to_app.Memory.{linear_address_to_ptr, pointer_to_linear_address, physical}
use metal_to_app.Memory.Linear.{linear_round_trip}

linear_round_trip_example :
    (pointer_to_linear_address (linear_address_to_ptr 0x5000) ≡ some 0x5000)
    × (physical (linear_address_to_ptr 0x5000) ≡ 0x5000)
linear_round_trip_example = linear_round_trip 0x5000 (omega arith) (omega arith)
