-- ===== src/Syscall.antt =====
-- src/syscall.c: the model-specific registers that `setup_syscall` writes.
pub mod Selectors
pub mod Calls
pub mod Exit
pub mod Tests
use metal_to_app.Base.{ℕ, ◌+◌, ◌-◌, ◌*◌, ◌%◌, ◌/◌, ◌^◌, ◌==◌, if◌then◌else◌}
use metal_to_app.Gdt.{offset_cs64, offset_cs32u}

-- The value of each register, below 2 ^ 64.
abbrev pub Msrs : Type 0
Msrs = ℕ → ℕ

abbrev pub star_addr : ℕ
star_addr = 0xC0000081

abbrev pub lstar_addr : ℕ
lstar_addr = 0xC0000082

abbrev pub sfmask_addr : ℕ
sfmask_addr = 0xC0000084

-- `writemsr` and `readmsr`: the value goes through two 32-bit halves.
unfoldable pub writemsr : ℕ → ℕ → Msrs → Msrs
writemsr regaddr value msrs r =
    if r == regaddr then value % 2 ^ 32 + value / 2 ^ 32 % 2 ^ 32 * 2 ^ 32 else msrs r

unfoldable pub readmsr : ℕ → Msrs → ℕ
readmsr regaddr msrs = (msrs regaddr / 2 ^ 32 * 2 ^ 32 + msrs regaddr % 2 ^ 32) % 2 ^ 64

-- The value that `setup_syscall` puts together in `star`.
unfoldable pub star_value : ℕ → ℕ
star_value old =
    let user = offset_cs32u % 2 ^ 16 in
    let both = user * 2 ^ 16 % 2 ^ 64 + offset_cs64 % 2 ^ 16 in
    (both * 2 ^ 32 % 2 ^ 64 + old % 2 ^ 32) % 2 ^ 64

-- `setup_syscall`, up to the call table, with the address of `syscall_entry_asm`.
unfoldable pub setup_syscall : ℕ → Msrs → Msrs
setup_syscall entry msrs =
    let starred = writemsr star_addr (star_value (readmsr star_addr msrs)) msrs in
    let entered = writemsr lstar_addr entry starred in
    let mask = readmsr sfmask_addr entered in writemsr sfmask_addr (mask - mask % 2 ^ 32) entered
