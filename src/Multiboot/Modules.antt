-- ===== src/Multiboot/Modules.antt =====
-- What `setup_initrd` leaves in the array of modules.
use metal_to_app.Base.{
  ℕ, zero, suc, ◌+◌, ◌*◌, ◌^◌, ◌≤◌, ◌<◌, ◌≡◌, ◌≢◌, refl, ap, ◌∙◌, inl, inr, ◌==◌, leb, ltb,
  if◌then◌else◌, ◌&&◌, Mem, load, eq-cases, eq→==, ne→==, arith,
}
use metal_to_app.Memory.{linear_start, linear_address_to_ptr, physical}
use metal_to_app.Memory.Linear.{linear_address_to_ptr-eq, physical-linear}
use metal_to_app.Multiboot.{MultibootInfo, InitrdInfo, read_module, read_modules, setup_initrd}

-- The record of sixteen bytes of the module `j`, in the table at a physical address.
abbrev pub module_at : Mem → ℕ → ℕ → InitrdInfo
module_at m table j = record {
  command_line = linear_address_to_ptr (load 4 m (table + 16 * j + 8));
  start = linear_address_to_ptr (load 4 m (table + 16 * j));
  end = linear_address_to_ptr (load 4 m (table + 16 * j + 4));
}

read_module-eq :
    (m : Mem) (table j : ℕ)
    → table + 16 * j < 2 ^ 39
    → read_module m (linear_start + table) j ≡ module_at m table j
unfolding read_module
read_module-eq m table j lt =
    let at : physical (linear_start + table + 16 * j) ≡ table + 16 * j =
      ap physical (omega arith) ∙ physical-linear (table + 16 * j) lt in
    rw at refl

read_modules_lem :
    (n i : ℕ) (m : Mem) (table : ℕ) (out : ℕ → InitrdInfo) (j : ℕ)
    → table + 16 * (i + n) ≤ 2 ^ 39
    → read_modules n i m (linear_start + table) out j
      ≡ (if leb i j && ltb j (i + n) then module_at m table j else out j)
unfolding read_modules
read_modules_lem zero i m table out j le = ground arith
read_modules_lem (suc n) i m table out j le =
    read_modules_lem n (i + 1) m table
      (λ k. if k == i then read_module m (linear_start + table) i else out k) j (omega arith)
    ∙ (elim (eq-cases j i) [
      | inl e ↦
          rw (eq→== j i e, read_module-eq m table i (omega arith), e)
            (at_i (module_at m table i) (out i))
      | inr ne ↦ rw (ne→== j i ne) (off_i ne (module_at m table j) (out j))
    ])
  where
    at_i :
        (u v : InitrdInfo)
        → (if leb (i + 1) i && ltb i (i + 1 + n) then u else u)
          ≡ (if leb i i && ltb i (i + suc n) then u else v)
    at_i u v = ground arith

    off_i :
        j ≢ i
        → (u v : InitrdInfo)
        → (if leb (i + 1) j && ltb j (i + 1 + n) then u else v)
          ≡ (if leb i j && ltb j (i + suc n) then u else v)
    off_i ne u v = ground arith

-- For module list addresses below 2^32 and fewer than 2^31 modules, setup_initrd returns the
-- number of modules, and writes to the entry of each module the pointers to its command line,
-- its start and its end, and no other entry.
pub setup_initrd_lem :
    (info : MultibootInfo) (m : Mem) (out : ℕ → InitrdInfo) (j : ℕ)
    → info.mods_addr < 2 ^ 32
    → info.mods_count < 2 ^ 31
    → ((setup_initrd info m out).0 ≡ info.mods_count)
      × ((setup_initrd info m out).1 j
          ≡ (if ltb j info.mods_count then module_at m info.mods_addr j else out j))
unfolding setup_initrd
setup_initrd_lem info m out j addr count = (refl, first)
  where
    from_zero :
        (u v : InitrdInfo)
        → (if leb 0 j && ltb j (0 + info.mods_count) then u else v)
          ≡ (if ltb j info.mods_count then u else v)
    from_zero u v = ground arith

    first :
        read_modules info.mods_count 0 m (linear_address_to_ptr info.mods_addr) out j
        ≡ (if ltb j info.mods_count then module_at m info.mods_addr j else out j)
    first = rw (linear_address_to_ptr-eq info.mods_addr (omega arith)) (
        read_modules_lem info.mods_count 0 m info.mods_addr out j (omega arith)
        ∙ from_zero (module_at m info.mods_addr j) (out j))
