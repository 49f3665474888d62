-- ===== src/Multiboot/Tests.antt =====
-- A memory map of two regions and a table of twelve modules.
use metal_to_app.Base.{◌+◌, ◌≡◌, ◌==◌, if◌then◌else◌, refl, [], ◌∷◌, Mem, load, arith}
use metal_to_app.Memory.{kernel_base, physical}
use metal_to_app.Multiboot.{MultibootInfo, MmapInfo, read_mmap, setup_frame_allocator, setup_initrd}
use metal_to_app.Multiboot.Regions.{largest, IsLargest}
use metal_to_app.Multiboot.Setup.{IsMap, SetUp, setup_frame_allocator-SetUp}
use metal_to_app.Multiboot.Modules.{module_at, setup_initrd_lem}

-- At 0x9000 a usable region of four megabytes at 0x300000 and one of type 2, each of twenty bytes
-- behind the size.
abbrev memory : Mem
memory q =
    if q == 0x9000
    then 20
    else if q == 0x9006
    then 0x30
    else if q == 0x900e
    then 0x40
    else if q == 0x9014
    then 1
    else if q == 0x9018
    then 20
    else if q == 0x902c
    then 2
    else 0

abbrev info : MultibootInfo
info = record { mods_count = 12; mods_addr = 0x8000; mmap_length = 48; mmap_addr = 0x9000 }

abbrev usable : MmapInfo
usable = record { size = 20; base_addr = 0x300000; length = 0x400000; type = 1 }

abbrev reserved : MmapInfo
reserved = record { size = 20; base_addr = 0; length = 0; type = 2 }

memory-IsMap : IsMap memory (kernel_base + 0x9000) (kernel_base + 0x9030) (usable ∷ reserved ∷ [])
unfolding read_mmap load physical
memory-IsMap = (
  omega arith,
  omega arith,
  refl,
  omega arith,
  (omega arith, omega arith, refl, omega arith, omega arith),
)

setup_frame_allocator-SetUp_example :
    SetUp 0x200000 (largest (usable ∷ reserved ∷ [])) (setup_frame_allocator 3 0x200000 info memory)
    × IsLargest (usable ∷ reserved ∷ []) (largest (usable ∷ reserved ∷ []))
unfolding largest
setup_frame_allocator-SetUp_example =
    setup_frame_allocator-SetUp 3 0x200000 info memory (usable ∷ reserved ∷ []) (omega arith)
      (omega arith) memory-IsMap (omega arith, omega arith, omega arith)

-- The thirteenth entry and those behind it stay, and the last of an array of ten is not the last written.
setup_initrd_lem_example :
    ((setup_initrd info memory (λ j. module_at memory 0 0)).0 ≡ 12)
    × ((setup_initrd info memory (λ j. module_at memory 0 0)).1 11 ≡ module_at memory 0x8000 11)
setup_initrd_lem_example =
    setup_initrd_lem info memory (λ j. module_at memory 0 0) 11 (omega arith) (omega arith)
