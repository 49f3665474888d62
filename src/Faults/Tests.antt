-- ===== src/Faults/Tests.antt =====
-- A fault at an address that is not the start of a page, with a pool of six frames.
use metal_to_app.Base.{◌/◌, ◌%◌, ◌≡◌, ◌≢◌, refl, inl, some, [], load, arith}
use metal_to_app.Frame.{FrameState, init_frame_allocator}
use metal_to_app.Frame.Pool
use metal_to_app.Frame.Pool.{Pool}
use metal_to_app.Paging.{shifts}
use metal_to_app.Paging.Tables.{IsWay}
use metal_to_app.Paging.Page.{NewPage}
use metal_to_app.Paging.Tests.{fresh, pool, fresh-Represents, after_first, after_first-Gives}
use metal_to_app.Interrupts.Actions.{page_fault_report}
use metal_to_app.Faults.{page_fault}
use metal_to_app.Faults.Dynamic.{rounded_up, page_fault_lem}

first : Pool.alloc pool ≡ some (0x3000, after_first)
unfolding Pool.alloc Pool.alloc_from Pool.alloc_from_range
first = refl

empty-IsWay : IsWay shifts fresh.mem pool 0x1000 (rounded_up 0xffffffffc0000123) []
unfolding fresh init_frame_allocator load
empty-IsWay = (((omega arith, refl, omega arith), refl), refl, refl, inl refl)

page_fault_lem_example :
    (s' : FrameState) × (p₂ : Pool) × (page_fault 0x1000 2 0xffffffffc0000123 0x5000 fresh
      ≡ some (page_fault_report 2 0xffffffffc0000123 0x5000, s'))
    × NewPage 0x1000 (rounded_up 0xffffffffc0000123) 0x3000 s' p₂
    × (0xffffffffc0000123 % 0x1000 ≢ 0
        → rounded_up 0xffffffffc0000123 / 0x1000 ≢ 0xffffffffc0000123 / 0x1000)
page_fault_lem_example =
    page_fault_lem 0x1000 2 0xffffffffc0000123 0x5000 0x3000 fresh pool after_first (omega arith)
      (omega arith) fresh-Represents first after_first-Gives empty-IsWay
