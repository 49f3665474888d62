-- ===== src/Faults.antt =====
-- src/map-dynamic.c, with the handler `page_fault` of src/arch/x86_64/exceptions.c that calls it.
pub mod Dynamic
mod Tests
use metal_to_app.Base.{
  ℕ, ◌+◌, ◌-◌, ◌*◌, ◌/◌, ◌%◌, ◌^◌, ltb, if◌then◌else◌, ◌&&◌, Bool, false, Option, none, some, List,
  [],
}
use metal_to_app.Memory.{dynamic_start, linear_address_to_ptr}
use metal_to_app.Frame.{FrameState, frame_size, frame_alloc_zero}
use metal_to_app.Paging.{mmap}
use metal_to_app.Interrupts.Actions.{Action, page_fault_report}

-- `<` on words as `intptr_t`.
abbrev pub signed_ltb : ℕ → ℕ → Bool
signed_ltb a b = ltb ((a + 2 ^ 63) % 2 ^ 64) ((b + 2 ^ 63) % 2 ^ 64)

-- `a / n * n` on a word as `intptr_t`; the division of C drops the fraction.
unfoldable pub truncated : ℕ → ℕ → ℕ
truncated a n = if ltb a (2 ^ 63) then a / n * n else (2 ^ 64 - (2 ^ 64 - a) / n * n) % 2 ^ 64

-- `handle_dynamic_fault`, with `kernel_address_space`; `none` is a panic of the allocator.
unfoldable pub handle_dynamic_fault : ℕ → ℕ → FrameState → Option (Bool × FrameState)
handle_dynamic_fault kernel_address_space address s =
    let mapped : Option (Bool × FrameState) = elim (frame_alloc_zero s) [
      | none ↦ none
      | some (new_page, s') ↦
          let mapping_start = truncated address frame_size in
          elim (mmap (linear_address_to_ptr kernel_address_space) new_page mapping_start false s') [
            | none ↦ none
            | some s'' ↦ some (false, s'')
          ]
    ] in
    if signed_ltb dynamic_start address && signed_ltb address 0 then mapped else some (false, s)

-- `page_fault`, with the error code, cr2 and the interrupted instruction: what it does besides the
-- mapping.
unfoldable pub page_fault : ℕ → ℕ → ℕ → ℕ → FrameState → Option (List Action × FrameState)
page_fault kernel_address_space error_code address rip s =
    elim (handle_dynamic_fault kernel_address_space address s) [
      | none ↦ none
      | some (handled, s') ↦
          some ((if handled then [] else page_fault_report error_code address rip), s')
    ]
