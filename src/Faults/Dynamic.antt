-- ===== src/Faults/Dynamic.antt =====
-- What a fault at a dynamic address comes to.
use metal_to_app.Base.{
  ℕ, ◌+◌, ◌*◌, ◌/◌, ◌%◌, ◌^◌, ◌≤◌, ◌<◌, ◌≡◌, ◌≢◌, refl, ltb, ◌&&◌, true, false, some, [], arith,
}
use metal_to_app.Memory.{linear_start, dynamic_start, linear_address_to_ptr}
use metal_to_app.Memory.Linear.{linear_address_to_ptr-eq}
use metal_to_app.Frame.{FrameState, frame_size, frame_alloc_zero}
use metal_to_app.Frame.Pool
use metal_to_app.Frame.Pool.{Pool}
use metal_to_app.Frame.Invariant.{Represents}
use metal_to_app.Paging.{shifts, mmap}
use metal_to_app.Paging.Tables.{IsWay, root-Owned}
use metal_to_app.Paging.Ensure.{Gives}
use metal_to_app.Paging.Page.{NewPage, mmap-NewPage}
use metal_to_app.Interrupts.Actions.{page_fault_report}
use metal_to_app.Faults.{signed_ltb, truncated, handle_dynamic_fault, page_fault}

-- The start of the first page at or behind an address, as a word.
abbrev pub rounded_up : ℕ → ℕ
rounded_up address = (address + 0xfff) / 0x1000 * 0x1000 % 2 ^ 64

truncated-negative : (a : ℕ) → 2 ^ 63 ≤ a → a < 2 ^ 64 → truncated a frame_size ≡ rounded_up a
unfolding truncated
truncated-negative a lo hi =
    let negative : ltb a (2 ^ 63) ≡ false = ground arith in rw negative (omega arith)

is_dynamic :
    (a : ℕ) → dynamic_start < a → a < 2 ^ 64 → (signed_ltb dynamic_start a && signed_ltb a 0) ≡ true
is_dynamic a lo hi = ground arith

handle-found :
    (space address page root next : ℕ) (s s₁ s₂ : FrameState)
    → (signed_ltb dynamic_start address && signed_ltb address 0) ≡ true
    → truncated address frame_size ≡ next
    → linear_address_to_ptr space ≡ root
    → frame_alloc_zero s ≡ some (page, s₁)
    → mmap root page next false s₁ ≡ some s₂
    → handle_dynamic_fault space address s ≡ some (false, s₂)
unfolding handle_dynamic_fault
handle-found space address page root next s s₁ s₂ dynamic start at given mapped =
    rw (dynamic, given, start, at, mapped, handle_dynamic_fault) refl

page_fault-found :
    (space error_code address rip : ℕ) (s s' : FrameState)
    → handle_dynamic_fault space address s ≡ some (false, s')
    → page_fault space error_code address rip s
      ≡ some (page_fault_report error_code address rip, s')
unfolding page_fault
page_fault-found space error_code address rip s s' e = rw (e, page_fault) refl

other_page : (a : ℕ) → a % 0x1000 ≢ 0 → a < 2 ^ 64 → rounded_up a / 0x1000 ≢ a / 0x1000
other_page a ne lt e = omega arith

-- For a fault above DYNAMIC_START, with four frames in the pool and a way that mmap can map on,
-- page_fault maps a zeroed frame at the address rounded up to a whole page, through which the
-- CPU then reaches that frame, and still reports the fault and halts; for an address that is not
-- page aligned the mapped page is not the page of the fault.
pub page_fault_lem :
    (space error_code address rip a : ℕ) (s : FrameState) (p p' : Pool)
    → dynamic_start < address
    → address < 2 ^ 64
    → Represents s p
    → Pool.alloc p ≡ some (a, p')
    → Gives 3 p'
    → IsWay shifts s.mem p space (rounded_up address) []
    → (s' : FrameState) × (p₂ : Pool) × (page_fault space error_code address rip s
        ≡ some (page_fault_report error_code address rip, s'))
      × NewPage space (rounded_up address) a s' p₂
      × (address % 0x1000 ≢ 0 → rounded_up address / 0x1000 ≢ address / 0x1000)
page_fault_lem space error_code address rip a s p p' lo hi r e g way =
    let (o, _) = root-Owned shifts s.mem p space (rounded_up address) [] way in
    let at : linear_address_to_ptr space ≡ linear_start + space =
      linear_address_to_ptr-eq space (omega (arith, o.0)) in
    let (s₁, s₂, p₂, given, mapped, page) =
      mmap-NewPage space (rounded_up address) a false s p p' r e g way in
    (
      s₂,
      p₂,
      page_fault-found space error_code address rip s s₂ (
          handle-found space address a (linear_start + space) (rounded_up address) s s₁ s₂
            (is_dynamic address lo hi) (truncated-negative address (omega arith) hi) at given
            mapped),
      page,
      λ ne. other_page address ne hi,
    )
