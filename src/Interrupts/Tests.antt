-- ===== src/Interrupts/Tests.antt =====
-- The theorems about the interrupt table and the controllers at concrete handlers.
use metal_to_app.Base.{ℕ, ◌≡◌, ◌≢◌, ◌↔◌, true, refl, [], ◌∷◌, arith}
use metal_to_app.Interrupts.{Idt, Handlers, zero_entry, eoi}
use metal_to_app.Interrupts.Vectors.{handler, boot_table, AreAddresses}
use metal_to_app.Interrupts.Pic.{Service, accept, serve, eoi-acknowledge}
use metal_to_app.Interrupts.Actions.{enable_interrupts}
use metal_to_app.Interrupts.Delivery.{Controllers, perform, vector_of, is_masked, irq_delivery}
use metal_to_app.Scheduler.Tests.{sole}

abbrev handlers : Handlers
handlers = record {
  invalid_opcode = 0xffffff8000001000;
  double_fault = 0xffffff8000001100;
  invalid_tss = 0xffffff8000001200;
  segment_not_present = 0xffffff8000001300;
  stack_segment_fault = 0xffffff8000001400;
  general_protection = 0xffffff8000001500;
  page_fault = 0xffffff8000001600;
  alignment_check = 0xffffff8000001700;
  irq = λ n. 0xffffff8000002000;
  ih_panic = 0xffffff8000003000;
}

handlers-AreAddresses : AreAddresses handlers
handlers-AreAddresses = record {
  invalid_opcode = omega arith;
  double_fault = omega arith;
  invalid_tss = omega arith;
  segment_not_present = omega arith;
  stack_segment_fault = omega arith;
  general_protection = omega arith;
  page_fault = omega arith;
  alignment_check = omega arith;
  irq = λ n. omega arith;
  ih_panic = omega arith;
}

abbrev blank : Idt
blank = λ v. zero_entry

-- The mouse interrupts the handler of the floppy disk.
abbrev floppy : Service
floppy = record { master = 6 ∷ []; slave = [] }

eoi-acknowledge_example : (serve (eoi 12) (accept 12 floppy) ≡ floppy) ↔ (◌≢◌ {A = ℕ} 12 8)
eoi-acknowledge_example = eoi-acknowledge 12 floppy (omega arith)

-- The controllers as the firmware leaves them, with the vectors 8 and 0x70.
abbrev firmware : Controllers
firmware = record {
  master = record { first_vector = 8; mask = 0; waits_for = 0 };
  slave = record { first_vector = 0x70; mask = 0; waits_for = 0 };
}

irq_delivery_example :
    (handler (
        boot_table handlers 0xffffff8000004000 sole blank
          (vector_of (perform enable_interrupts firmware) 1))
      ≡ handlers.irq 1)
    × (is_masked (perform enable_interrupts firmware) 1 ≡ true)
irq_delivery_example =
    irq_delivery firmware handlers 0xffffff8000004000 sole blank 1 (omega arith)
      handlers-AreAddresses refl
