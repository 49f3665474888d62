-- ===== src/Interrupts.antt =====
-- src/arch/x86_64/idt.h, interrupts.c and exceptions.c: the interrupt descriptor table, and how the
-- kernel fills it.
pub mod Actions
pub mod Delivery
pub mod Vectors
pub mod Pic
pub mod Tests
use metal_to_app.Base.{ℕ, ◌+◌, ◌/◌, ◌%◌, ◌^◌, ◌==◌, ltb, if◌then◌else◌, List, [], ◌∷◌}
use metal_to_app.Gdt.{offset_cs64}

-- `struct idt_entry`, a number for each bit-field.
pub record IdtEntry : Type 0 where
  pub offset_lo : ℕ  -- 16 bits
  pub segment_sel : ℕ  -- 16
  pub ist : ℕ  -- 3
  pub padding1 : ℕ  -- 5
  pub type : ℕ  -- 4
  pub padding2 : ℕ  -- 1
  pub dpl : ℕ  -- 2
  pub present : ℕ  -- 1
  pub offset_mid : ℕ  -- 16
  pub offset_high : ℕ  -- 32
  pub reserved : ℕ  -- 32

-- `enum gate_type`.
pub data GateType : Type 0 where
  interrupt_gate trap_gate : GateType

abbrev pub gate_code : GateType → ℕ
gate_code interrupt_gate = 14
gate_code trap_gate = 15

-- The table `idt`.
abbrev pub Idt : Type 0
Idt = ℕ → IdtEntry

-- `memset(entry, 0, sizeof(struct idt_entry))`.
abbrev pub zero_entry : IdtEntry
zero_entry = record {
  offset_lo = 0;
  segment_sel = 0;
  ist = 0;
  padding1 = 0;
  type = 0;
  padding2 = 0;
  dpl = 0;
  present = 0;
  offset_mid = 0;
  offset_high = 0;
  reserved = 0;
}

abbrev pub gate_for : ℕ → GateType → IdtEntry
gate_for offset type = record zero_entry {
  offset_lo = offset % 2 ^ 16;
  offset_mid = offset / 2 ^ 16 % 2 ^ 16;
  offset_high = offset / 2 ^ 32 % 2 ^ 32;
  type = gate_code type;
  segment_sel = offset_cs64;
  ist = 1;
  dpl = 3;
  present = 1;
}

-- `load_interrupt_fn`.
unfoldable pub load_interrupt_fn : ℕ → ℕ → GateType → Idt → Idt
load_interrupt_fn fn_addr entry_no type idt =
    λ v. if v == entry_no then gate_for fn_addr type else idt v

-- The addresses of the handlers, which the linker chooses: one for each function of exceptions.c, `irqN`
-- by its number, and `ih_panic`.
pub record Handlers : Type 0 where
  pub invalid_opcode : ℕ
  pub double_fault : ℕ
  pub invalid_tss : ℕ
  pub segment_not_present : ℕ
  pub stack_segment_fault : ℕ
  pub general_protection : ℕ
  pub page_fault : ℕ
  pub alignment_check : ℕ
  pub irq : ℕ → ℕ
  pub ih_panic : ℕ

-- The IRQ numbers that `load_interrupts` installs, in its order: there is no irq2.
abbrev pub irq_numbers : List ℕ
irq_numbers = 0 ∷ 1 ∷ 3 ∷ 4 ∷ 5 ∷ 6 ∷ 7 ∷ 8 ∷ 9 ∷ 10 ∷ 11 ∷ 12 ∷ 13 ∷ 14 ∷ 15 ∷ []

-- `load_exceptions`: its eight calls in order.
unfoldable pub load_exceptions : Handlers → Idt → Idt
load_exceptions h idt =
    let idt₆ = load_interrupt_fn h.invalid_opcode 6 interrupt_gate idt in
    let idt₈ = load_interrupt_fn h.double_fault 8 interrupt_gate idt₆ in
    let idt₁₀ = load_interrupt_fn h.invalid_tss 10 interrupt_gate idt₈ in
    let idt₁₁ = load_interrupt_fn h.segment_not_present 11 interrupt_gate idt₁₀ in
    let idt₁₂ = load_interrupt_fn h.stack_segment_fault 12 interrupt_gate idt₁₁ in
    let idt₁₃ = load_interrupt_fn h.general_protection 13 interrupt_gate idt₁₂ in
    let idt₁₄ = load_interrupt_fn h.page_fault 14 interrupt_gate idt₁₃ in
    load_interrupt_fn h.alignment_check 17 interrupt_gate idt₁₄

-- One call of `load_interrupt_fn` for each IRQ of a list, IRQ n at vector 0x20 + n.
unfoldable pub load_irqs : (ℕ → ℕ) → List ℕ → Idt → Idt
load_irqs irq [] idt = idt
load_irqs irq (n ∷ ns) idt =
    load_irqs irq ns (load_interrupt_fn (irq n) (0x20 + n) interrupt_gate idt)

-- `load_interrupts`: the IRQs, then `ih_panic` at 200.
unfoldable pub load_interrupts : Handlers → Idt → Idt
load_interrupts h idt =
    load_interrupt_fn h.ih_panic 200 interrupt_gate (load_irqs h.irq irq_numbers idt)

-- A byte written to an I/O port, in the order of the writes.
pub record PortWrite : Type 0 where
  pub port : ℕ
  pub val : ℕ

abbrev pub outb : ℕ → ℕ → PortWrite
outb port val = record { port = port; val = val }

-- `eoi(irqNum)` with its `unsigned char`: the port writes that it makes.
unfoldable pub eoi : ℕ → List PortWrite
eoi irq_num = outb 0x20 0x20 ∷ (if ltb 8 (irq_num % 2 ^ 8) then outb 0xa0 0x20 ∷ [] else [])
