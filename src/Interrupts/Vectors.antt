-- ===== src/Interrupts/Vectors.antt =====
-- The table that the boot sequence leaves: which function the CPU calls at each vector.
use metal_to_app.Base.{
  ℕ, ◌+◌, ◌-◌, ◌*◌, ◌^◌, ◌<◌, ◌≡◌, ap, ◌∙◌, inl, inr, ◌==◌, leb, if◌then◌else◌, ◌&&◌, List, [], ◌∷◌,
  has, not, eq→==, ne→==, eq-cases, arith,
}
use metal_to_app.Interrupts.{
  IdtEntry, Idt, GateType, interrupt_gate, trap_gate, load_interrupt_fn, Handlers, irq_numbers,
  load_irqs, load_exceptions, load_interrupts,
}
use metal_to_app.Scheduler.Select.{Kernel}
use metal_to_app.Scheduler.Switch.{init_scheduler}

-- The address that the CPU puts together from a gate.
abbrev pub handler : IdtEntry → ℕ
handler e = e.offset_lo + e.offset_mid * 2 ^ 16 + e.offset_high * 2 ^ 32

pub handler-load :
    (fn_addr entry_no : ℕ) (type : GateType) (idt : Idt) (v : ℕ)
    → fn_addr < 2 ^ 64
    → handler (load_interrupt_fn fn_addr entry_no type idt v)
      ≡ (if v == entry_no then fn_addr else handler (idt v))
unfolding load_interrupt_fn
handler-load fn_addr entry_no type idt v h = elim (eq-cases v entry_no) [
  | inl e ↦ rw (eq→== v entry_no e) (omega arith)
  | inr ne ↦ rw (ne→== v entry_no ne)
]

-- One more call behind a table of which a vector is known.
handler-next :
    (fn_addr entry_no : ℕ) (type : GateType) (idt : Idt) (v before : ℕ)
    → fn_addr < 2 ^ 64
    → handler (idt v) ≡ before
    → handler (load_interrupt_fn fn_addr entry_no type idt v)
      ≡ (if v == entry_no then fn_addr else before)
handler-next fn_addr entry_no type idt v before h e =
    handler-load fn_addr entry_no type idt v h ∙ ap (λ x. if v == entry_no then fn_addr else x) e

-- The calls for a list of IRQs.
handler-load_irqs :
    (irq : ℕ → ℕ) (ns : List ℕ) (idt : Idt) (v : ℕ)
    → ((n : ℕ) → irq n < 2 ^ 64)
    → handler (load_irqs irq ns idt v)
      ≡ (if leb 0x20 v && has (v - 0x20) ns then irq (v - 0x20) else handler (idt v))
unfolding load_irqs
handler-load_irqs irq [] idt v h = ground arith
handler-load_irqs irq (n ∷ ns) idt v h =
    handler-load_irqs irq ns (load_interrupt_fn (irq n) (0x20 + n) interrupt_gate idt) v h
    ∙ ap (λ x. if leb 0x20 v && has (v - 0x20) ns then irq (v - 0x20) else x)
        (handler-load (irq n) (0x20 + n) interrupt_gate idt v (h n))
    ∙ ground arith

-- Which vectors are those of IRQs with a handler.
irq_lines :
    (v : ℕ)
    → (leb 0x20 v && has (v - 0x20) irq_numbers) ≡ (leb 0x20 v && leb v 0x2f && not (v == 0x22))
irq_lines v = ground arith

-- Every handler lies below 2^64.
pub record AreAddresses (h : Handlers) : Type 0 where
  pub invalid_opcode : h.invalid_opcode < 2 ^ 64
  pub double_fault : h.double_fault < 2 ^ 64
  pub invalid_tss : h.invalid_tss < 2 ^ 64
  pub segment_not_present : h.segment_not_present < 2 ^ 64
  pub stack_segment_fault : h.stack_segment_fault < 2 ^ 64
  pub general_protection : h.general_protection < 2 ^ 64
  pub page_fault : h.page_fault < 2 ^ 64
  pub alignment_check : h.alignment_check < 2 ^ 64
  pub irq : (n : ℕ) → h.irq n < 2 ^ 64
  pub ih_panic : h.ih_panic < 2 ^ 64

-- The table after `load_exceptions`, `load_interrupts` and `init_scheduler`, in the order of
-- `cstart`.
abbrev pub boot_table : Handlers → ℕ → Kernel → Idt → Idt
boot_table h asm_reschedule k idt =
    (init_scheduler asm_reschedule k (load_interrupts h (load_exceptions h idt))).1

-- The handler of an exception by its vector, as the manual of the CPU numbers them.
abbrev pub exception : Handlers → Idt → ℕ → ℕ
exception h idt v =
    if v == 17
    then h.alignment_check
    else if v == 14
    then h.page_fault
    else if v == 13
    then h.general_protection
    else if v == 12
    then h.stack_segment_fault
    else if v == 11
    then h.segment_not_present
    else if v == 10
    then h.invalid_tss
    else if v == 8
    then h.double_fault
    else if v == 6
    then h.invalid_opcode
    else handler (idt v)

-- The function that the boot sequence means for a vector. The vectors 0x20 to 0x2f are those of the IRQs,
-- of which number 2 joins the two controllers and has no handler.
abbrev pub intended : Handlers → ℕ → Idt → ℕ → ℕ
intended h asm_reschedule idt v =
    if v == 201
    then asm_reschedule
    else if v == 200
    then h.ih_panic
    else if leb 0x20 v && leb v 0x2f && not (v == 0x22)
    then h.irq (v - 0x20)
    else exception h idt v

handler-load_exceptions :
    (h : Handlers) (idt : Idt) (v : ℕ)
    → AreAddresses h
    → handler (load_exceptions h idt v) ≡ exception h idt v
unfolding load_exceptions
handler-load_exceptions h idt v a =
    handler-next h.alignment_check 17 interrupt_gate _ v _ a.alignment_check (
      handler-next h.page_fault 14 interrupt_gate _ v _ a.page_fault (
        handler-next h.general_protection 13 interrupt_gate _ v _ a.general_protection (
          handler-next h.stack_segment_fault 12 interrupt_gate _ v _ a.stack_segment_fault (
            handler-next h.segment_not_present 11 interrupt_gate _ v _ a.segment_not_present (
              handler-next h.invalid_tss 10 interrupt_gate _ v _ a.invalid_tss (
                handler-next h.double_fault 8 interrupt_gate _ v _ a.double_fault
                  (handler-load h.invalid_opcode 6 interrupt_gate idt v a.invalid_opcode)))))))

pub boot_vectors :
    (h : Handlers) (asm_reschedule : ℕ) (k : Kernel) (idt : Idt)
    → asm_reschedule < 2 ^ 64
    → AreAddresses h
    → (v : ℕ) → handler (boot_table h asm_reschedule k idt v) ≡ intended h asm_reschedule idt v
unfolding init_scheduler load_interrupts
boot_vectors h asm_reschedule k idt small a v =
    handler-next asm_reschedule 201 trap_gate with_irqs v _ small (
      handler-next h.ih_panic 200 interrupt_gate irqs v _ a.ih_panic (
        handler-load_irqs h.irq irq_numbers exceptions v a.irq
        ∙ ap (λ b. if b then h.irq (v - 0x20) else handler (exceptions v)) (irq_lines v)
        ∙ ap (λ x. if leb 0x20 v && leb v 0x2f && not (v == 0x22) then h.irq (v - 0x20) else x)
            (handler-load_exceptions h idt v a)))
  where
    exceptions : Idt
    exceptions = load_exceptions h idt

    irqs : Idt
    irqs = load_irqs h.irq irq_numbers exceptions

    with_irqs : Idt
    with_irqs = load_interrupts h exceptions
