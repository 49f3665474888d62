-- ===== src/Interrupts/Actions.antt =====
-- The handlers of interrupts.c and exceptions.c, and `enable_interrupts`, as the actions that they take in
-- order. The interrupt frame and the handling of page faults by mapping are left out.
use Prim.Native.String.{String}
use metal_to_app.Base.{ℕ, ◌+◌, ◌%◌, ◌==◌, if◌then◌else◌, List, [], ◌∷◌, ◌++◌, map}
use metal_to_app.Interrupts.{PortWrite, outb, eoi}

-- A call of `print`, `println` or `printhex`, a write to a port, or the instructions `hlt`, and `lidt`
-- with the size of the table followed by `sti`.
pub data Action : Type 0 where
  print println : String → Action
  printhex : ℕ → Action
  write : PortWrite → Action
  hlt : Action
  load_idt : ℕ → Action

-- `eoi(n)` as actions.
unfoldable pub end_irq : ℕ → List Action
unfolding eoi
end_irq n = map write (eoi n)

-- The text that the handler of an IRQ prints; IRQ 0 prints at every 182nd tick, and IRQ 2 has no handler.
unfoldable pub irq_text : ℕ → String
irq_text n =
    if n == 1
    then "keyboard"
    else if n == 3
    then "COM2/4"
    else if n == 4
    then "COM1/3"
    else if n == 5
    then "LPT2"
    else if n == 6
    then "FLOPPY"
    else if n == 7
    then "LPT1/spurious"
    else if n == 8
    then "CMOS RTC"
    else if n == 12
    then "mouse"
    else if n == 13
    then "fpu/coprocessor"
    else if n == 14
    then "primary ATA"
    else if n == 15
    then "secondary ATA"
    else "free/scsi/nic"

-- `irq0` with `timerCnt`.
unfoldable pub irq0 : ℕ → ℕ × List Action
irq0 timer_cnt =
    (timer_cnt + 1, (if timer_cnt % 182 == 0 then println "timer" ∷ [] else []) ++ end_irq 0)

-- `irq1` and `irq3` to `irq15`.
unfoldable pub irq_handler : ℕ → List Action
irq_handler n = println (irq_text n) ∷ end_irq n

-- `ih_panic`.
unfoldable pub ih_panic : List Action
ih_panic = println "KERNEL PANIC!" ∷ hlt ∷ []

-- `enable_interrupts`; `sizeof(idt)` is 256 entries of 16 bytes.
unfoldable pub enable_interrupts : List Action
enable_interrupts =
    write (outb 0x20 0x11)
    ∷ write (outb 0xA0 0x11)
    ∷ write (outb 0x21 0x20)
    ∷ write (outb 0xA1 0x28)
    ∷ write (outb 0x21 0x04)
    ∷ write (outb 0xA1 0x02)
    ∷ write (outb 0x21 0x01)
    ∷ write (outb 0xA1 0x01)
    ∷ write (outb 0x21 0xff)
    ∷ write (outb 0xA1 0xff)
    ∷ load_idt 0x1000
    ∷ []

-- The handlers of exceptions.c but for `page_fault`: by vector, with the error code and the address of
-- the instruction.
unfoldable pub report : String → ℕ → List Action
report text number = print text ∷ printhex number ∷ println "" ∷ hlt ∷ []

unfoldable pub double_fault : ℕ → List Action
double_fault error_code = println "Double fault!" ∷ hlt ∷ []

unfoldable pub invalid_tss : ℕ → List Action
unfolding report
invalid_tss error_code = report "Invalid TSS code 0x" error_code

unfoldable pub general_protection : ℕ → List Action
unfolding report
general_protection error_code = report "General protection fault code 0x" error_code

unfoldable pub stack_segment_fault : ℕ → List Action
unfolding report
stack_segment_fault error_code = report "Stack-Segment Fault code 0x" error_code

unfoldable pub segment_not_present : ℕ → List Action
unfolding report
segment_not_present error_code = report "Segment not present fault code 0x" error_code

unfoldable pub invalid_opcode : ℕ → List Action
unfolding report
invalid_opcode rip = report "Invalid opcode at 0x" rip

unfoldable pub alignment_check : ℕ → List Action
unfolding report
alignment_check error_code = report "Alignment check failed code 0x" error_code

-- What `page_fault` prints where `handle_dynamic_fault` returns false.
unfoldable pub page_fault_report : ℕ → ℕ → ℕ → List Action
page_fault_report error_code address rip =
    print "Page fault code 0x"
    ∷ printhex error_code
    ∷ print ", address 0x"
    ∷ printhex address
    ∷ print ", instruction: 0x"
    ∷ printhex rip
    ∷ println ""
    ∷ hlt
    ∷ []
