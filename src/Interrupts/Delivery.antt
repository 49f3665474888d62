-- ===== src/Interrupts/Delivery.antt =====
-- The two interrupt controllers as their documentation has them, and where an IRQ arrives after
-- `enable_interrupts`.
use metal_to_app.Base.{
  ℕ, ◌+◌, ◌-◌, ◌^◌, ◌≤◌, ◌<◌, ◌≡◌, refl, ap, ◌∙◌, inl, inr, ◌==◌, ltb, leb, if◌then◌else◌, Bool,
  true, false, List, [], ◌∷◌, has, test_bit, all_below, at_below, lt-cases, lt→ltb, ne→==, arith,
}
use metal_to_app.Interrupts.{Idt, Handlers, PortWrite, irq_numbers}
use metal_to_app.Interrupts.Actions.{Action, write, enable_interrupts}
use metal_to_app.Interrupts.Vectors.{handler, boot_table, AreAddresses, intended, boot_vectors}
use metal_to_app.Scheduler.Select.{Kernel}

-- A controller: the vector of its first line, the mask of its lines, and which word of the
-- initialisation it waits for, 0 being none.
pub record Controller : Type 0 where
  pub first_vector : ℕ
  pub mask : ℕ
  pub waits_for : ℕ

-- A write to the data port: the second word is the first vector, the third and the fourth say how the
-- controllers are joined, and other writes set the mask.
abbrev pub data_write : ℕ → Controller → Controller
data_write val c =
    if c.waits_for == 2
    then record c { first_vector = val; waits_for = 3 }
    else if c.waits_for == 3
    then record c { waits_for = 4 }
    else if c.waits_for == 4
    then record c { waits_for = 0 }
    else record c { mask = val }

-- A write to the command port; 0x11 begins an initialisation of four words.
abbrev pub command_write : ℕ → Controller → Controller
command_write val c = if val == 0x11 then record c { waits_for = 2; mask = 0 } else c

-- The master and the slave.
pub record Controllers : Type 0 where
  pub master : Controller
  pub slave : Controller

abbrev pub port_write : PortWrite → Controllers → Controllers
port_write w c =
    if w.port == 0x20
    then record c { master = command_write w.val c.master }
    else if w.port == 0x21
    then record c { master = data_write w.val c.master }
    else if w.port == 0xA0
    then record c { slave = command_write w.val c.slave }
    else if w.port == 0xA1
    then record c { slave = data_write w.val c.slave }
    else c

-- The writes of a sequence of actions, in order.
abbrev pub perform : List Action → Controllers → Controllers
perform [] c = c
perform (write w ∷ rest) c = perform rest (port_write w c)
perform (a ∷ rest) c = perform rest c

-- The vector of an IRQ, and whether it is masked.
abbrev pub vector_of : Controllers → ℕ → ℕ
vector_of c n = if ltb n 8 then c.master.first_vector + n else c.slave.first_vector + (n - 8)

abbrev pub is_masked : Controllers → ℕ → Bool
is_masked c n = if ltb n 8 then test_bit c.master.mask n else test_bit c.slave.mask (n - 8)

-- The four words of each controller and the masks.
enabled :
    (c : Controllers)
    → perform enable_interrupts c ≡ record {
      master = record { first_vector = 0x20; mask = 0xff; waits_for = 0 };
      slave = record { first_vector = 0x28; mask = 0xff; waits_for = 0 };
    }
unfolding enable_interrupts
enabled c = refl

irq_vector :
    (c : Controllers) (n : ℕ) → n < 16 → vector_of (perform enable_interrupts c) n ≡ 0x20 + n
irq_vector c n lt = rw (enabled c) (ground arith)

lines_masked : all_below 8 (test_bit 0xff) ≡ true
unfolding all_below
lines_masked = refl

irq_masked : (c : Controllers) (n : ℕ) → n < 16 → is_masked (perform enable_interrupts c) n ≡ true
irq_masked c n lt = rw (enabled c) (elim (lt-cases n 8) [
  | inl low ↦ rw (lt→ltb n 8 low) (at_below 8 (test_bit 0xff) n lines_masked low)
  | inr high ↦ rw (slave_line high) (at_below 8 (test_bit 0xff) (n - 8) lines_masked (omega arith))
])
  where
    slave_line : 8 ≤ n → ltb n 8 ≡ false
    slave_line high = ground arith

irq_numbers-lt : (n : ℕ) → has n irq_numbers ≡ true → n < 16
irq_numbers-lt n h = ground arith

-- The intended handler at the vector of an IRQ.
intended-irq :
    (h : Handlers) (asm_reschedule : ℕ) (idt : Idt) (n : ℕ)
    → has n irq_numbers ≡ true
    → intended h asm_reschedule idt (0x20 + n) ≡ h.irq n
intended-irq h asm_reschedule idt n e =
    let lt = irq_numbers-lt n e in
    let back : 0x20 + n - 0x20 ≡ n = omega arith in
    let above : leb 0x20 (0x20 + n) ≡ true = ground arith in
    let low : leb (0x20 + n) 0x2f ≡ true = ground arith in
    let joined : ((0x20 + n) == 0x22) ≡ false = ground arith in
    rw
      (
        ne→== (0x20 + n) 201 (omega arith),
        ne→== (0x20 + n) 200 (omega arith),
        back,
        above,
        low,
        joined,
      )
      refl

-- After enable_interrupts on controllers in any state, and the boot sequence of the interrupt
-- table with handler addresses below 2^64, the vector at which an IRQ that has a handler arrives
-- calls the handler of that IRQ, and every such IRQ is masked.
pub irq_delivery :
    (c : Controllers) (h : Handlers) (asm_reschedule : ℕ) (k : Kernel) (idt : Idt) (n : ℕ)
    → asm_reschedule < 2 ^ 64
    → AreAddresses h
    → has n irq_numbers ≡ true
    → let after = perform enable_interrupts c in
      (handler (boot_table h asm_reschedule k idt (vector_of after n)) ≡ h.irq n)
      × (is_masked after n ≡ true)
irq_delivery c h asm_reschedule k idt n small a e =
    let lt = irq_numbers-lt n e in
    (
      ap (λ v. handler (boot_table h asm_reschedule k idt v)) (irq_vector c n lt)
          ∙ boot_vectors h asm_reschedule k idt small a (0x20 + n)
          ∙ intended-irq h asm_reschedule idt n e,
      irq_masked c n lt,
    )
