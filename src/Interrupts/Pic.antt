-- ===== src/Interrupts/Pic.antt =====
-- The end of an interrupt, with the two interrupt controllers as their documentation has them.
use metal_to_app.Base.{
  ℕ, suc, ◌≤◌, ◌%◌, ◌^◌, ◌-◌, ◌<◌, ◌≡◌, ◌≢◌, ◌↔◌, refl, ap, ◌==◌, ltb, if◌then◌else◌, ◌&&◌, List,
  [], ◌∷◌, inl, inr, true, false, lt-cases, arith,
}
use mathlib.Core.Path.{subst}
use metal_to_app.Interrupts.{PortWrite, eoi}

-- The lines of each controller that are in service, the highest priority first. While a line is in
-- service the controller holds it back and those of lower priority.
pub record Service : Type 0 where
  pub master : List ℕ
  pub slave : List ℕ

-- An IRQ that the CPU takes: those from 8 on are lines of the slave, which is joined to line 2 of the
-- master.
abbrev pub accept : ℕ → Service → Service
accept irq s =
    if ltb irq 8
    then record s { master = irq ∷ s.master }
    else record { master = 2 ∷ s.master; slave = (irq - 8) ∷ s.slave }

-- The line of the highest priority is no more in service.
abbrev pub drop_first : List ℕ → List ℕ
drop_first [] = []
drop_first (line ∷ rest) = rest

-- 0x20 at the command port of a controller is the end of interrupt that names no line.
abbrev pub end_of_interrupt : PortWrite → Service → Service
end_of_interrupt w s =
    if w.port == 0x20 && w.val == 0x20
    then record s { master = drop_first s.master }
    else if w.port == 0xa0 && w.val == 0x20
    then record s { slave = drop_first s.slave }
    else s

abbrev pub serve : List PortWrite → Service → Service
serve [] s = s
serve (w ∷ ws) s = serve ws (end_of_interrupt w s)

-- IRQ 8 stays in service on the slave.
clock_in_service : (s : Service) → (serve (eoi 8) (accept 8 s)).slave ≡ 0 ∷ s.slave
unfolding eoi
clock_in_service s = refl

abbrev lines : List ℕ → ℕ
lines [] = 0
lines (x ∷ xs) = suc (lines xs)

no_longer : (xs : List ℕ) → 0 ∷ xs ≢ xs
no_longer xs e =
    let longer : suc (lines xs) ≡ lines xs = ap lines e in absurd (omega (arith, longer))

others_end : (irq : ℕ) (s : Service) → irq < 16 → irq ≢ 8 → serve (eoi irq) (accept irq s) ≡ s
unfolding eoi
others_end irq s lt ne = elim (lt-cases irq 8) [
  | inl low ↦
      let at_master : ltb irq 8 ≡ true = ground arith in
      let alone : ltb 8 (irq % 2 ^ 8) ≡ false = not_told low in rw (at_master, alone) refl
  | inr high ↦
      let at_slave : ltb irq 8 ≡ false = ground arith in
      let both : ltb 8 (irq % 2 ^ 8) ≡ true = told high in rw (at_slave, both) refl
]
  where
    small : irq % 2 ^ 8 ≡ irq
    small = omega arith

    not_told : irq < 8 → ltb 8 (irq % 2 ^ 8) ≡ false
    not_told low = rw small (ground arith)

    told : 8 ≤ irq → ltb 8 (irq % 2 ^ 8) ≡ true
    told high = rw small (ground arith)

-- For an IRQ below 16 that the CPU takes, whatever lines are in service before, the port writes
-- of eoi take exactly the lines of this IRQ out of service again, on both controllers, if and
-- only if it is not IRQ 8.
pub eoi-acknowledge :
    (irq : ℕ) (s : Service) → irq < 16 → (serve (eoi irq) (accept irq s) ≡ s) ↔ (irq ≢ 8)
eoi-acknowledge irq s lt = (
  λ same at_clock. no_longer s.slave (
      subst (λ l. l ≡ s.slave) (clock_in_service s)
        (ap (λ r. r.slave) (subst (λ n. serve (eoi n) (accept n s) ≡ s) at_clock same))),
  others_end irq s lt,
)
