-- ===== src/Keyboard/Ports.antt =====
-- The port protocol of keyboard.c: ps2data, ps2command, ps2command2, ps2readSpin and initps2. What the
-- controller answers is a parameter: the byte that the read of a port gives, by the number of reads before
-- it. The loops that wait for the controller are on fuel.
use Prim.Native.String.{String}
use metal_to_app.Base.{
  ℕ, zero, suc, ◌+◌, ◌*◌, ◌/◌, ◌%◌, if◌then◌else◌, Option, none, some, List, ◌∷◌, test_bit,
}

-- A read or write of a port, a call of `print`, `println` or `printhex`, or `hlt`.
pub data Event : Type 0 where
  read write : ℕ → ℕ → Event
  print println : String → Event
  printhex : ℕ → Event
  hlt : Event

-- The number of reads so far, and what was done, the latest first.
pub record Ports : Type 0 where
  pub reads : ℕ
  pub events : List Event

-- The answers of the controller.
abbrev pub Answers : Type 0
Answers = ℕ → ℕ → ℕ

abbrev pub does : Event → Ports → Ports
does e s = record s { events = e ∷ s.events }

-- `inb` and `outb`.
unfoldable pub inb : Answers → ℕ → Ports → ℕ × Ports
inb answers port s =
    let value = answers s.reads port % 256 in
    (value, record { reads = s.reads + 1; events = read port value ∷ s.events })

unfoldable pub outb : ℕ → ℕ → Ports → Ports
outb port val s = does (write port val) s

-- `ps2data`.
unfoldable pub ps2data : Answers → ℕ → ℕ → Ports → Option Ports
ps2data answers zero byte s = none
ps2data answers (suc fuel) byte s =
    let (status, s') = inb answers 0x64 s in
    let rest = ps2data answers fuel byte s' in
    if test_bit status 1 then rest else some (outb 0x60 byte s')

unfoldable pub ps2command : ℕ → Ports → Ports
ps2command cmd s = outb 0x64 cmd s

unfoldable pub ps2command2 : Answers → ℕ → ℕ → ℕ → Ports → Option Ports
ps2command2 answers fuel cmd byte s = ps2data answers fuel byte (ps2command cmd s)

-- `ps2readSpin`.
unfoldable pub ps2_read_spin : Answers → ℕ → Ports → Option (ℕ × Ports)
ps2_read_spin answers zero s = none
ps2_read_spin answers (suc fuel) s =
    let (status, s') = inb answers 0x64 s in
    let rest = ps2_read_spin answers fuel s' in
    if test_bit status 0 then some (inb answers 0x60 s') else rest

-- The loop of `initps2` that empties the buffer.
unfoldable pub flush : Answers → ℕ → Ports → Option Ports
flush answers zero s = none
flush answers (suc fuel) s =
    let (status, s') = inb answers 0x64 s in
    let rest = flush answers fuel (inb answers 0x60 s').1 in
    if test_bit status 0 then rest else some s'

-- `cc & 0x34`.
abbrev pub configured : ℕ → ℕ
configured cc = cc / 4 % 2 * 4 + cc / 16 % 4 * 16

-- `initps2` behind the loop that empties the buffer.
unfoldable pub configure : Answers → ℕ → Ports → Option Ports
configure answers fuel s = elim (ps2_read_spin answers fuel (ps2command 0x20 s)) [
  | none ↦ none
  | some (cc, s₁) ↦ elim (ps2command2 answers fuel 0x60 (configured cc) s₁) [
    | none ↦ none
    | some s₂ ↦
        let printed =
          does (println "")
            (does (printhex (configured cc)) (does (print "PS2 Controller configuration: ") s₂)) in
        elim (ps2_read_spin answers fuel (ps2command 0xaa printed)) [
          | none ↦ none
          | some (test_result, s₃) ↦ some (ps2command 0xae (does (printhex test_result) s₃))
        ]
  ]
]

-- `initps2`.
unfoldable pub initps2 : Answers → ℕ → Ports → Option Ports
initps2 answers fuel s = elim (flush answers fuel (ps2command 0xa7 (ps2command 0xad s))) [
  | none ↦ none
  | some s' ↦ configure answers fuel s'
]
