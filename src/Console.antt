-- ===== src/Console.antt =====
-- src/print.c and print.h: text in the memory of the screen, and numbers as text.
pub mod Output
pub mod Hex
pub mod Tests
use metal_to_app.Base.{
  ℕ, zero, suc, ◌+◌, ◌-◌, ◌*◌, ◌/◌, ◌%◌, ◌^◌, ◌==◌, ltb, if◌then◌else◌, Option, none, some, List,
  [], ◌∷◌, Mem, update,
}
use metal_to_app.Memory.{kernel_base, physical}

-- Memory with the static `current_offset`.
pub record Screen : Type 0 where
  pub mem : Mem
  pub current_offset : ℕ

-- The value that `current_offset` starts with.
abbrev pub first_offset : ℕ
first_offset = 80

-- `vga_begin`.
abbrev pub vga_begin : ℕ
vga_begin = 0xB8000 + kernel_base

-- The address of a byte of the screen.
abbrev pub screen_byte : ℕ → ℕ
screen_byte i = physical ((vga_begin + i) % 2 ^ 64)

-- The loop of `cwrite` on fuel, which stops at the zero byte of the message: the number of characters
-- and the memory. `none` is an exhausted fuel.
unfoldable pub cwrite_from : ℕ → ℕ → ℕ → ℕ → Mem → Option (ℕ × Mem)
cwrite_from zero screen_offset message written m = none
cwrite_from (suc fuel) screen_offset message written m =
    let c = m (physical (message + written)) in
    let first = update m (screen_byte (2 * screen_offset + written * 2)) c in
    let rest =
      cwrite_from fuel screen_offset message (written + 1)
        (update first (screen_byte (2 * screen_offset + (written * 2 + 1))) 0xf) in
    if c == 0 then some (written, m) else rest

-- `cwrite`.
unfoldable pub cwrite : ℕ → ℕ → ℕ → Mem → Option (ℕ × Mem)
cwrite fuel screen_offset message m = cwrite_from fuel screen_offset message 0 m

-- `print`.
unfoldable pub print : ℕ → ℕ → Screen → Option Screen
print fuel message s = elim (cwrite fuel s.current_offset message s.mem) [
  | none ↦ none
  | some (written_chars, m) ↦
      some (record { mem = m; current_offset = (s.current_offset + written_chars) % (80 * 25) })
]

-- `println`.
unfoldable pub println : ℕ → ℕ → Screen → Option Screen
println fuel message s = elim (print fuel message s) [
  | none ↦ none
  | some s' ↦ some (record s' { current_offset = (s'.current_offset + 79) / 80 * 80 })
]

-- The character of a nibble in `printhex`.
unfoldable pub hex_char : ℕ → ℕ
hex_char nibble = if ltb 9 nibble then nibble - 10 + b'a' else nibble + b'0'

-- The loop of `printhex`, with `n` digits left.
unfoldable pub hex_digits : ℕ → ℕ → List ℕ
hex_digits zero number = []
hex_digits (suc n) number = hex_char (number / 2 ^ (4 * n) % 16) ∷ hex_digits n number

-- The buffer that `printhex` hands to `print`, without the zero byte at its end.
unfoldable pub hex_text : ℕ → List ℕ
hex_text number = b'0' ∷ b'x' ∷ hex_digits 16 number
