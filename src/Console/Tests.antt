-- ===== src/Console/Tests.antt =====
-- A message of two characters at the top of the kernel image, and a number.
use metal_to_app.Base.{
  ℕ, ◌+◌, ◌*◌, ◌/◌, ◌%◌, ◌≤◌, ◌<◌, ◌≡◌, ◌⊎◌, ◌==◌, if◌then◌else◌, refl, inr, some, arith, Mem,
}
use metal_to_app.Memory.{kernel_base, physical}
use metal_to_app.Console.{Screen, println, hex_text}
use metal_to_app.Console.Hex.{read_hex, digits_of, read_hex-hex_text}
use metal_to_app.Console.Output.{IsMessage, screen, shown, println_lem}

read_hex-hex_text_example :
    (read_hex (hex_text 0xbeef) ≡ some 0xbeef) × (digits_of (hex_text 0xbeef) ≡ 18)
read_hex-hex_text_example = read_hex-hex_text 0xbeef (omega arith)

abbrev pub text : ℕ → ℕ
text i = if i == 0 then b'h' else if i == 1 then b'i' else 0

abbrev pub memory : Mem
memory q = if q == 0x200000 then b'h' else if q == 0x200001 then b'i' else 0

abbrev pub blank : Screen
blank = record { mem = memory; current_offset = 80 }

pub hi-IsMessage : IsMessage text 2 (kernel_base + 0x200000) 0x200000 memory
unfolding physical
hi-IsMessage = record {
  mapped = λ i le. inr (omega arith, omega arith);
  at = λ i le. ground arith;
  holds = λ i le. ground arith;
  ends = refl;
  before = λ i lt. ground arith;
}

println_lem_example :
    (s' : Screen) × (println 3 (kernel_base + 0x200000) blank ≡ some s')
    × ((q : ℕ) → s'.mem q ≡ shown text 80 0 2 memory q)
    × ((q : ℕ) → (q < screen) ⊎ (screen + 4000 ≤ q) → s'.mem q ≡ memory q)
    × (s'.current_offset ≡ ((80 + 2) % 2000 + 79) / 80 * 80)
    × (s'.current_offset % 80 ≡ 0)
    × (s'.current_offset ≤ 2000)
println_lem_example =
    println_lem 3 2 (kernel_base + 0x200000) 0x200000 text blank (omega arith) (omega arith)
      hi-IsMessage (inr (omega arith))
