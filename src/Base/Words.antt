-- ===== src/Base/Words.antt =====
-- Bits of a machine word: a word is a native number, its bit k is `w / 2 ^ k % 2`.
use Prim.Native.Nat.{ℕ, ◌+◌, ◌-◌, ◌/◌, ◌%◌, ◌^◌}
use mathlib.Core.Bool.{Bool}
use metal_to_app.Base.Tests.{◌==◌, if◌then◌else◌}

-- `(w >> k) & 1`, as a truth value.
abbrev pub test_bit : ℕ → ℕ → Bool
test_bit w k = w / 2 ^ k % 2 == 1

-- `w | (1 << k)`.
abbrev pub or_bit : ℕ → ℕ → ℕ
or_bit w k = if test_bit w k then w else w + 2 ^ k

-- `w ^ (1 << k)`.
abbrev pub xor_bit : ℕ → ℕ → ℕ
xor_bit w k = if test_bit w k then w - 2 ^ k else w + 2 ^ k

-- A write of `b` to the one-bit field at bit k.
abbrev pub with_bit : ℕ → ℕ → Bool → ℕ
with_bit w k b = if test_bit w k then (if b then w else w - 2 ^ k) else (if b then w + 2 ^ k else w)
