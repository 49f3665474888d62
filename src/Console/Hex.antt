-- ===== src/Console/Hex.antt =====
-- The text of a number, read back.
use metal_to_app.Base.{
  ℕ, zero, suc, ◌+◌, ◌-◌, ◌*◌, ◌/◌, ◌%◌, ◌^◌, ◌<◌, ◌≡◌, refl, sym, ap, ◌∙◌, leb, if◌then◌else◌,
  ◌&&◌, Option, none, some, List, [], ◌∷◌, arith,
}
use native.Mathlib.Nat.{pow-suc, mod-lt, div-add-mod, mod-eq_of_lt, mul-add, mul-add-mod_self_left}
use metal_to_app.Console.{hex_char, hex_digits, hex_text}

-- The value of a hexadecimal digit in lower case.
abbrev pub digit_value : ℕ → Option ℕ
digit_value c =
    if leb b'0' c && leb c b'9'
    then some (c - b'0')
    else if leb b'a' c && leb c b'f'
    then some (c - b'a' + 10)
    else none

-- The number that a sequence of digits stands for, behind the digits read so far.
abbrev pub read_digits : ℕ → List ℕ → Option ℕ
read_digits acc [] = some acc
read_digits acc (c ∷ cs) = elim (digit_value c) [
  | none ↦ none
  | some d ↦ read_digits (acc * 16 + d) cs
]

-- The number that a text with 0x in front stands for.
abbrev pub read_hex : List ℕ → Option ℕ
read_hex (a ∷ b ∷ cs) =
    if leb a b'0' && leb b'0' a && (leb b b'x' && leb b'x' b) then read_digits 0 cs else none
read_hex other = none

digit_value-hex_char : (d : ℕ) → d < 16 → digit_value (hex_char d) ≡ some d
unfolding hex_char
digit_value-hex_char d lt = ground arith

power : (n : ℕ) → 2 ^ (4 * suc n) ≡ 16 * 2 ^ (4 * n)
power n =
    let e : 4 * suc n ≡ suc (suc (suc (suc (4 * n)))) = omega arith in
    rw
      (
        e,
        pow-suc 2 (suc (suc (suc (4 * n)))),
        pow-suc 2 (suc (suc (4 * n))),
        pow-suc 2 (suc (4 * n)),
        pow-suc 2 (4 * n),
      )
      (omega arith)

-- The last digit and the rest of a number.
split_digit : (n p : ℕ) → 0 < p → n % (16 * p) ≡ n / p % 16 * p + n % p
split_digit n p pos =
    let q : ℕ = n / p in
    let low : n % p < p = mod-lt n pos in
    let whole : n ≡ 16 * p * (q / 16) + (q % 16 * p + n % p) =
      whole_of n p (q / 16) (q % 16) (omega arith) (div-add-mod n p) in
    ap (λ x. x % (16 * p)) whole
    ∙ mul-add-mod_self_left (16 * p) (q / 16) (q % 16 * p + n % p)
    ∙ mod-eq_of_lt (small (q % 16) p (n % p) (omega arith) low)
  where
    whole_of :
        (n p a b : ℕ)
        → n / p ≡ 16 * a + b
        → p * (n / p) + n % p ≡ n
        → n ≡ 16 * p * a + (b * p + n % p)
    whole_of n p a b e f =
        let g : p * (n / p) ≡ p * (16 * a + b) = ap (λ x. p * x) e in grind (arith, f, g, mul-add)

    small : (d p r : ℕ) → d < 16 → r < p → d * p + r < 16 * p
    small d p r lt lr = grind arith

power_pos : (n : ℕ) → 0 < 2 ^ (4 * n)
power_pos zero = omega arith
power_pos (suc n) = omega (arith, power n, power_pos n)

regroup : (acc d p r : ℕ) → (acc * 16 + d) * p + r ≡ acc * (16 * p) + (d * p + r)
regroup acc d p r = grind arith

digit_step :
    (acc c : ℕ) (cs : List ℕ) (d : ℕ)
    → digit_value c ≡ some d
    → read_digits acc (c ∷ cs) ≡ read_digits (acc * 16 + d) cs
digit_step acc c cs d e = rw (e, read_digits) refl

read_digits-hex_digits :
    (n acc number : ℕ)
    → read_digits acc (hex_digits n number) ≡ some (acc * 2 ^ (4 * n) + number % 2 ^ (4 * n))
unfolding hex_digits
read_digits-hex_digits zero acc number = ap some (omega arith)
read_digits-hex_digits (suc n) acc number =
    let p : ℕ = 2 ^ (4 * n) in
    let d : ℕ = number / p % 16 in
    digit_step acc (hex_char d) (hex_digits n number) d (digit_value-hex_char d (omega arith))
    ∙ read_digits-hex_digits n (acc * 16 + d) number
    ∙ ap some (
        regroup acc d p (number % p)
        ∙ ap (λ x. acc * (16 * p) + x) (sym (split_digit number p (power_pos n)))
        ∙ ap (λ x. acc * x + number % x) (sym (power n)))

-- The number of characters.
abbrev pub digits_of : List ℕ → ℕ
digits_of [] = 0
digits_of (c ∷ cs) = suc (digits_of cs)

digits_of-hex_digits : (n number : ℕ) → digits_of (hex_digits n number) ≡ n
unfolding hex_digits
digits_of-hex_digits zero number = refl
digits_of-hex_digits (suc n) number = ap suc (digits_of-hex_digits n number)

-- For every number below 2^64, the text of printhex has 18 characters and reads back, by a
-- reader of 0x followed by hexadecimal digits, as the number.
pub read_hex-hex_text :
    (number : ℕ)
    → number < 2 ^ 64
    → (read_hex (hex_text number) ≡ some number) × (digits_of (hex_text number) ≡ 18)
unfolding hex_text
read_hex-hex_text number lt =
    (read_digits-hex_digits 16 0 number ∙ ap some (omega arith), digits_of-text number)
  where
    digits_of-text : (number : ℕ) → digits_of (b'0' ∷ b'x' ∷ hex_digits 16 number) ≡ 18
    digits_of-text number = ap (λ n. suc (suc n)) (digits_of-hex_digits 16 number)
