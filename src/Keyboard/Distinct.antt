-- ===== src/Keyboard/Distinct.antt =====
-- Which keys of one byte share a code.
use metal_to_app.Base.{
  ℕ, ◌<◌, ◌≡◌, ◌≢◌, refl, sym, ap, ◌∙◌, ◌==◌, if◌then◌else◌, Bool, true, ◌||◌, List, [], ◌∷◌, ==→eq,
  all_below, at_below, arith,
}
use metal_to_app.Keyboard.Tables.{single_codes}
use metal_to_app.Keyboard.Decode.{switch}

-- The first byte of a table with a given code.
first_code : List (ℕ × ℕ) → ℕ → ℕ
first_code [] key = 0
first_code ((c, k) ∷ rows) key = if k == key then c else first_code rows key

abbrev row_is_first : ℕ → Bool
row_is_first c =
    switch single_codes c == 0 || c == 0x1C || first_code single_codes (switch single_codes c) == c

rows_are_first : all_below 256 row_is_first ≡ true
unfolding all_below first_code switch
rows_are_first = refl

first-of_key :
    (c : ℕ)
    → c < 256
    → switch single_codes c ≢ 0
    → c ≢ 0x1C
    → first_code single_codes (switch single_codes c) ≡ c
first-of_key c lt key ne = ==→eq _ c (
    strip (switch single_codes c) c (first_code single_codes (switch single_codes c) == c) key ne
      (at_below 256 row_is_first c rows_are_first lt))
  where
    strip : (k d : ℕ) (b : Bool) → k ≢ 0 → d ≢ 0x1C → ((k == 0 || d == 0x1C) || b) ≡ true → b ≡ true
    strip k d b nk nd h = ground arith

-- Apart from the scan code 0x1C, that of A, two bytes below 256 with the same code other than 0
-- in the table of single bytes are the same byte.
pub single_codes_distinct :
    (c d : ℕ)
    → c < 256
    → d < 256
    → c ≢ 0x1C
    → d ≢ 0x1C
    → switch single_codes c ≢ 0
    → switch single_codes c ≡ switch single_codes d
    → c ≡ d
single_codes_distinct c d lc ld nc nd key same =
    sym (first-of_key c lc key nc)
    ∙ ap (first_code single_codes) same
    ∙ first-of_key d ld (λ e. key (same ∙ e)) nd

-- Left Alt gives the code of A.
pub alt_is_a : switch single_codes 0x11 ≡ switch single_codes 0x1C
unfolding switch
alt_is_a = refl
