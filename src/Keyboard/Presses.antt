-- ===== src/Keyboard/Presses.antt =====
-- What the decoder comes to: it always returns, it hands on at most one code for each byte, and the
-- release sequence of a key gives the negative of its press.
use metal_to_app.Base.{
  ℕ, suc, ◌+◌, ◌*◌, ◌/◌, ◌%◌, ◌^◌, ◌<◌, ◌≡◌, refl, ap, ◌∙◌, ◌⊎◌, inl, inr, if◌then◌else◌, false,
  Option, none, some, List, [], ◌∷◌, ◌++◌, ℤ, pos, ne→==, eq-cases, Bool-cases, arith,
}
use mathlib.Core.List.{append-nil}
use metal_to_app.Keyboard.Keys.{key_sysrq, key_pause}
use metal_to_app.Keyboard.Tables.{single_codes, extended_codes}
use metal_to_app.Keyboard.Decode.{
  Decoded, negate, switch, is_one_of, single_prefixes, extended_prefixes, decode_single,
  decode_extended, decode_long, negated, ps2_set2_to_usb, is_zero, drain, process_scancode,
}

ps2_single :
    (fuel code : ℕ) → code / 256 ≡ 0 → ps2_set2_to_usb (suc fuel) code ≡ some (decode_single code)
unfolding ps2_set2_to_usb
ps2_single fuel code e = rw e

ps2_extended :
    (fuel code : ℕ)
    → code / 256 ≡ 0xE0
    → ps2_set2_to_usb (suc fuel) code ≡ some (decode_extended code)
unfolding ps2_set2_to_usb
ps2_extended fuel code e = rw e

ps2_release_single :
    (fuel code : ℕ)
    → code / 256 ≡ 0xF0
    → ps2_set2_to_usb (suc (suc fuel)) code ≡ negated (some (decode_single (code % 256)))
unfolding ps2_set2_to_usb
ps2_release_single fuel code e =
    let b : code % 256 / 256 ≡ 0 = omega arith in rw (e, ps2_single fuel (code % 256) b)

ps2_release_extended :
    (fuel code : ℕ)
    → code / 256 ≡ 0xE0F0
    → ps2_set2_to_usb (suc (suc fuel)) code ≡ negated (some (decode_extended (code % 256 + 0xE000)))
unfolding ps2_set2_to_usb
ps2_release_extended fuel code e =
    let b : (code % 256 + 0xE000) / 256 ≡ 0xE0 = omega arith in
    rw (e, ps2_extended fuel (code % 256 + 0xE000) b)

-- No key, or an empty buffer.
abbrev pub Settled : Decoded → Type 0
Settled (key, buffer) = (key ≡ pos 0) ⊎ (buffer ≡ 0)

decoded-Settled :
    (code : ℕ)
    → Settled (decode_single code) × Settled (decode_extended code) × Settled (decode_long code)
unfolding decode_single decode_extended decode_long
decoded-Settled code = (ground arith, ground arith, ground arith)

negate-Settled : (d : Decoded) → Settled d → Settled (negate d.0, d.1)
negate-Settled (key, buffer) (inl e) = inl (rw e)
negate-Settled (key, buffer) (inr e) = inr e

-- For every buffer ps2Set2ToUsb returns, having called itself at most once, and where it returns
-- a key it leaves the buffer empty.
pub ps2-Settled :
    (fuel code : ℕ) → (d : Decoded) × (ps2_set2_to_usb (suc (suc fuel)) code ≡ some d) × Settled d
unfolding ps2_set2_to_usb
ps2-Settled fuel code = elim (eq-cases (code / 256) 0) [
  | inl e ↦ (decode_single code, ps2_single (suc fuel) code e, (decoded-Settled code).0)
  | inr n₁ ↦ elim (eq-cases (code / 256) 0xE0) [
    | inl e ↦ (decode_extended code, ps2_extended (suc fuel) code e, (decoded-Settled code).1)
    | inr n₂ ↦ elim (eq-cases (code / 256) 0xE0F0) [
      | inl e ↦ (
        _,
        ps2_release_extended fuel code e,
        negate-Settled (decode_extended (code % 256 + 0xE000))
            (decoded-Settled (code % 256 + 0xE000)).1,
      )
      | inr n₃ ↦ elim (eq-cases (code / 256) 0xF0) [
        | inl e ↦ (
          _,
          ps2_release_single fuel code e,
          negate-Settled (decode_single (code % 256)) (decoded-Settled (code % 256)).0,
        )
        | inr n₄ ↦ (
          decode_long code,
          rw (
            ne→== (code / 256) 0 n₁,
            ne→== (code / 256) 0xE0 n₂,
            ne→== (code / 256) 0xE0F0 n₃,
            ne→== (code / 256) 0xF0 n₄,
          ),
          (decoded-Settled code).2,
        )
      ]
    ]
  ]
]

-- The codes handed on for one result.
abbrev pub events : ℤ → List ℤ
events key = if is_zero key then [] else key ∷ []

empty_buffer : ps2_set2_to_usb 2 0 ≡ some (pos 0, 0)
unfolding ps2_set2_to_usb decode_single switch
empty_buffer = refl

drain-Settled :
    (fuel code : ℕ) (d : Decoded)
    → ps2_set2_to_usb 2 code ≡ some d
    → Settled d
    → drain (suc (suc fuel)) code ≡ some (events d.0, d.1)
unfolding drain
drain-Settled fuel code (key, buffer) e (inl none_) = rw (e, none_, drain)
drain-Settled fuel code (key, buffer) e (inr empty) = elim (Bool-cases (is_zero key)) [
  | inl z ↦ rw (e, z, drain)
  | inr nz ↦ rw (e, nz, empty, drain, empty_buffer)
]

-- For every buffer and byte processScancode returns: its loop ends within two rounds, and it
-- hands on what ps2Set2ToUsb gives for the buffer with the byte shifted in, one code or none.
pub process_scancode_lem :
    (code_buffer scan_code : ℕ)
    → (d : Decoded) × (ps2_set2_to_usb 2 ((code_buffer * 2 ^ 8 % 2 ^ 64 + scan_code) % 2 ^ 64)
        ≡ some d)
      × (process_scancode code_buffer scan_code ≡ some (events d.0, d.1))
unfolding process_scancode
process_scancode_lem code_buffer scan_code =
    let code : ℕ = (code_buffer * 2 ^ 8 % 2 ^ 64 + scan_code) % 2 ^ 64 in
    let (d, e, settled) = ps2-Settled 0 code in (d, e, drain-Settled 0 code d e settled)

-- The codes handed on for a sequence of bytes, and the buffer after it.
unfoldable pub feed : List ℕ → ℕ → Option (List ℤ × ℕ)
feed [] buffer = some ([], buffer)
feed (byte ∷ bytes) buffer = elim (process_scancode buffer byte) [
  | none ↦ none
  | some (keys, buffer') ↦ elim (feed bytes buffer') [
    | none ↦ none
    | some (keys', buffer'') ↦ some (keys ++ keys', buffer'')
  ]
]

step :
    (buffer byte code : ℕ) (d : Decoded)
    → (buffer * 2 ^ 8 % 2 ^ 64 + byte) % 2 ^ 64 ≡ code
    → ps2_set2_to_usb 2 code ≡ some d
    → Settled d
    → process_scancode buffer byte ≡ some (events d.0, d.1)
unfolding process_scancode
step buffer byte code d e p settled = rw e (drain-Settled 0 code d p settled)

feed_cons :
    (buffer byte : ℕ) (bytes : List ℕ) {keys keys' : List ℤ} {buffer' buffer'' : ℕ}
    → process_scancode buffer byte ≡ some (keys, buffer')
    → feed bytes buffer' ≡ some (keys', buffer'')
    → feed (byte ∷ bytes) buffer ≡ some (keys ++ keys', buffer'')
unfolding feed
feed_cons buffer byte bytes e e' = rw (e, e', feed)

feed_last :
    (buffer byte : ℕ) {keys : List ℤ} {buffer' : ℕ}
    → process_scancode buffer byte ≡ some (keys, buffer')
    → feed (byte ∷ []) buffer ≡ some (keys, buffer')
unfolding feed
feed_last buffer byte {keys} e = rw (e, append-nil keys, feed)

-- The bytes that begin a sequence.
abbrev pub Begin : ℕ → ℕ → Type 0
Begin byte code = process_scancode 0 byte ≡ some ([], code)

begins : Begin 0xF0 0xF0 × Begin 0xE0 0xE0 × (process_scancode 0xE0 0xF0 ≡ some ([], 0xE0F0))
unfolding process_scancode drain ps2_set2_to_usb decode_single decode_extended
begins = (refl, refl, refl)

decode_single-plain :
    (c : ℕ)
    → is_one_of single_prefixes c ≡ false
    → decode_single c ≡ (pos (switch single_codes c), 0)
unfolding decode_single
decode_single-plain c plain = rw plain

decode_extended-plain :
    (c : ℕ)
    → is_one_of extended_prefixes c ≡ false
    → decode_extended c ≡ (pos (switch extended_codes c), 0)
unfolding decode_extended
decode_extended-plain c plain = rw plain

-- For every key byte below 256 that begins no longer sequence: the press hands on the code of
-- the table, and the sequence 0xF0, byte hands on its negative, each with an empty buffer behind
-- it (nothing is handed on where the code is 0).
pub single_press_release :
    (c : ℕ)
    → c < 256
    → is_one_of single_prefixes c ≡ false
    → (feed (c ∷ []) 0 ≡ some (events (pos (switch single_codes c)), 0))
      × (feed (0xF0 ∷ c ∷ []) 0 ≡ some (events (negate (pos (switch single_codes c))), 0))
single_press_release c lt plain =
    let key : ℤ = pos (switch single_codes c) in
    let low : c / 256 ≡ 0 = omega arith in
    let high : (0xF000 + c) / 256 ≡ 0xF0 = omega arith in
    let back : (0xF000 + c) % 256 ≡ c = omega arith in
    let press : ps2_set2_to_usb 2 c ≡ some (key, 0) =
      ps2_single 1 c low ∙ ap some (decode_single-plain c plain) in
    let release : ps2_set2_to_usb 2 (0xF000 + c) ≡ some (negate key, 0) =
      ps2_release_single 0 (0xF000 + c) high
      ∙ ap (λ x. negated (some (decode_single x))) back
      ∙ ap (λ d. negated (some d)) (decode_single-plain c plain) in
    (
      feed_last 0 c (step 0 c c (key, 0) (omega arith) press (inr refl)),
      feed_cons 0 0xF0 (c ∷ []) begins.0 (
          feed_last 0xF0 c
            (step 0xF0 c (0xF000 + c) (negate key, 0) (omega arith) release (inr refl))),
    )

-- For every byte below 256 that with 0xE0 before it begins no longer sequence: 0xE0, byte hands
-- on the code of the table, and 0xE0, 0xF0, byte its negative, each with an empty buffer behind
-- it.
pub extended_press_release :
    (c : ℕ)
    → c < 256
    → is_one_of extended_prefixes (0xE000 + c) ≡ false
    → (feed (0xE0 ∷ c ∷ []) 0 ≡ some (events (pos (switch extended_codes (0xE000 + c))), 0))
      × (feed (0xE0 ∷ 0xF0 ∷ c ∷ []) 0
          ≡ some (events (negate (pos (switch extended_codes (0xE000 + c)))), 0))
extended_press_release c lt plain =
    let key : ℤ = pos (switch extended_codes (0xE000 + c)) in
    let low : (0xE000 + c) / 256 ≡ 0xE0 = omega arith in
    let high : (0xE0F000 + c) / 256 ≡ 0xE0F0 = omega arith in
    let back : (0xE0F000 + c) % 256 + 0xE000 ≡ 0xE000 + c = omega arith in
    let press : ps2_set2_to_usb 2 (0xE000 + c) ≡ some (key, 0) =
      ps2_extended 1 (0xE000 + c) low ∙ ap some (decode_extended-plain (0xE000 + c) plain) in
    let release : ps2_set2_to_usb 2 (0xE0F000 + c) ≡ some (negate key, 0) =
      ps2_release_extended 0 (0xE0F000 + c) high
      ∙ ap (λ x. negated (some (decode_extended x))) back
      ∙ ap (λ d. negated (some d)) (decode_extended-plain (0xE000 + c) plain) in
    (
      feed_cons 0 0xE0 (c ∷ []) begins.1
          (feed_last 0xE0 c (step 0xE0 c (0xE000 + c) (key, 0) (omega arith) press (inr refl))),
      feed_cons 0 0xE0 (0xF0 ∷ c ∷ []) begins.1 (
          feed_cons 0xE0 0xF0 (c ∷ []) begins.2 (
            feed_last 0xE0F0 c
              (step 0xE0F0 c (0xE0F000 + c) (negate key, 0) (omega arith) release (inr refl)))),
    )

-- The sequences of Print Screen and Pause, which need up to eight bytes in the buffer.
long_keys :
    (feed (0xE0 ∷ 0x12 ∷ 0xE0 ∷ 0x7C ∷ []) 0 ≡ some (pos key_sysrq ∷ [], 0))
    × (feed (0xE0 ∷ 0xF0 ∷ 0x7C ∷ 0xE0 ∷ 0xF0 ∷ 0x12 ∷ []) 0
        ≡ some (negate (pos key_sysrq) ∷ [], 0))
    × (feed (0xE1 ∷ 0x14 ∷ 0x77 ∷ 0xE1 ∷ 0xF0 ∷ 0x14 ∷ 0xF0 ∷ 0x77 ∷ []) 0
        ≡ some (pos key_pause ∷ [], 0))
unfolding feed process_scancode drain ps2_set2_to_usb decode_single decode_extended decode_long
    switch
long_keys = (refl, refl, refl)
