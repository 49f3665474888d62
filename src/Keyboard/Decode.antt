-- ===== src/Keyboard/Decode.antt =====
-- `ps2Set2ToUsb` of scancodes.c and `processScancode` of keyboard.c. A `uint64_t` buffer is a number
-- below 2 ^ 64, a code is a signed key: a press is positive and a release is negative.
use metal_to_app.Base.{
  ℕ, zero, suc, ◌+◌, ◌*◌, ◌/◌, ◌%◌, ◌^◌, ◌==◌, if◌then◌else◌, Bool, true, false, ◌||◌, Option, none,
  some, List, [], ◌∷◌, ℤ, pos, negsuc,
}
use metal_to_app.Keyboard.Keys.{key_none, key_sysrq, key_pause}
use metal_to_app.Keyboard.Tables.{single_codes, extended_codes}

-- The result of `ps2Set2ToUsb`, with what it leaves in the buffer.
abbrev pub Decoded : Type 0
Decoded = ℤ × ℕ

-- The unary minus of C.
abbrev pub negate : ℤ → ℤ
negate (pos zero) = pos 0
negate (pos (suc n)) = negsuc n
negate (negsuc n) = pos (suc n)

-- A switch over the rows of a table, with `default: return KEY_NONE`.
unfoldable pub switch : List (ℕ × ℕ) → ℕ → ℕ
switch [] code = key_none
switch ((c, key) ∷ rows) code = if code == c then key else switch rows code

abbrev pub is_one_of : List ℕ → ℕ → Bool
is_one_of [] code = false
is_one_of (c ∷ cs) code = code == c || is_one_of cs code

-- The codes that the three switches keep in the buffer.
abbrev pub single_prefixes : List ℕ
single_prefixes = 0xE0 ∷ 0xE1 ∷ 0xF0 ∷ []

abbrev pub extended_prefixes : List ℕ
extended_prefixes = 0xE0F0 ∷ 0xE07C ∷ 0xE012 ∷ []

abbrev pub long_prefixes : List ℕ
long_prefixes =
    0xE012E0 ∷ 0xE07CE0 ∷ 0xE07CE0F0 ∷ 0xE114 ∷ 0xE11477 ∷ 0xE11477E1 ∷ 0xE11477E1F0
    ∷ 0xE11477E1F014 ∷ 0xE11477E1F014F0 ∷ []

-- `case 0`: one byte.
unfoldable pub decode_single : ℕ → Decoded
decode_single code =
    if is_one_of single_prefixes code
    then (pos key_none, code)
    else (pos (switch single_codes code), 0)

-- `case 0xE0`: two bytes.
unfoldable pub decode_extended : ℕ → Decoded
decode_extended code =
    if is_one_of extended_prefixes code
    then (pos key_none, code)
    else (pos (switch extended_codes code), 0)

-- `default`: the sequences of the keys Print Screen and Pause.
unfoldable pub decode_long : ℕ → Decoded
decode_long code =
    if code == 0xE012E07C
    then (pos key_sysrq, 0)
    else if code == 0xE07CE0F012
    then (negate (pos key_sysrq), 0)
    else if code == 0xE11477E1F014F077
    then (pos key_pause, 0)
    else if is_one_of long_prefixes code
    then (pos key_none, code)
    else (pos key_none, 0)

abbrev pub negated : Option Decoded → Option Decoded
negated none = none
negated (some (key, buffer)) = some (negate key, buffer)

-- `ps2Set2ToUsb` on the contents of the buffer, with fuel for its calls of itself.
unfoldable pub ps2_set2_to_usb : ℕ → ℕ → Option Decoded
ps2_set2_to_usb zero code = none
ps2_set2_to_usb (suc fuel) code =
    let released_extended = negated (ps2_set2_to_usb fuel (code % 256 + 0xE000)) in
    let released_single = negated (ps2_set2_to_usb fuel (code % 256)) in
    if code / 256 == 0
    then some (decode_single code)
    else if code / 256 == 0xE0
    then some (decode_extended code)
    else if code / 256 == 0xE0F0
    then released_extended
    else if code / 256 == 0xF0
    then released_single
    else some (decode_long code)

abbrev pub is_zero : ℤ → Bool
is_zero (pos zero) = true
is_zero (pos (suc n)) = false
is_zero (negsuc n) = false

-- The loop of `processScancode` on fuel: the codes handed to `processUsbCode`, and the buffer.
unfoldable pub drain : ℕ → ℕ → Option (List ℤ × ℕ)
drain zero buffer = none
drain (suc fuel) buffer = elim (ps2_set2_to_usb 2 buffer) [
  | none ↦ none
  | some (key, buffer') ↦ elim (is_zero key) [
    | true ↦ some ([], buffer')
    | false ↦ elim (drain fuel buffer') [
      | none ↦ none
      | some (keys, buffer'') ↦ some (key ∷ keys, buffer'')
    ]
  ]
]

-- `processScancode`.
unfoldable pub process_scancode : ℕ → ℕ → Option (List ℤ × ℕ)
process_scancode code_buffer scan_code =
    drain 2 ((code_buffer * 2 ^ 8 % 2 ^ 64 + scan_code) % 2 ^ 64)
