-- ===== src/Klib.antt =====
-- src/klib: memset.c, memcpy.c and strlen.c over byte-addressed memory. Each loop is a recursion on
-- the bytes left.
pub mod Laws
use metal_to_app.Base.{
  ℕ, zero, suc, ◌+◌, ◌%◌, ◌==◌, if◌then◌else◌, true, false, Option, none, some, Mem, update,
}

-- `memset`: the byte written is the value's low byte.
unfoldable pub memset : ℕ → Mem → ℕ → ℕ → Mem
memset zero m dest value = m
memset (suc n) m dest value = memset n (update m dest (value % 256)) (dest + 1) value

-- `memcpy`, forwards.
unfoldable pub memcpy : ℕ → Mem → ℕ → ℕ → Mem
memcpy zero m dest src = m
memcpy (suc n) m dest src = memcpy n (update m dest (m src)) (dest + 1) (src + 1)

-- `strlen` on fuel; `none` stands for a string that does not end within the fuel.
unfoldable pub strlen : ℕ → Mem → ℕ → Option ℕ
strlen zero m s = none
strlen (suc fuel) m s = elim (m s == 0) [
  | true ↦ some 0
  | false ↦ elim (strlen fuel m (s + 1)) [ none ↦ none | some n ↦ some (suc n) ]
]
