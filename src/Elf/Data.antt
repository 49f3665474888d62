-- ===== src/Elf/Data.antt =====
-- Bytes in frames of data, and what `copy_section` is to leave.
use metal_to_app.Base.{
  ℕ, zero, suc, ◌+◌, ◌-◌, ◌*◌, ◌/◌, ◌%◌, ◌^◌, ◌≤◌, ◌<◌, ◌≡◌, ◌≢◌, refl, sym, ap, ◌∙◌, ◌⊎◌, inl, inr,
  if◌then◌else◌, leb, ltb, ◌&&◌, true, false, some, Mem, lt-cases, lt→ltb, arith,
}
use metal_to_app.Memory.{linear_address_to_ptr}
use metal_to_app.Frame.{FrameState, frame_size}
use metal_to_app.Frame.Pool.{Pool, IsFrame, available}
use metal_to_app.Frame.Invariant.{Represents}
use metal_to_app.Paging.Slots.{Owned}
use metal_to_app.Paging.Ensure.{Gives, Gives-less}
use metal_to_app.Paging.Placed.{Labels, IsLow, IsSpace}
use metal_to_app.Paging.Step.{Kept}
use metal_to_app.Paging.Search.{more}
use metal_to_app.Paging.Mmu.{translate}
use metal_to_app.Elf.{map_frame, copy_bytes, copy_section, is_positive, to_copy}

abbrev pub frame_of : ℕ → ℕ
frame_of q = q / 0x1000 * 0x1000

-- A byte of a frame that the allocator does not have and that is no table.
pub record IsData (l : Labels) (p : Pool) (q : ℕ) : Type 0 where
  pub owned : Owned p (frame_of q)
  pub no_table : 4 ≤ l.level (frame_of q)

pub IsData-Kept :
    (l l' : Labels) (m m' : Mem) (p p' : Pool) (q : ℕ)
    → Kept l l' m m' p p'
    → IsData l p q
    → IsData l' p' q × (m' q ≡ m q)
IsData-Kept l l' m m' p p' q k h = (
  record {
    owned = (h.owned.0, k.shrinks (frame_of q) h.owned.1);
    no_table = omega (arith, (k.labels (frame_of q) h.owned.1).0, h.no_table);
  },
  k.bytes (frame_of q) q h.owned h.no_table (omega arith) (omega arith),
)

abbrev pub AllData : Labels → Pool → ℕ → ℕ → Type 0
AllData l p c n = (i : ℕ) → i < n → IsData l p (c + i)

-- The pages that hold an address from `v` on and before `v + z`.
abbrev pub IsOutside : ℕ → ℕ → ℕ → Type 0
IsOutside v z q = (q / 0x1000 < v / 0x1000) ⊎ ((v + z + 0xfff) / 0x1000 ≤ q / 0x1000)

-- The byte `i` of a section of which `f` bytes from `c` on are given.
abbrev pub section_byte : Mem → ℕ → ℕ → ℕ → ℕ
section_byte m c f i = if ltb i f then m (c + i) else 0

-- The CPU reaches a byte of data of a value through an address.
abbrev pub Reads : Labels → Mem → Pool → ℕ → ℕ → ℕ → Type 0
Reads l m p root ptr value =
    (q : ℕ) × (translate m root ptr ≡ some q) × (m q ≡ value) × IsData l p q

pub record Loaded (n root v c z f : ℕ) (l : Labels) (s s' : FrameState) (p p' : Pool) : Type 0 where
  pub new_labels : Labels
  pub represents : Represents s' p'
  pub gives : Gives n p'
  pub space : IsSpace new_labels s'.mem p' root
  pub kept : Kept l new_labels s.mem s'.mem p p'
  pub others :
      (q : ℕ) → IsLow q → IsOutside v z q → translate s'.mem root q ≡ translate s.mem root q
  pub bytes : (i : ℕ) → i < z → Reads new_labels s'.mem p' root (v + i) (section_byte s.mem c f i)

pub copy_section-stop :
    (fuel space v c z f : ℕ) (s : FrameState)
    → is_positive z ≡ false
    → copy_section (suc fuel) space v c z f s ≡ some s
unfolding copy_section
copy_section-stop fuel space v c z f s e = rw (e, copy_section) refl

pub copy_section-found :
    (fuel space v c z f a : ℕ) (s s₁ : FrameState)
    → is_positive z ≡ true
    → map_frame space (v - v % frame_size) s ≡ some (a, s₁)
    → copy_section (suc fuel) space v c z f s
      ≡ copy_section fuel space
          ((v - v % frame_size + frame_size) % 2 ^ 64)
          ((c + to_copy (v % frame_size) f) % 2 ^ 64)
          ((z + v % frame_size + (2 ^ 64 - frame_size)) % 2 ^ 64)
          (f - to_copy (v % frame_size) f)
          (copy_bytes
            (linear_address_to_ptr (a + v % frame_size))
            c
            (to_copy (v % frame_size) f)
            s₁)
unfolding copy_section
copy_section-found fuel space v c z f a s s₁ e g = rw (e, g, copy_section) refl

pub Gives-drop : (k n : ℕ) (p : Pool) → Gives (more k n) p → Gives n p
Gives-drop zero n p g = g
Gives-drop (suc k) n p g = Gives-drop k n p (Gives-less (more k n) p g)

-- The bytes that are copied do not lie in the frame that is new.
pub image_apart :
    (l : Labels) (p : Pool) (a c n o : ℕ)
    → IsFrame a
    → ((b : ℕ) → available b p ≡ false → b ≢ a)
    → AllData l p c n
    → o + n ≤ 0x1000
    → (a + o ≤ c) ⊎ (c + n ≤ a + o)
image_apart l p a c n o fa new image fits = elim (lt-cases c (a + o)) [
  | inr le ↦ inl le
  | inl lt ↦ elim (lt-cases (a + o) (c + n)) [
    | inr le ↦ inr le
    | inl over ↦
        let at : frame_of (c + (a + o - c)) ≡ a = omega arith in
        absurd (new (frame_of (c + (a + o - c))) (image (a + o - c) (omega arith)).owned.1 at)
  ]
]

pub copy_bounds :
    (o f : ℕ)
    → o < 0x1000
    → f < 2 ^ 63
    → (o + to_copy o f ≤ 0x1000)
      × (to_copy o f ≤ f)
      × ((to_copy o f ≡ f) ⊎ (o + to_copy o f ≡ 0x1000))
copy_bounds o f lt small = ground arith

pub positive : (z : ℕ) → 0 < z → z < 2 ^ 63 → is_positive z ≡ true
positive z lo hi = ground arith

pub inside_copy : (d i n : ℕ) → i < n → (leb d (d + i) && ltb (d + i) (d + n)) ≡ true
inside_copy d i n lt = ground arith

pub outside_copy : (d i n : ℕ) → n ≤ i → (leb d (d + i) && ltb (d + i) (d + n)) ≡ false
outside_copy d i n le = ground arith

pub byte_given : (m : Mem) (c f i : ℕ) → i < f → section_byte m c f i ≡ m (c + i)
byte_given m c f i lt = rw (lt→ltb i f lt) refl

pub byte_absent : (m : Mem) (c f i : ℕ) → f ≤ i → section_byte m c f i ≡ 0
byte_absent m c f i le = let no : ltb i f ≡ false = ground arith in rw no refl

-- The rest of a section has the bytes behind those that the first page takes.
pub byte_rest :
    (m m' : Mem) (c f o len i : ℕ)
    → o + len ≤ 0x1000
    → len ≤ f
    → (len ≡ f) ⊎ (o + len ≡ 0x1000)
    → o < 0x1000
    → 0x1000 ≤ o + i
    → ((j : ℕ) → j < f → m' (c + j) ≡ m (c + j))
    → section_byte m' (c + len) (f - len) (o + i - 0x1000) ≡ section_byte m c f i
byte_rest m m' c f o len i fits short which lt over same = elim (lt-cases i f) [
  | inr le ↦
      byte_absent m' (c + len) (f - len) (o + i - 0x1000) (omega (arith, which))
      ∙ sym (byte_absent m c f i le)
  | inl given ↦
      byte_given m' (c + len) (f - len) (o + i - 0x1000) (omega (arith, which))
      ∙ ap m' (omega (arith, which))
      ∙ same i given
      ∙ sym (byte_given m c f i given)
]
