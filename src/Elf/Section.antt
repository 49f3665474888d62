-- ===== src/Elf/Section.antt =====
-- What `copy_section` leaves: the CPU reads the section at its addresses.
use metal_to_app.Base.{
  ℕ, ◌+◌, ◌-◌, ◌/◌, ◌%◌, ◌^◌, ◌≤◌, ◌<◌, ◌≡◌, refl, sym, ap, ◌∙◌, ◌⊎◌, inl, inr, some, lt-cases,
  ne→==, eq→==, arith,
}
use metal_to_app.Memory.{linear_start, physical}
use metal_to_app.Memory.Linear.{physical-linear}
use metal_to_app.Frame.{FrameState, frame_size}
use metal_to_app.Frame.Pool.{Pool}
use metal_to_app.Paging.Placed.{Labels}
use metal_to_app.Paging.Step.{Kept-trans}
use metal_to_app.Paging.Mmu.{translate}
use metal_to_app.Elf.{to_copy}
use metal_to_app.Elf.Data.{
  frame_of, IsData, IsData-Kept, AllData, section_byte, Loaded, copy_bounds, image_apart,
  inside_copy, outside_copy, byte_given, byte_absent, byte_rest,
}
use metal_to_app.Elf.NewFrame.{Framed}
use metal_to_app.Elf.Write.{filled, filled-at, filled-Framed}

-- The first page of a section, and the rest of it.
module _ (n root v c z f a : ℕ) (l : Labels) (s s₁ : FrameState) (p p₁ : Pool)
    (h : Framed n root a (v - v % frame_size) l s s₁ p p₁) (low : v + z ≤ 2 ^ 47) (le : f ≤ z)
    (mem : c + f < 2 ^ 39) (image : AllData l p c f)
    (zeros : (q : ℕ) → a ≤ q → q < a + 0x1000 → s₁.mem q ≡ 0) where
  abbrev pub o : ℕ
  o = v % frame_size

  abbrev pub len : ℕ
  len = to_copy (v % frame_size) f

  pub bounds : (o + len ≤ 0x1000) × (len ≤ f) × ((len ≡ f) ⊎ (o + len ≡ 0x1000))
  bounds = copy_bounds o f (omega arith) (omega arith)

  pub apart : (a + o ≤ c) ⊎ (c + len ≤ a + o)
  apart =
      let (fits, short, which) = bounds in
      image_apart l p a c len o h.owned.0 h.new (λ i lt. image i (omega arith)) fits

  pub source : physical (linear_start + c) ≡ c
  source = physical-linear c (omega arith)

  abbrev pub s₂ : FrameState
  s₂ =
      filled n root a (v - o) (a + o) c (linear_start + c) len l s s₁ p p₁ h (omega arith)
        (omega (arith, bounds.0)) source apart (omega arith)

  pub framed : Framed n root a (v - o) l s s₂ p p₁
  framed =
      filled-Framed n root a (v - o) (a + o) c (linear_start + c) len l s s₁ p p₁ h (omega arith)
        (omega (arith, bounds.0)) source apart (omega arith)

  image-kept : (i : ℕ) → i < f → s₂.mem (c + i) ≡ s.mem (c + i)
  image-kept i lt =
      (IsData-Kept l framed.new_labels s.mem s₂.mem p p₁ (c + i) framed.kept (image i lt)).1

  new-IsData : (i : ℕ) → o + i < 0x1000 → IsData framed.new_labels p₁ (a + o + i)
  new-IsData i lt =
      let at : frame_of (a + o + i) ≡ a = omega (arith, framed.owned.0) in
      record { owned = rw at framed.owned; no_table = rw at (omega (arith, framed.no_table)) }

  page_byte : (i : ℕ) → o + i < 0x1000 → s₂.mem (a + o + i) ≡ section_byte s.mem c f i
  page_byte i lt =
      filled-at n root a (v - o) (a + o) c (linear_start + c) len l s s₁ p p₁ h (omega arith)
        (omega (arith, bounds.0)) source apart (omega arith) (a + o + i)
      ∙ elim (lt-cases i len) [
        | inl below ↦
            let given : i < f = omega (arith, bounds.1) in
            rw (inside_copy (a + o) i len below) (
              ap s₁.mem (omega arith)
              ∙ (IsData-Kept l h.new_labels s.mem s₁.mem p p₁ (c + i) h.kept (image i given)).1
              ∙ sym (byte_given s.mem c f i given))
        | inr above ↦ rw (outside_copy (a + o) i len above) (
            zeros (a + o + i) (omega arith) (omega arith)
            ∙ sym (byte_absent s.mem c f i (omega (arith, bounds.2))))
      ]

  -- With the rest behind it the section is loaded.
  pub join :
      (n' : ℕ) (s' : FrameState) (p' : Pool)
      → 0 < z
      → Loaded n' root
          (v - o + 0x1000)
          (c + len)
          (z + o - 0x1000)
          (f - len)
          framed.new_labels
          s₂
          s'
          p₁
          p'
      → Loaded n' root v c z f l s s' p p'
  join n' s' p' pos rest = record {
    new_labels = rest.new_labels;
    represents = rest.represents;
    gives = rest.gives;
    space = rest.space;
    kept =
        Kept-trans l framed.new_labels rest.new_labels s.mem s₂.mem s'.mem p p₁ p' framed.kept
          rest.kept;
    others = λ q low_q out.
        rest.others q low_q (omega (arith, out))
        ∙ framed.walks q low_q
        ∙ rw (ne→== (q / 0x1000) ((v - o) / 0x1000) (λ e. omega (arith, out))) refl;
    bytes = λ i lt. elim (lt-cases (o + i) 0x1000) [
      | inl within ↦
          let (data', same) =
            IsData-Kept framed.new_labels rest.new_labels s₂.mem s'.mem p₁ p' (a + o + i) rest.kept
              (new-IsData i within) in
          (
            a + o + i,
            rest.others (v + i) (omega arith) (inl (omega arith))
                ∙ framed.walks (v + i) (omega arith)
                ∙ rw (eq→== ((v + i) / 0x1000) ((v - o) / 0x1000) (omega arith))
                    (ap some (omega arith)),
            same ∙ page_byte i within,
            data',
          )
      | inr over ↦
          let (q, walk, byte, data') = rest.bytes (o + i - 0x1000) (omega arith) in
          let (fits, short, which) = bounds in
          (
            q,
            ap (translate s'.mem root) (omega arith) ∙ walk,
            byte
                ∙ byte_rest s.mem s₂.mem c f o len i fits short which (omega arith) over image-kept,
            data',
          )
    ];
  }
