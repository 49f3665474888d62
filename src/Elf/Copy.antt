-- ===== src/Elf/Copy.antt =====
-- The loop of `copy_section`.
use metal_to_app.Base.{
  ℕ, zero, suc, ◌+◌, ◌-◌, ◌*◌, ◌%◌, ◌^◌, ◌≤◌, ◌<◌, ◌≡◌, refl, ◌∙◌, ◌⊎◌, inl, inr, false, some,
  lt-cases, eq-cases, Mem, arith,
}
use mathlib.Core.Path.{subst}
use metal_to_app.Memory.{linear_start}
use metal_to_app.Frame.{FrameState, frame_size}
use metal_to_app.Frame.Pool.{Pool}
use metal_to_app.Frame.Invariant.{Represents}
use metal_to_app.Paging.Ensure.{Gives}
use metal_to_app.Paging.Placed.{Labels, IsSpace}
use metal_to_app.Paging.Step.{Kept, Kept-refl}
use metal_to_app.Paging.Search.{more}
use metal_to_app.Elf.{copy_section, is_positive}
use metal_to_app.Elf.NewFrame.{map_frame-Framed}
use metal_to_app.Elf.Data.{
  IsData, IsData-Kept, AllData, Loaded, copy_section-stop, copy_section-found, Gives-drop, positive,
}
use metal_to_app.Elf.Section.{bounds, len, s₂, framed, join}

-- Four frames for each of `k` pages, and `n` more.
abbrev pub frames_for : ℕ → ℕ → ℕ
frames_for zero n = n
frames_for (suc k) n = more 4 (frames_for k n)

Gives-pages : (k n : ℕ) (p : Pool) → Gives (frames_for k n) p → Gives n p
Gives-pages zero n p g = g
Gives-pages (suc k) n p g = Gives-pages k n p (Gives-drop 4 (frames_for k n) p g)

-- Nothing is loaded.
Loaded-none :
    (n root v c z f : ℕ) (l : Labels) (s : FrameState) (p : Pool)
    → z ≡ 0
    → Represents s p
    → IsSpace l s.mem p root
    → Gives n p
    → Loaded n root v c z f l s s p p
Loaded-none n root v c z f l s p e r space g = record {
  new_labels = l;
  represents = r;
  gives = g;
  space = space;
  kept = Kept-refl l s.mem p;
  others = λ q low out. refl;
  bytes = λ i lt. absurd (omega arith);
}

not_positive :
    (z o : ℕ)
    → o < 0x1000
    → z + o ≤ 0x1000
    → z < 2 ^ 48
    → is_positive ((z + o + (2 ^ 64 - frame_size)) % 2 ^ 64) ≡ false
not_positive z o lt le small = elim (eq-cases (z + o) 0x1000) [
  | inl e ↦ let at : (z + o + (2 ^ 64 - frame_size)) % 2 ^ 64 ≡ 0 = omega arith in rw at refl
  | inr ne ↦
      let at : (z + o + (2 ^ 64 - frame_size)) % 2 ^ 64 ≡ z + o + (2 ^ 64 - frame_size) =
        omega arith in
      let big : 2 ^ 63 ≤ z + o + (2 ^ 64 - frame_size) = omega arith in rw at (ground arith)
]

section_args :
    (fuel space v v' c c' z z' f : ℕ) (s : FrameState)
    → v ≡ v'
    → c ≡ c'
    → z ≡ z'
    → copy_section fuel space v c z f s ≡ copy_section fuel space v' c' z' f s
section_args fuel space v v' c c' z z' f s e₁ e₂ e₃ = rw (e₁, e₂, e₃) refl

section_stop :
    (fuel space v c z f : ℕ) (s : FrameState)
    → 0 < fuel
    → is_positive z ≡ false
    → copy_section fuel space v c z f s ≡ some s
section_stop zero space v c z f s pos e = absurd (omega arith)
section_stop (suc fuel) space v c z f s pos e = copy_section-stop fuel space v c z f s e

-- The rest of the data of a section.
rest_data :
    {l l' : Labels} {m m' : Mem} {p p' : Pool}
    → Kept l l' m m' p p'
    → (c f x : ℕ) → x ≤ f
    → AllData l p c f
    → AllData l' p' (c + x) (f - x)
rest_data {l} {l'} {m} {m'} {p} {p'} k c f x le image i lt =
    subst (λ y. IsData l' p' y) (shift c x i)
      (IsData-Kept l l' m m' p p' (c + (x + i)) k (image (x + i) (omega arith))).0
  where
    shift : (c x i : ℕ) → c + (x + i) ≡ c + x + i
    shift c x i = omega arith

-- What the first round of the loop leaves: the state `rest`, of which the `n` bytes are copied, and a way to
-- complete what the others leave.
record FirstRound (k fuel root v c z f : ℕ) (l : Labels) (s : FrameState) (p : Pool) : Type 1 where
  rest : FrameState
  pool : Pool
  labels : Labels
  taken : ℕ
  runs :
      copy_section (suc fuel) (linear_start + root) v (linear_start + c) z f s
      ≡ copy_section fuel
          (linear_start + root)
          ((v - v % frame_size + frame_size) % 2 ^ 64)
          ((linear_start + c + taken) % 2 ^ 64)
          ((z + v % frame_size + (2 ^ 64 - frame_size)) % 2 ^ 64)
          (f - taken)
          rest
  represents : Represents rest pool
  gives : Gives k pool
  space : IsSpace labels rest.mem pool root
  kept : Kept l labels s.mem rest.mem p pool
  fits : v % frame_size + taken ≤ 0x1000
  short : taken ≤ f
  which : (taken ≡ f) ⊎ (v % frame_size + taken ≡ 0x1000)
  complete :
      (n : ℕ) (s' : FrameState) (p' : Pool)
      → Loaded n root
          (v - v % frame_size + 0x1000)
          (c + taken)
          (z + v % frame_size - 0x1000)
          (f - taken)
          labels
          rest
          s'
          pool
          p'
      → Loaded n root v c z f l s s' p p'

first_round :
    (k fuel root v c z f : ℕ) (l : Labels) (s : FrameState) (p : Pool)
    → 0 < z
    → v + z ≤ 2 ^ 47
    → f ≤ z
    → c + f < 2 ^ 39
    → Represents s p
    → IsSpace l s.mem p root
    → Gives (more 4 k) p
    → AllData l p c f
    → FirstRound k fuel root v c z f l s p
first_round k fuel root v c z f l s p pos low le mem r space g image =
    let (s₁, p₁, a, found, h, zeros) =
      map_frame-Framed k root (v - v % frame_size) l s p r space g (omega arith) in
    let fr = framed k root v c z f a l s s₁ p p₁ h low le mem image zeros in
    let facts = bounds k root v c z f a l s s₁ p p₁ h low le mem image zeros in
    record {
      rest = s₂ k root v c z f a l s s₁ p p₁ h low le mem image zeros;
      pool = p₁;
      labels = fr.new_labels;
      taken = len k root v c z f a l s s₁ p p₁ h low le mem image zeros;
      runs =
          copy_section-found fuel (linear_start + root) v (linear_start + c) z f a s s₁
            (positive z pos (omega arith)) found;
      represents = fr.represents;
      gives = fr.gives;
      space = fr.space;
      kept = fr.kept;
      fits = facts.0;
      short = facts.1;
      which = facts.2;
      complete = λ n s' p' loaded.
          join k root v c z f a l s s₁ p p₁ h low le mem image zeros n s' p' pos loaded;
    }

-- With fuel above the k pages that a section below 2^47 takes from its address on, not more
-- bytes in the image than in memory, the bytes of the image below 512 GiB in frames that the
-- allocator does not have and that are no tables, an address space whose lower half is a tree of
-- tables, and four frames for each page in the pool, copy_section returns; through each address
-- of the section the CPU then reads its byte, which is that of the image or, behind the end of
-- it, 0, and addresses of other pages are translated as before.
pub copy_section-Loaded :
    (k fuel n root v c z f : ℕ) (l : Labels) (s : FrameState) (p : Pool)
    → k < fuel
    → z + v % 0x1000 ≤ k * 0x1000
    → v + z ≤ 2 ^ 47
    → f ≤ z
    → c + f < 2 ^ 39
    → Represents s p
    → IsSpace l s.mem p root
    → Gives (frames_for k n) p
    → AllData l p c f
    → (s' : FrameState) × (p' : Pool) × (copy_section fuel
          (linear_start + root)
          v
          (linear_start + c)
          z
          f
          s
        ≡ some s')
      × Loaded n root v c z f l s s' p p'
copy_section-Loaded k zero n root v c z f l s p enough pages low le mem r space g image =
    absurd (omega arith)
copy_section-Loaded zero (suc fuel) n root v c z f l s p enough pages low le mem r space g image =
    let none_left : z ≡ 0 = omega arith in
    (
      s,
      p,
      copy_section-stop fuel (linear_start + root) v (linear_start + c) z f s (rw none_left refl),
      Loaded-none n root v c z f l s p none_left r space g,
    )
copy_section-Loaded (suc k) (suc fuel) n root v c z f l s p enough pages low le mem r space g
      image =
    elim (eq-cases z 0) [
      | inl none_left ↦ (
        s,
        p,
        copy_section-stop fuel (linear_start + root) v (linear_start + c) z f s (rw none_left refl),
        Loaded-none n root v c z f l s p none_left r space (Gives-pages (suc k) n p g),
      )
      | inr ne ↦
          let h =
            first_round (frames_for k n) fuel root v c z f l s p (omega arith) low le mem r space g
              image in
          let o : ℕ = v % frame_size in
          elim (lt-cases 0x1000 (z + o)) [
            | inl over ↦
                let (s', p', run, loaded) =
                  copy_section-Loaded k fuel n root (v - o + 0x1000) (c + h.taken) (z + o - 0x1000)
                    (f - h.taken) h.labels h.rest h.pool (omega arith) (omega arith) (omega arith)
                    (omega (arith, h.short, h.which)) (omega (arith, h.short)) h.represents h.space
                    h.gives (rest_data h.kept c f h.taken h.short image) in
                (
                  s',
                  p',
                  h.runs
                      ∙ section_args fuel (linear_start + root) ((v - o + frame_size) % 2 ^ 64)
                          (v - o + 0x1000) ((linear_start + c + h.taken) % 2 ^ 64)
                          (linear_start + (c + h.taken)) ((z + o + (2 ^ 64 - frame_size)) % 2 ^ 64)
                          (z + o - 0x1000) (f - h.taken) h.rest (omega arith)
                          (omega (arith, h.short)) (omega arith)
                      ∙ run,
                  h.complete n s' p' loaded,
                )
            | inr done ↦ (
              h.rest,
              h.pool,
              h.runs
                  ∙ section_stop fuel (linear_start + root) ((v - o + frame_size) % 2 ^ 64)
                      ((linear_start + c + h.taken) % 2 ^ 64)
                      ((z + o + (2 ^ 64 - frame_size)) % 2 ^ 64) (f - h.taken) h.rest (omega arith)
                      (not_positive z o (omega arith) done (omega arith)),
              h.complete n h.rest h.pool (
                  Loaded-none n root (v - o + 0x1000) (c + h.taken) (z + o - 0x1000) (f - h.taken)
                    h.labels h.rest h.pool (omega arith) h.represents h.space
                    (Gives-pages k n h.pool h.gives)),
            )
          ]
    ]
