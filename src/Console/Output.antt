-- ===== src/Console/Output.antt =====
-- What `print` and `println` leave on the screen.
use metal_to_app.Base.{
  ℕ, zero, suc, ◌+◌, ◌-◌, ◌*◌, ◌/◌, ◌%◌, ◌^◌, ◌≤◌, ◌<◌, ◌≡◌, ◌≢◌, refl, sym, ap, ◌∙◌, ◌⊎◌, inl, inr,
  ◌==◌, ltb, leb, if◌then◌else◌, ◌&&◌, true, false, some, Mem, update, eq-cases, eq→==, ne→==,
  arith,
}
use metal_to_app.Memory.{physical, IsMapped}
use metal_to_app.Console.{Screen, screen_byte, cwrite_from, cwrite, print, println}

-- The physical address of the screen.
abbrev pub screen : ℕ
screen = 0xB8000

screen_byte-eq : (i : ℕ) → i < 2 ^ 30 → screen_byte i ≡ screen + i
unfolding physical
screen_byte-eq i lt = ground arith

-- A byte after the characters from `written` to `n` of a text are on the screen from an offset on.
abbrev pub shown : (ℕ → ℕ) → ℕ → ℕ → ℕ → Mem → Mem
shown text offset written n m q =
    if leb (screen + 2 * offset + 2 * written) q && ltb q (screen + 2 * offset + 2 * n)
    then (if q % 2 == 0 then text ((q - screen) / 2 - offset) else 0xf)
    else m q

-- Characters up to the end of the screen change no byte beside it.
shown-off :
    (text : ℕ → ℕ) (offset n : ℕ) (m : Mem) (q : ℕ)
    → offset + n ≤ 2000
    → (q < screen) ⊎ (screen + 4000 ≤ q)
    → shown text offset 0 n m q ≡ m q
shown-off text offset n m q fits out =
    let outside : (leb (screen + 2 * offset + 2 * 0) q && ltb q (screen + 2 * offset + 2 * n))
        ≡ false =
      ground arith in
    rw outside refl

-- The first of the characters.
shown-step :
    (text : ℕ → ℕ) (offset written n : ℕ) (m : Mem) (c q : ℕ)
    → written < n
    → text written ≡ c
    → shown text offset
        (written + 1)
        n
        (update
          (update m (screen + (2 * offset + written * 2)) c)
          (screen + (2 * offset + (written * 2 + 1)))
          0xf)
        q
      ≡ shown text offset written n m q
shown-step text offset written n m c q lt e =
    elim (eq-cases q (screen + (2 * offset + written * 2))) [
      | inl here ↦
          let idx : (q - screen) / 2 - offset ≡ written = omega arith in
          let past : (leb (screen + 2 * offset + 2 * (written + 1)) q
                && ltb q (screen + 2 * offset + 2 * n))
              ≡ false =
            ground arith in
          let within : (leb (screen + 2 * offset + 2 * written) q
                && ltb q (screen + 2 * offset + 2 * n))
              ≡ true =
            ground arith in
          let even : q % 2 ≡ 0 = omega arith in
          rw
            (
              past,
              within,
              eq→== (q % 2) 0 even,
              idx,
              eq→== q (screen + (2 * offset + written * 2)) here,
              ne→== q (screen + (2 * offset + (written * 2 + 1))) (omega arith),
            )
            (sym e)
      | inr ne ↦ elim (eq-cases q (screen + (2 * offset + (written * 2 + 1)))) [
        | inl here ↦
            let past : (leb (screen + 2 * offset + 2 * (written + 1)) q
                  && ltb q (screen + 2 * offset + 2 * n))
                ≡ false =
              ground arith in
            let within : (leb (screen + 2 * offset + 2 * written) q
                  && ltb q (screen + 2 * offset + 2 * n))
                ≡ true =
              ground arith in
            let odd : q % 2 ≢ 0 = omega arith in
            rw
              (
                past,
                within,
                ne→== (q % 2) 0 odd,
                eq→== q (screen + (2 * offset + (written * 2 + 1))) here,
              )
              refl
        | inr ne' ↦
            let same : (leb (screen + 2 * offset + 2 * (written + 1)) q
                  && ltb q (screen + 2 * offset + 2 * n))
                ≡ (leb (screen + 2 * offset + 2 * written) q
                    && ltb q (screen + 2 * offset + 2 * n)) =
              ground arith in
            rw
              (
                same,
                ne→== q (screen + (2 * offset + written * 2)) ne,
                ne→== q (screen + (2 * offset + (written * 2 + 1))) ne',
              )
              refl
      ]
    ]

-- A message: its characters at a physical address, through a pointer that is mapped, with a zero byte at
-- the end and none before it.
pub record IsMessage (text : ℕ → ℕ) (n message a : ℕ) (m : Mem) : Type 0 where
  pub mapped : (i : ℕ) → i ≤ n → IsMapped (message + i)
  pub at : (i : ℕ) → i ≤ n → physical (message + i) ≡ a + i
  pub holds : (i : ℕ) → i ≤ n → m (a + i) ≡ text i
  pub ends : text n ≡ 0
  pub before : (i : ℕ) → i < n → text i ≢ 0

-- The message does not lie where it is written to.
abbrev pub IsApart : ℕ → ℕ → ℕ → Type 0
IsApart a offset n = (a + n < screen + 2 * offset) ⊎ (screen + 2 * offset + 2 * n ≤ a)

-- A character of the message as the loop reads it.
read_char :
    (text : ℕ → ℕ) (n message a i : ℕ) (m : Mem)
    → IsMessage text n message a m
    → i ≤ n
    → m (physical (message + i)) ≡ text i
read_char text n message a i m t le = ap m (t.at i le) ∙ t.holds i le

-- The message stays under the writes of one character.
IsMessage-write :
    (text : ℕ → ℕ) (n message a offset written c : ℕ) (m : Mem)
    → IsMessage text n message a m
    → IsApart a offset n
    → written < n
    → IsMessage text n message a (
        update
          (update m (screen + (2 * offset + written * 2)) c)
          (screen + (2 * offset + (written * 2 + 1)))
          0xf)
IsMessage-write text n message a offset written c m t apart lt = record {
  mapped = t.mapped;
  at = t.at;
  holds = λ i le.
      rw
        (
          ne→== (a + i) (screen + (2 * offset + written * 2)) (omega arith),
          ne→== (a + i) (screen + (2 * offset + (written * 2 + 1))) (omega arith),
        )
        (t.holds i le);
  ends = t.ends;
  before = t.before;
}

cwrite_from-end :
    (fuel offset message written : ℕ) (m : Mem)
    → m (physical (message + written)) ≡ 0
    → cwrite_from (suc fuel) offset message written m ≡ some (written, m)
unfolding cwrite_from
cwrite_from-end fuel offset message written m e = rw e refl

cwrite_from-char :
    (fuel offset message written c : ℕ) (m : Mem)
    → m (physical (message + written)) ≡ c
    → c ≢ 0
    → 2 * offset + (written * 2 + 1) < 2 ^ 30
    → cwrite_from (suc fuel) offset message written m
      ≡ cwrite_from fuel offset message (written + 1) (
          update
            (update m (screen + (2 * offset + written * 2)) c)
            (screen + (2 * offset + (written * 2 + 1)))
            0xf)
unfolding cwrite_from
cwrite_from-char fuel offset message written c m e ne lt =
    rw
      (
        e,
        ne→== c 0 ne,
        screen_byte-eq (2 * offset + written * 2) (omega arith),
        screen_byte-eq (2 * offset + (written * 2 + 1)) lt,
      )
      refl

cwrite_from-shown :
    (k fuel written n : ℕ) (text : ℕ → ℕ) (offset message a : ℕ) (m : Mem)
    → written + k ≡ n
    → k < fuel
    → offset + n < 2 ^ 20
    → IsMessage text n message a m
    → IsApart a offset n
    → (m' : Mem) × (cwrite_from fuel offset message written m ≡ some (n, m'))
      × ((q : ℕ) → m' q ≡ shown text offset written n m q)
cwrite_from-shown k zero written n text offset message a m e lt small t apart = absurd (omega arith)
cwrite_from-shown zero (suc fuel) written n text offset message a m e lt small t apart =
    let last : written ≡ n = omega arith in
    (
      m,
      cwrite_from-end fuel offset message written m
            (read_char text n message a written m t (omega arith) ∙ ap text last ∙ t.ends)
          ∙ ap (λ w. some (w, m)) last,
      λ q. none_left q,
    )
  where
    none_left : (q : ℕ) → m q ≡ shown text offset written n m q
    none_left q =
        let out : (leb (screen + 2 * offset + 2 * written) q && ltb q (screen + 2 * offset + 2 * n))
            ≡ false =
          ground arith in
        rw out refl
cwrite_from-shown (suc k) (suc fuel) written n text offset message a m e lt small t apart =
    let m₁ : Mem =
      update (update m (screen + (2 * offset + written * 2)) (text written))
        (screen + (2 * offset + (written * 2 + 1))) 0xf in
    let (m', found, same) =
      cwrite_from-shown k fuel (written + 1) n text offset message a m₁ (omega arith) (omega arith)
        small
        (IsMessage-write text n message a offset written (text written) m t apart (omega arith))
        apart in
    (
      m',
      cwrite_from-char fuel offset message written (text written) m
            (read_char text n message a written m t (omega arith)) (t.before written (omega arith))
            (omega arith)
          ∙ found,
      λ q. same q ∙ shown-step text offset written n m (text written) q (omega arith) refl,
    )

print_found :
    (fuel message written : ℕ) (s : Screen) (m : Mem)
    → cwrite_from fuel s.current_offset message 0 s.mem ≡ some (written, m)
    → print fuel message s
      ≡ some (record { mem = m; current_offset = (s.current_offset + written) % 2000 })
unfolding print cwrite
print_found fuel message written s m e = rw (e, print) refl

println_found :
    (fuel message : ℕ) (s s' : Screen)
    → print fuel message s ≡ some s'
    → println fuel message s
      ≡ some (record s' { current_offset = (s'.current_offset + 79) / 80 * 80 })
unfolding println
println_found fuel message s s' e = rw (e, println) refl

-- For a zero-terminated message of n bytes in the mapped windows that does not overlap the bytes
-- written, an offset with room for n characters up to the end of the screen at 2000 and fuel
-- above n, println returns; the characters with their attribute lie on the screen from the
-- offset on and no other byte changed, so that no byte beside the 4000 bytes of the screen did;
-- the new offset is the offset n further, round 2000 characters, rounded up to the start of a
-- line, so that it is at most 2000.
pub println_lem :
    (fuel n message a : ℕ) (text : ℕ → ℕ) (s : Screen)
    → n < fuel
    → s.current_offset + n ≤ 2000
    → IsMessage text n message a s.mem
    → IsApart a s.current_offset n
    → (s' : Screen) × (println fuel message s ≡ some s')
      × ((q : ℕ) → s'.mem q ≡ shown text s.current_offset 0 n s.mem q)
      × ((q : ℕ) → (q < screen) ⊎ (screen + 4000 ≤ q) → s'.mem q ≡ s.mem q)
      × (s'.current_offset ≡ ((s.current_offset + n) % 2000 + 79) / 80 * 80)
      × (s'.current_offset % 80 ≡ 0)
      × (s'.current_offset ≤ 2000)
println_lem fuel n message a text s lt o t apart =
    let (m', found, same) =
      cwrite_from-shown n fuel 0 n text s.current_offset message a s.mem (omega arith) lt
        (omega arith) t apart in
    (
      record { mem = m'; current_offset = ((s.current_offset + n) % 2000 + 79) / 80 * 80 },
      println_found fuel message s _ (print_found fuel message n s m' found),
      same,
      λ q out. same q ∙ shown-off text s.current_offset n s.mem q o out,
      refl,
      omega arith,
      omega arith,
    )
