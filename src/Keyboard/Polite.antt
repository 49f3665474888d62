-- ===== src/Keyboard/Polite.antt =====
-- The order in which the keyboard driver uses its ports, and the log of what goes over them.
use metal_to_app.Base.{
  ℕ, zero, suc, ◌+◌, ◌%◌, ◌==◌, ◌≡◌, refl, sym, ap, ◌∙◌, if◌then◌else◌, Bool-cases, inl, inr, true,
  false, Option, none, some, List, [], ◌∷◌, ◌++◌, test_bit, arith,
}
use mathlib.Core.List.{append_assoc}
use mathlib.Core.Path.{subst}
use metal_to_app.Keyboard.Ports
use metal_to_app.Keyboard.Ports.{
  Event, Ports, Answers, does, inb, outb, ps2data, ps2command, ps2command2, ps2_read_spin, flush,
  configured, configure, initps2,
}

-- The status that was read last, when nothing was done since.
unfoldable pub status_before : List Event → Option ℕ
status_before [] = none
status_before (Ports.read port value ∷ es) = if port == 0x64 then some value else none
status_before (Ports.write port value ∷ es) = none
status_before (Ports.print text ∷ es) = none
status_before (Ports.println text ∷ es) = none
status_before (Ports.printhex n ∷ es) = none
status_before (Ports.hlt ∷ es) = none

-- The data port is read directly behind a status with bit 0, and written directly behind one without bit 1.
abbrev pub Allowed : Event → List Event → Type 0
Allowed (Ports.read port value) es =
    port ≡ 0x60 → (status : ℕ) × (status_before es ≡ some status) × (test_bit status 0 ≡ true)
Allowed (Ports.write port value) es =
    port ≡ 0x60 → (status : ℕ) × (status_before es ≡ some status) × (test_bit status 1 ≡ false)
Allowed (Ports.print text) es = Unit
Allowed (Ports.println text) es = Unit
Allowed (Ports.printhex n) es = Unit
Allowed Ports.hlt es = Unit

abbrev pub IsPolite : List Event → Type 0
IsPolite [] = Unit
IsPolite (e ∷ es) = Allowed e es × IsPolite es

-- What goes between the driver and the controller: a byte that is read from the data port, a byte
-- that is written to it, and a command for the controller.
pub data Transfer : Type 0 where
  took gave commanded : ℕ → Transfer

-- The transfers of a log, the latest first. The ports are 0x60 for data, and 0x64 for commands and the
-- status.
unfoldable pub transfers : List Event → List Transfer
transfers [] = []
transfers (Ports.read q value ∷ es) = if q == 0x60 then took value ∷ transfers es else transfers es
transfers (Ports.write q value ∷ es) =
    if q == 0x60
    then gave value ∷ transfers es
    else if q == 0x64
    then commanded value ∷ transfers es
    else transfers es
transfers (Ports.print text ∷ es) = transfers es
transfers (Ports.println text ∷ es) = transfers es
transfers (Ports.printhex n ∷ es) = transfers es
transfers (Ports.hlt ∷ es) = transfers es

-- The reads of a log gave what the controller answers, each at its number.
abbrev pub IsReal : Answers → ℕ → List Event → Type 0
IsReal answers reads [] = Unit
IsReal answers reads (Ports.read port value ∷ es) =
    (n : ℕ) × (reads ≡ suc n) × (value ≡ answers n port % 256) × IsReal answers n es
IsReal answers reads (Ports.write port value ∷ es) = IsReal answers reads es
IsReal answers reads (Ports.print text ∷ es) = IsReal answers reads es
IsReal answers reads (Ports.println text ∷ es) = IsReal answers reads es
IsReal answers reads (Ports.printhex n ∷ es) = IsReal answers reads es
IsReal answers reads (Ports.hlt ∷ es) = IsReal answers reads es

-- What the driver did: the transfers that it made, the latest first, in the order allowed and with bytes
-- that the controller gave.
pub record Did (answers : Answers) (t : List Transfer) (s s' : Ports) : Type 0 where
  pub polite : IsPolite s.events → IsPolite s'.events
  pub real : IsReal answers s.reads s.events → IsReal answers s'.reads s'.events
  pub transferred : transfers s'.events ≡ t ++ transfers s.events

pub Did-refl : {answers : Answers} → (s : Ports) → Did answers [] s s
Did-refl s = record { polite = λ p. p; real = λ r. r; transferred = refl }

pub Did-trans :
    {answers : Answers} {t t' : List Transfer} {s s' s'' : Ports}
    → Did answers t s s'
    → Did answers t' s' s''
    → Did answers (t' ++ t) s s''
Did-trans {answers} {t} {t'} {s} h k = record {
  polite = λ p. k.polite (h.polite p);
  real = λ r. k.real (h.real r);
  transferred =
      k.transferred
      ∙ ap (λ x. t' ++ x) h.transferred
      ∙ sym (append_assoc t' t (transfers s.events));
}

-- After what transfers nothing.
pub Did-behind :
    {answers : Answers} {t : List Transfer} {s s' s'' : Ports}
    → Did answers [] s s'
    → Did answers t s' s''
    → Did answers t s s''
Did-behind {answers} {t} h k = record {
  polite = λ p. k.polite (h.polite p);
  real = λ r. k.real (h.real r);
  transferred = k.transferred ∙ ap (λ x. t ++ x) h.transferred;
}

-- Transfers that are all bytes taken from the controller.
abbrev pub OnlyTook : List Transfer → Type 0
OnlyTook [] = Unit
OnlyTook (took v ∷ t) = OnlyTook t
OnlyTook (gave v ∷ t) = ⊥
OnlyTook (commanded v ∷ t) = ⊥

pub OnlyTook-append : (t t' : List Transfer) → OnlyTook t → OnlyTook t' → OnlyTook (t ++ t')
OnlyTook-append [] t' h h' = h'
OnlyTook-append (took v ∷ t) t' h h' = OnlyTook-append t t' h h'
OnlyTook-append (gave v ∷ t) t' h h' = absurd h
OnlyTook-append (commanded v ∷ t) t' h h' = absurd h

-- What the driver did where it only took bytes.
pub record DidTake (answers : Answers) (s s' : Ports) : Type 0 where
  pub taken : List Transfer
  pub only_took : OnlyTook taken
  pub did : Did answers taken s s'

pub DidTake-trans :
    {answers : Answers} {s s' s'' : Ports}
    → DidTake answers s s'
    → DidTake answers s' s''
    → DidTake answers s s''
DidTake-trans h k = record {
  taken = k.taken ++ h.taken;
  only_took = OnlyTook-append k.taken h.taken k.only_took h.only_took;
  did = Did-trans h.did k.did;
}

pub DidTake-none : {answers : Answers} {s s' : Ports} → Did answers [] s s' → DidTake answers s s'
DidTake-none d = record { taken = []; only_took = tt; did = d }

pub DidTake-one :
    {answers : Answers} {v : ℕ} {s s' : Ports}
    → Did answers (took v ∷ []) s s'
    → DidTake answers s s'
DidTake-one {answers} {v} d = record { taken = took v ∷ []; only_took = tt; did = d }

-- A predicate of a result, if there is one.
abbrev pub When : {A : Type 0} → (A → Type 0) → Option A → Type 0
When P none = Unit
When P (some a) = P a

pub When-map :
    {A : Type 0} {P Q : A → Type 0} → (x : Option A) → ((a : A) → P a → Q a) → When P x → When Q x
When-map none f h = tt
When-map (some a) f h = f a h

module _ (answers : Answers) where
  pub Did-status : (s : Ports) → Did answers [] s (inb answers 0x64 s).1
  unfolding inb transfers
  Did-status s = record {
    polite = λ p. (λ e. absurd (omega (arith, e)), p);
    real = λ r. (s.reads, omega arith, refl, r);
    transferred = refl;
  }

  pub Did-read :
      (s : Ports)
      → test_bit (inb answers 0x64 s).0 0 ≡ true
      → Did answers
          (took (inb answers 0x60 (inb answers 0x64 s).1).0 ∷ [])
          s
          (inb answers 0x60 (inb answers 0x64 s).1).1
  unfolding inb transfers status_before
  Did-read s e = record {
    polite = λ p. (λ at. (_, refl, e), (λ x. absurd (omega (arith, x)), p));
    real = λ r. (s.reads + 1, omega arith, refl, (s.reads, omega arith, refl, r));
    transferred = refl;
  }

  Did-write :
      (byte : ℕ) (s : Ports)
      → test_bit (inb answers 0x64 s).0 1 ≡ false
      → Did answers (gave byte ∷ []) s (outb 0x60 byte (inb answers 0x64 s).1)
  unfolding inb outb transfers status_before
  Did-write byte s e = record {
    polite = λ p. (λ at. (_, refl, e), (λ x. absurd (omega (arith, x)), p));
    real = λ r. (s.reads, omega arith, refl, r);
    transferred = refl;
  }

  pub Did-command : (cmd : ℕ) (s : Ports) → Did answers (commanded cmd ∷ []) s (ps2command cmd s)
  unfolding ps2command outb transfers
  Did-command cmd s = record {
    polite = λ p. (λ x. absurd (omega (arith, x)), p);
    real = λ r. r;
    transferred = refl;
  }

  pub ps2data-Did :
      (fuel byte : ℕ) (s : Ports)
      → When (Did answers (gave byte ∷ []) s) (ps2data answers fuel byte s)
  unfolding ps2data
  ps2data-Did zero byte s = tt
  ps2data-Did (suc fuel) byte s = elim (Bool-cases (test_bit (inb answers 0x64 s).0 1)) [
    | inl busy ↦
        rw (busy, ps2data)
          (When-map (ps2data answers fuel byte (inb answers 0x64 s).1)
            (λ s'. Did-behind (Did-status s)) (ps2data-Did fuel byte (inb answers 0x64 s).1))
    | inr free ↦ rw (free, ps2data) (Did-write byte s free)
  ]

  pub ps2_read_spin-Did :
      (fuel : ℕ) (s : Ports)
      → When (λ r. Did answers (took r.0 ∷ []) s r.1) (ps2_read_spin answers fuel s)
  unfolding ps2_read_spin
  ps2_read_spin-Did zero s = tt
  ps2_read_spin-Did (suc fuel) s = elim (Bool-cases (test_bit (inb answers 0x64 s).0 0)) [
    | inl there ↦ rw (there, ps2_read_spin) (Did-read s there)
    | inr none_yet ↦
        rw (none_yet, ps2_read_spin)
          (When-map (ps2_read_spin answers fuel (inb answers 0x64 s).1)
            (λ r. Did-behind (Did-status s)) (ps2_read_spin-Did fuel (inb answers 0x64 s).1))
  ]

  -- The screen and `hlt` are no ports.
  pub Did-say :
      (n : ℕ) (s : Ports) → Did answers [] s (does (Ports.println "") (does (Ports.printhex n) s))
  unfolding transfers
  Did-say n s = record { polite = λ p. (tt, (tt, p)); real = λ r. r; transferred = refl }

  pub Did-configuration :
      (n : ℕ) (s : Ports)
      → Did answers [] s (
          does
            (Ports.println "")
            (does (Ports.printhex n) (does (Ports.print "PS2 Controller configuration: ") s)))
  unfolding transfers
  Did-configuration n s = record {
    polite = λ p. (tt, (tt, (tt, p)));
    real = λ r. r;
    transferred = refl;
  }

  pub Did-printhex : (n : ℕ) (s : Ports) → Did answers [] s (does (Ports.printhex n) s)
  unfolding transfers
  Did-printhex n s = record { polite = λ p. (tt, p); real = λ r. r; transferred = refl }

  pub Did-stop :
      (n : ℕ) (s : Ports)
      → Did answers [] s (
          does Ports.hlt
            (does (Ports.printhex n) (does (Ports.print "unknown byte from keyboard") s)))
  unfolding transfers
  Did-stop n s = record { polite = λ p. (tt, (tt, (tt, p))); real = λ r. r; transferred = refl }

pub When-bind :
    {A B : Type 0} (P : A → Type 0) (Q : B → Type 0) (x : Option A) (f : A → Option B)
    → When P x
    → ((a : A) → P a → When Q (f a))
    → When Q (elim x [ none ↦ none | some a ↦ f a ])
When-bind P Q none f h g = tt
When-bind P Q (some a) f h g = g a h

-- What holds of each result holds of the one that there is.
pub When-some : {A : Type 0} (P : A → Type 0) (x : Option A) (a : A) → x ≡ some a → When P x → P a
When-some P x a e h = subst (When P) e h
