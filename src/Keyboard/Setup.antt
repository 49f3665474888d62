-- ===== src/Keyboard/Setup.antt =====
-- `initps2`: what it sends.
use metal_to_app.Base.{
  ℕ, zero, suc, ◌<◌, ◌≡◌, refl, some, List, [], ◌∷◌, ◌++◌, test_bit, ◌&&◌, arith,
}
use metal_to_app.Keyboard.Ports
use metal_to_app.Keyboard.Ports.{
  Ports, Answers, does, inb, outb, ps2data, ps2command, ps2command2, ps2_read_spin, flush,
  configured, configure, initps2,
}
use metal_to_app.Keyboard.Polite.{
  Transfer, took, gave, commanded, OnlyTook, IsPolite, Did, Did-trans, When, When-map, When-bind,
  When-some, Did-command, Did-configuration, Did-printhex, ps2data-Did, ps2_read_spin-Did,
}
use metal_to_app.Keyboard.Replies.{
  IsResponsive, flush_ends, flush-DidTake, ps2_read_spin_lem, ps2data_lem,
}

module _ (answers : Answers) where
  -- The state behind the configuration byte, and that before the self test.
  abbrev before_test : ℕ → Ports → Ports
  before_test cc s = ps2command 0xaa (
      does (Ports.println "")
        (does (Ports.printhex cc) (does (Ports.print "PS2 Controller configuration: ") s)))

  before_test-Did : (cc : ℕ) (s : Ports) → Did answers (commanded 0xaa ∷ []) s (before_test cc s)
  before_test-Did cc s = Did-trans (Did-configuration answers cc s) (Did-command answers 0xaa _)

  after_test-Did :
      (v : ℕ) (s : Ports)
      → Did answers (commanded 0xae ∷ []) s (ps2command 0xae (does (Ports.printhex v) s))
  after_test-Did v s = Did-trans (Did-printhex answers v s) (Did-command answers 0xae _)

  -- The transfers of `configure` with a configuration byte and the result of the test, the latest first.
  abbrev pub configuration : ℕ → ℕ → List Transfer
  configuration cc test =
      commanded 0xae
      ∷ took test
      ∷ commanded 0xaa
      ∷ gave (configured cc)
      ∷ commanded 0x60
      ∷ took cc
      ∷ commanded 0x20
      ∷ []

  -- The steps of `configure`.
  configuration-Did :
      (cc test : ℕ) (s s₁ s₂ s₃ : Ports)
      → Did answers (took cc ∷ []) (ps2command 0x20 s) s₁
      → Did answers (gave (configured cc) ∷ []) (ps2command 0x60 s₁) s₂
      → Did answers (took test ∷ []) (before_test (configured cc) s₂) s₃
      → Did answers (configuration cc test) s (ps2command 0xae (does (Ports.printhex test) s₃))
  configuration-Did cc test s s₁ s₂ s₃ d₁ d₂ d₃ = Did-trans (Did-command answers 0x20 s) (
      Did-trans d₁ (
        Did-trans (Did-command answers 0x60 s₁) (
          Did-trans d₂ (
            Did-trans (before_test-Did (configured cc) s₂)
              (Did-trans d₃ (after_test-Did test s₃))))))

  -- What `configure` did.
  abbrev Configured : Ports → Ports → Type 0
  Configured s s' = (cc test : ℕ) × Did answers (configuration cc test) s s'

  configure-Did : (fuel : ℕ) (s : Ports) → When (Configured s) (configure answers fuel s)
  unfolding configure ps2command2
  configure-Did fuel s =
      When-bind _ _ (ps2_read_spin answers fuel (ps2command 0x20 s)) _
        (ps2_read_spin-Did answers fuel (ps2command 0x20 s))
        λ r₁ d₁.
          When-bind _ _ (ps2data answers fuel (configured r₁.0) (ps2command 0x60 r₁.1)) _
            (ps2data-Did answers fuel (configured r₁.0) (ps2command 0x60 r₁.1))
            λ s₂ d₂.
              When-bind _ _ (ps2_read_spin answers fuel (before_test (configured r₁.0) s₂)) _
                (ps2_read_spin-Did answers fuel (before_test (configured r₁.0) s₂))
                λ r₃ d₃. (r₁.0, r₃.0, configuration-Did r₁.0 r₃.0 s r₁.1 s₂ r₃.1 d₁ d₂ d₃)

  configure-found :
      (fuel v v' : ℕ) (s s₁ s₂ s₃ : Ports)
      → ps2_read_spin answers fuel (ps2command 0x20 s) ≡ some (v, s₁)
      → ps2data answers fuel (configured v) (ps2command 0x60 s₁) ≡ some s₂
      → ps2_read_spin answers fuel (before_test (configured v) s₂) ≡ some (v', s₃)
      → configure answers fuel s ≡ some (ps2command 0xae (does (Ports.printhex v') s₃))
  unfolding configure ps2command2
  configure-found fuel v v' s s₁ s₂ s₃ e₁ e₂ e₃ = rw (e₁, e₂, e₃, configure, ps2command2) refl

  configure_lem :
      (fuel : ℕ) (s : Ports)
      → IsResponsive answers fuel
      → (s' : Ports) × (cc test : ℕ) × (configure answers fuel s ≡ some s')
        × (cc < 256)
        × Did answers (configuration cc test) s s'
  configure_lem fuel s h =
      let (v, s₁, e₁, small, d₁) = ps2_read_spin_lem answers fuel (ps2command 0x20 s) h in
      let (s₂, e₂, d₂) = ps2data_lem answers fuel (configured v) (ps2command 0x60 s₁) h in
      let (v', s₃, e₃, small', d₃) =
        ps2_read_spin_lem answers fuel (before_test (configured v) s₂) h in
      (
        ps2command 0xae (does (Ports.printhex v') s₃),
        v,
        v',
        configure-found fuel v v' s s₁ s₂ s₃ e₁ e₂ e₃,
        small,
        configuration-Did v v' s s₁ s₂ s₃ d₁ d₂ d₃,
      )

  -- What is done before `configure`: the two ports are disabled and the buffer is emptied.
  pub record Flushed (s s' : Ports) : Type 0 where
    pub stale : List Transfer
    pub only_took : OnlyTook stale
    pub did : Did answers (stale ++ (commanded 0xa7 ∷ commanded 0xad ∷ [])) s s'

  flushed :
      (fuel : ℕ) (s : Ports)
      → When (Flushed s) (flush answers fuel (ps2command 0xa7 (ps2command 0xad s)))
  flushed fuel s =
      When-map (flush answers fuel (ps2command 0xa7 (ps2command 0xad s)))
        (λ s' d. record {
          stale = d.taken;
          only_took = d.only_took;
          did =
              Did-trans
                (Did-trans (Did-command answers 0xad s)
                  (Did-command answers 0xa7 (ps2command 0xad s)))
                d.did;
        })
        (flush-DidTake answers fuel (ps2command 0xa7 (ps2command 0xad s)))

  pub initps2-Polite :
      (fuel : ℕ) (s : Ports)
      → When (λ s'. IsPolite s.events → IsPolite s'.events) (initps2 answers fuel s)
  unfolding initps2
  initps2-Polite fuel s =
      When-bind _ _ (flush answers fuel (ps2command 0xa7 (ps2command 0xad s))) _ (flushed fuel s)
        λ s₁ d₁.
          When-map (configure answers fuel s₁) (λ s' (cc, test, d₂) p. d₂.polite (d₁.did.polite p))
            (configure-Did fuel s₁)

  initps2-found :
      (fuel : ℕ) (s s₁ s₂ : Ports)
      → flush answers fuel (ps2command 0xa7 (ps2command 0xad s)) ≡ some s₁
      → configure answers fuel s₁ ≡ some s₂
      → initps2 answers fuel s ≡ some s₂
  unfolding initps2
  initps2-found fuel s s₁ s₂ e₁ e₂ = rw (e₁, e₂, initps2) refl

-- The bits of the configuration byte that are left.
configured_bits :
    (cc b : ℕ) → cc < 256 → b < 8 → test_bit (configured cc) b ≡ (test_bit cc b && test_bit 0x34 b)
configured_bits cc zero small lt = ground arith
configured_bits cc (suc zero) small lt = ground arith
configured_bits cc (suc (suc zero)) small lt = ground arith
configured_bits cc (suc (suc (suc zero))) small lt = ground arith
configured_bits cc (suc (suc (suc (suc zero)))) small lt = ground arith
configured_bits cc (suc (suc (suc (suc (suc zero))))) small lt = ground arith
configured_bits cc (suc (suc (suc (suc (suc (suc zero)))))) small lt = ground arith
configured_bits cc (suc (suc (suc (suc (suc (suc (suc zero))))))) small lt = ground arith
configured_bits cc (suc (suc (suc (suc (suc (suc (suc (suc b)))))))) small lt = absurd (omega arith)

-- With a controller that within fuel reads takes a byte, has one to give, and when it is emptied
-- has none more, initps2 returns, and what went over the ports is, in this order: the commands
-- 0xAD and 0xA7, bytes that are read and dropped, the command 0x20, a byte cc that is read, the
-- command 0x60, the bits 2, 4 and 5 of cc as its data, the command 0xAA, a byte that is read,
-- and the command 0xAE. If the log was so before, every byte in it is what the controller
-- answered to that read, each read of the data port comes directly behind a status with bit 0,
-- and each write to it directly behind one without bit 1.
pub initps2_lem :
    (answers : Answers) (fuel : ℕ) (s : Ports)
    → IsResponsive answers fuel
    → (s' : Ports) × (cc test : ℕ) × (stale : List Transfer) × (initps2 answers fuel s ≡ some s')
      × OnlyTook stale
      × Did answers
          (configuration answers cc test ++ (stale ++ (commanded 0xa7 ∷ commanded 0xad ∷ [])))
          s
          s'
      × ((b : ℕ) → b < 8 → test_bit (configured cc) b ≡ (test_bit cc b && test_bit 0x34 b))
initps2_lem answers fuel s h =
    let s₀ : Ports = ps2command 0xa7 (ps2command 0xad s) in
    let (k, lt, e) = h.empties s₀.reads in
    let (s₁, e₁) = flush_ends answers fuel k s₀ lt e in
    let d₁ = When-some _ (flush answers fuel s₀) s₁ e₁ (flushed answers fuel s) in
    let (s₂, cc, test, e₂, small, d₂) = configure_lem answers fuel s₁ h in
    (
      s₂,
      cc,
      test,
      d₁.stale,
      initps2-found answers fuel s s₁ s₂ e₁ e₂,
      d₁.only_took,
      Did-trans d₁.did d₂,
      λ b. configured_bits cc b small,
    )
