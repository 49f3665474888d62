-- ===== src/Frame/Refine.antt =====
-- The functions of frame.c against the pool.
use metal_to_app.Base.{
  ℕ, ◌+◌, ◌%◌, ◌^◌, ◌≤◌, ◌<◌, ◌≡◌, ◌≢◌, refl, ap, ◌∙◌, ◌⊎◌, inl, inr, false, List, [], ◌∷◌, Mem,
  load, arith, has, ne_of_has, Option, none, some, eq→==, ne→==, eq-cases, if◌then◌else◌, ◌&&◌, leb,
  ltb,
}
use metal_to_app.Klib.Laws.{memset_lem}
use metal_to_app.Memory.{linear_start, pointer_to_linear_address, physical}
use metal_to_app.Memory.Linear.{physical-linear}
use metal_to_app.Frame.{
  FrameState, null, frame_alloc_internal, return_address, frame_alloc, zero_frame, frame_alloc_zero,
}
use metal_to_app.Frame.Pool
use metal_to_app.Frame.Pool.{Pool, IsPool, IsFrame}
use metal_to_app.Frame.Invariant.{Represents, Chain-frame, frames_apart, free_frames}

-- The results of an allocation agree: both refuse, or both give the same frame `a`, the new globals
-- represent the new pool, and the memory is `after a`.
abbrev pub Agree : (ℕ → Mem) → Option (ℕ × FrameState) → Option (ℕ × Pool) → Type 0
Agree after none none = Unit
Agree after none (some r) = ⊥
Agree after (some r) none = ⊥
Agree after (some (a, s)) (some (b, p)) = (a ≡ b) × Represents s p × ((q : ℕ) → s.mem q ≡ after a q)

-- The same with the pointer to the frame, and the memory `m`.
abbrev AgreePtr : Mem → Option (ℕ × FrameState) → Option (ℕ × Pool) → Type 0
AgreePtr m none none = Unit
AgreePtr m none (some r) = ⊥
AgreePtr m (some r) none = ⊥
AgreePtr m (some (f, s)) (some (b, p)) =
    (f ≡ linear_start + b) × IsFrame b × (has b p.free ≡ false) × Represents s p × (s.mem ≡ m)

module _ (s : FrameState) (low high : ℕ)
    (r : Represents s (record { free = []; low = low; high = high })) where
  internal_full : low ≡ high → frame_alloc_internal s ≡ none
  unfolding frame_alloc_internal
  internal_full e =
      rw (eq→== s.freelist null r.chain, eq→== s.freemem_start s.freemem_end (omega arith))

  internal_next :
      low ≢ high
      → frame_alloc_internal s
        ≡ some (s.freemem_start, record s { freemem_start = (s.freemem_start + 0x1000) % 2 ^ 64 })
  unfolding frame_alloc_internal
  internal_next ne =
      rw (eq→== s.freelist null r.chain, ne→== s.freemem_start s.freemem_end (omega arith))

  internal_range : AgreePtr s.mem (frame_alloc_internal s) (Pool.alloc_from_range low high)
  unfolding Pool.alloc_from_range
  internal_range = elim (eq-cases low high) [
    | inl e ↦ rw (internal_full e, eq→== low high e) tt
    | inr ne ↦
        rw (internal_next ne, ne→== low high ne)
          (
            r.starts,
            (omega arith, omega arith, omega arith),
            refl,
            record {
              pool = record {
                ordered = omega arith;
                aligned = (omega arith, omega arith);
                window = (omega arith, omega arith);
                frames = tt;
                distinct = tt;
              };
              starts = omega arith;
              ends = r.ends;
              chain = r.chain;
            },
            refl,
          )
  ]

internal_list :
    (s : FrameState) (a : ℕ) (free : List ℕ) (low high : ℕ)
    → Represents s (record { free = a ∷ free; low = low; high = high })
    → AgreePtr s.mem
        (frame_alloc_internal s)
        (some (a, record { free = free; low = low; high = high }))
unfolding frame_alloc_internal
internal_list s a free low high r = rw taken (
  r.chain.0,
  fa,
  r.pool.distinct.0,
  record {
    pool = record {
      ordered = r.pool.ordered;
      aligned = r.pool.aligned;
      window = r.pool.window;
      frames = r.pool.frames.1;
      distinct = r.pool.distinct.1;
    };
    starts = r.starts;
    ends = r.ends;
    chain = rw (r.chain.0, physical-linear a (omega arith)) r.chain.1;
  },
  refl,
)
  where
    fa : IsFrame a
    fa = r.pool.frames.0.0

    taken :
        frame_alloc_internal s
        ≡ some (s.freelist, record s { freelist = load 8 s.mem (physical s.freelist) })
    taken = rw (ne→== s.freelist null (omega (arith, r.chain.0)), frame_alloc_internal)

internal-AgreePtr :
    (s : FrameState) (free : List ℕ) (low high : ℕ)
    → Represents s (record { free = free; low = low; high = high })
    → AgreePtr s.mem (frame_alloc_internal s) (Pool.alloc_from free low high)
unfolding Pool.alloc_from
internal-AgreePtr s [] low high r = internal_range s low high r
internal-AgreePtr s (a ∷ free) low high r = internal_list s a free low high r

internal_lem :
    (s : FrameState) (p : Pool)
    → Represents s p
    → AgreePtr s.mem (frame_alloc_internal s) (Pool.alloc p)
unfolding Pool.alloc
internal_lem s p r = internal-AgreePtr s p.free p.low p.high r

return_address-eq :
    (b : ℕ) (s : FrameState) → IsFrame b → return_address (linear_start + b) s ≡ some (b, s)
unfolding return_address pointer_to_linear_address
return_address-eq b s fb = ground arith

return_lem :
    (m : Mem) (r : Option (ℕ × FrameState)) (o : Option (ℕ × Pool))
    → AgreePtr m r o
    → Agree (λ a. m) (elim r [ none ↦ none | some (f, s) ↦ return_address f s ]) o
return_lem m none none h = tt
return_lem m none (some q) h = h
return_lem m (some q) none h = absurd h
return_lem m (some (f, s)) (some (b, p)) (e, fb, out, r, same) =
    rw (e, return_address-eq b s fb) (refl, r, λ q. rw same)

-- The memory after `memset` of the frame `a`.
abbrev pub zeroed : Mem → ℕ → Mem
zeroed m a q = if leb a q && ltb q (a + 0x1000) then 0 else m q

zero_frame-at :
    (b q : ℕ) (s : FrameState)
    → IsFrame b
    → (zero_frame (linear_start + b) s).mem q ≡ zeroed s.mem b q
zero_frame-at b q s fb = rw (physical-linear b (omega arith)) (memset_lem 0x1000 s.mem b 0 q)

spared : (m : Mem) (b q : ℕ) → (q < b) ⊎ (b + 0x1000 ≤ q) → zeroed m b q ≡ m q
spared m b q h = ground arith

zero_frame-Represents :
    (b : ℕ) (s : FrameState) (p : Pool)
    → IsFrame b
    → has b p.free ≡ false
    → Represents s p
    → Represents (zero_frame (linear_start + b) s) p
zero_frame-Represents b s p fb out r = record {
  pool = r.pool;
  starts = r.starts;
  ends = r.ends;
  chain =
      Chain-frame s.mem (zero_frame (linear_start + b) s).mem s.freelist p.free
        (λ a q h lo hi.
          zero_frame-at b q s fb
          ∙ spared s.mem b q (
              frames_apart a b q (free_frames p r.pool a h).0 fb (ne_of_has a b p.free h out) lo
                hi))
        r.chain;
}

zero_lem :
    (m : Mem) (r : Option (ℕ × FrameState)) (o : Option (ℕ × Pool))
    → AgreePtr m r o
    → Agree (zeroed m) (elim r [ none ↦ none | some (f, s) ↦ return_address f (zero_frame f s) ]) o
zero_lem m none none h = tt
zero_lem m none (some q) h = h
zero_lem m (some q) none h = absurd h
zero_lem m (some (f, s)) (some (b, p)) (e, fb, out, r, same) =
    rw (e, return_address-eq b (zero_frame (linear_start + b) s) fb)
      (
        refl,
        zero_frame-Represents b s p fb out r,
        λ q. zero_frame-at b q s fb ∙ ap (λ m'. zeroed m' b q) same,
      )

-- On globals that represent a pool, frame_alloc gives the frame that the pool gives (the last
-- one released, then the range from below) and panics exactly when the pool is empty; the new
-- globals represent the new pool, and memory is unchanged.
pub frame_alloc_refines :
    (s : FrameState) (p : Pool) → Represents s p → Agree (λ a. s.mem) (frame_alloc s) (Pool.alloc p)
unfolding frame_alloc
frame_alloc_refines s p r =
    return_lem s.mem (frame_alloc_internal s) (Pool.alloc p) (internal_lem s p r)

-- On globals that represent a pool, frame_alloc_zero gives the frame that the pool gives and
-- panics exactly when the pool is empty; the new globals represent the new pool, every byte of
-- the frame is zero and every other byte is as it was.
pub frame_alloc_zero_refines :
    (s : FrameState) (p : Pool)
    → Represents s p
    → Agree (zeroed s.mem) (frame_alloc_zero s) (Pool.alloc p)
unfolding frame_alloc_zero
frame_alloc_zero_refines s p r =
    zero_lem s.mem (frame_alloc_internal s) (Pool.alloc p) (internal_lem s p r)
