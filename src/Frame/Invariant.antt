-- ===== src/Frame/Invariant.antt =====
-- How the globals and the memory represent a pool of frames.
use metal_to_app.Base.{
  ℕ, ◌+◌, ◌*◌, ◌/◌, ◌^◌, ◌≤◌, ◌<◌, ◌≡◌, ◌≢◌, refl, ◌⊎◌, true, false, List, [], ◌∷◌, Mem, load,
  store, arith, load_agree, load-store_self, store_outside, has, All-has, ne_of_has,
}
use metal_to_app.Memory.{linear_start, linear_address_to_ptr, physical}
use metal_to_app.Memory.Linear.{linear_address_to_ptr-eq, physical-linear}
use metal_to_app.Frame.{FrameState, null, init_frame_allocator, frame_dealloc}
use metal_to_app.Frame.Pool
use metal_to_app.Frame.Pool.{Pool, IsPool, IsFrame, available}

-- From the pointer `list` the first words lead through the frames `free` to NULL.
abbrev pub Chain : Mem → ℕ → List ℕ → Type 0
Chain m list [] = list ≡ null
Chain m list (a ∷ free) = (list ≡ linear_start + a) × Chain m (load 8 m a) free

pub record Represents (s : FrameState) (p : Pool) : Type 0 where
  pub pool : IsPool p
  pub starts : s.freemem_start ≡ linear_start + p.low
  pub ends : s.freemem_end ≡ linear_start + p.high
  pub chain : Chain s.mem s.freelist p.free

-- The list survives a change of the memory that spares the first words of its frames.
pub Chain-frame :
    (m m' : Mem) (list : ℕ) (free : List ℕ)
    → ((a q : ℕ) → has a free ≡ true → a ≤ q → q < a + 8 → m' q ≡ m q)
    → Chain m list free
    → Chain m' list free
Chain-frame m m' list [] same c = c
Chain-frame m m' list (a ∷ free) same c =
    let word : load 8 m' a ≡ load 8 m a =
      load_agree 8 m' m a (λ q lo hi. same a q (ground arith) lo hi) in
    (
      c.0,
      rw word
          (Chain-frame m m' (load 8 m a) free (λ b q h lo hi. same b q (ground arith) lo hi) c.1),
    )

pub Chain-small :
    (m : Mem) (list : ℕ) (free : List ℕ)
    → ((a : ℕ) → has a free ≡ true → IsFrame a)
    → Chain m list free
    → list < 2 ^ 64
Chain-small m list [] frames c = omega arith
Chain-small m list (a ∷ free) frames c = omega (arith, frames a (ground arith))

-- Two frames that are not the same do not overlap.
pub frames_apart :
    (a b q : ℕ) → IsFrame a → IsFrame b → a ≢ b → a ≤ q → q < a + 8 → (q < b) ⊎ (b + 0x1000 ≤ q)
frames_apart a b q fa fb ne lo hi = omega arith

pub free_frames :
    (p : Pool) → IsPool p → (a : ℕ) → has a p.free ≡ true → IsFrame a × ((a < p.low) ⊎ (p.high ≤ a))
free_frames p v a h = All-has (λ a. IsFrame a × ((a < p.low) ⊎ (p.high ≤ a))) a p.free v.frames h

-- Where the start is not 0 and, rounded up to a whole frame, does not exceed the end rounded
-- down, and the end is within 512 GiB, init_frame_allocator sets up globals that represent the
-- pool of exactly the whole frames between the two addresses.
pub init-Represents :
    (fm_start fm_end : ℕ) (m : Mem)
    → 0 < fm_start
    → (fm_start + 0xfff) / 0x1000 ≤ fm_end / 0x1000
    → fm_end ≤ 2 ^ 39
    → Represents (init_frame_allocator fm_start fm_end m) (record {
      free = [];
      low = (fm_start + 0xfff) / 0x1000 * 0x1000;
      high = fm_end / 0x1000 * 0x1000;
    })
unfolding init_frame_allocator
init-Represents fm_start fm_end m pos order top = record {
  pool = record {
    ordered = omega arith;
    aligned = (omega arith, omega arith);
    window = (omega arith, omega arith);
    frames = tt;
    distinct = tt;
  };
  starts = omega arith;
  ends = omega arith;
  chain = refl;
}

-- On globals that represent a pool, frame_dealloc of a whole frame of the linear window that is
-- not available leaves globals and memory that represent the pool with that frame in front.
pub frame_dealloc_refines :
    (s : FrameState) (p : Pool) (a : ℕ)
    → Represents s p
    → IsFrame a
    → available a p ≡ false
    → Represents (frame_dealloc a s) (Pool.dealloc a p)
unfolding frame_dealloc Pool.dealloc
frame_dealloc_refines s p a r fa out =
    let ptr : linear_address_to_ptr a ≡ linear_start + a =
      linear_address_to_ptr-eq a (omega arith) in
    let at : physical (linear_start + a) ≡ a = physical-linear a (omega arith) in
    rw (ptr, at)
      (record {
        pool = record {
          ordered = r.pool.ordered;
          aligned = r.pool.aligned;
          window = r.pool.window;
          frames = ((fa, ground arith), r.pool.frames);
          distinct = (ground arith, r.pool.distinct);
        };
        starts = r.starts;
        ends = r.ends;
        chain = (refl, rw (load-store_self 8 s.mem a s.freelist small) kept);
      })
  where
    small : s.freelist < 2 ^ 64
    small = Chain-small s.mem s.freelist p.free (λ b h. (free_frames p r.pool b h).0) r.chain

    not_free : has a p.free ≡ false
    not_free = ground arith

    kept : Chain (store 8 s.mem a s.freelist) s.freelist p.free
    kept =
        Chain-frame s.mem (store 8 s.mem a s.freelist) s.freelist p.free
          (λ b q h lo hi. store_outside 8 s.mem a s.freelist q (
            omega (
              arith,
              frames_apart b a q (free_frames p r.pool b h).0 fa (ne_of_has b a p.free h not_free)
                  lo hi,
            )))
          r.chain
