-- ===== src/Elf/Write.antt =====
-- A copy into a new frame of data.
use metal_to_app.Base.{
  ℕ, ◌+◌, ◌-◌, ◌^◌, ◌≤◌, ◌<◌, ◌≡◌, ◌≢◌, refl, ap, ◌∙◌, ◌⊎◌, if◌then◌else◌, leb, ltb, ◌&&◌, true,
  false, has, arith,
}
use mathlib.Core.Path.{subst}
use metal_to_app.Klib.Laws.{memcpy_lem}
use metal_to_app.Memory.{linear_address_to_ptr, physical}
use metal_to_app.Memory.Linear.{linear_address_to_ptr-eq, physical-linear}
use metal_to_app.Frame.{FrameState}
use metal_to_app.Frame.Pool.{Pool, IsFrame}
use metal_to_app.Frame.Invariant.{Represents, Chain-frame, frames_apart, free_frames}
use metal_to_app.Paging.Slots.{Owned}
use metal_to_app.Paging.Placed.{Labels, IsSpace}
use metal_to_app.Paging.Step.{SameWalks}
use metal_to_app.Elf.{copy_bytes}
use metal_to_app.Elf.NewFrame.{IsSpace-stays, Framed}

-- The copy reaches `n` bytes from `d` on, and nothing else.
pub copied :
    (d c src n q : ℕ) (s : FrameState)
    → d < 2 ^ 39
    → physical src ≡ c
    → (d ≤ c) ⊎ (c + n ≤ d)
    → (copy_bytes (linear_address_to_ptr d) src n s).mem q
      ≡ (if leb d q && ltb q (d + n) then s.mem (c + (q - d)) else s.mem q)
unfolding copy_bytes
copied d c src n q s small at apart =
    rw (linear_address_to_ptr-eq d small, physical-linear d small, at)
      (memcpy_lem n s.mem d c q apart)

copy_bytes-Represents :
    (a d src n : ℕ) (s : FrameState) (p : Pool)
    → Owned p a
    → ((q : ℕ) → (q < a) ⊎ (a + 0x1000 ≤ q) → (copy_bytes d src n s).mem q ≡ s.mem q)
    → Represents s p
    → Represents (copy_bytes d src n s) p
unfolding copy_bytes
copy_bytes-Represents a d src n s p o same r = record {
  pool = r.pool;
  starts = r.starts;
  ends = r.ends;
  chain =
      Chain-frame s.mem (copy_bytes d src n s).mem s.freelist p.free
        (λ b q h lo hi.
          same q (frames_apart b a q (free_frames p r.pool b h).0 o.0 (other b h) lo hi))
        r.chain;
}
  where
    other : (b : ℕ) → has b p.free ≡ true → b ≢ a
    other b h e = ground (arith, subst (λ x. has x p.free ≡ true) e h)

module _ (n root a ptr d c src len : ℕ) (l : Labels) (s s' : FrameState) (p p' : Pool)
    (f : Framed n root a ptr l s s' p p') (lo : a ≤ d) (hi : d + len ≤ a + 0x1000)
    (at : physical src ≡ c) (apart : (d ≤ c) ⊎ (c + len ≤ d)) (inside : d < a + 0x1000) where
  abbrev pub filled : FrameState
  filled = copy_bytes (linear_address_to_ptr d) src len s'

  pub filled-at :
      (q : ℕ)
      → filled.mem q ≡ (if leb d q && ltb q (d + len) then s'.mem (c + (q - d)) else s'.mem q)
  filled-at q = copied d c src len q s' (omega (arith, f.owned.0)) at apart

  unwritten : (q : ℕ) → (q < a) ⊎ (a + 0x1000 ≤ q) → (leb d q && ltb q (d + len)) ≡ false
  unwritten q h = ground arith

  filled-outside : (q : ℕ) → (q < a) ⊎ (a + 0x1000 ≤ q) → filled.mem q ≡ s'.mem q
  filled-outside q h = filled-at q ∙ rw (unwritten q h) refl

  filled-other : (b q : ℕ) → IsFrame b → b ≢ a → b ≤ q → q < b + 0x1000 → filled.mem q ≡ s'.mem q
  filled-other b q fb ne lo' hi' = filled-outside q (omega (arith, f.owned.0))

  filled-IsSpace : IsSpace f.new_labels filled.mem p' root × SameWalks s'.mem filled.mem root
  filled-IsSpace =
      IsSpace-stays f.new_labels f.new_labels s'.mem filled.mem p' p' root (λ b h. h)
        (λ b h. (refl, refl))
        (λ b q o low lo' hi'.
          filled-other b q o.0 (λ e. omega (arith, f.no_table, ap f.new_labels.level e)) lo' hi')
        f.space

  pub filled-Framed : Framed n root a ptr l s filled p p'
  filled-Framed = record {
    new_labels = f.new_labels;
    represents =
        copy_bytes-Represents a (linear_address_to_ptr d) src len s' p' f.owned filled-outside
          f.represents;
    gives = f.gives;
    space = filled-IsSpace.0;
    kept = record {
      shrinks = f.kept.shrinks;
      labels = f.kept.labels;
      bytes = λ b q o high lo' hi'.
          filled-other b q o.0 (f.new b o.1) lo' hi' ∙ f.kept.bytes b q o high lo' hi';
    };
    owned = f.owned;
    new = f.new;
    no_table = f.no_table;
    walks = λ q h. filled-IsSpace.1 q h ∙ f.walks q h;
  }
