-- ===== src/Elf/Segments.antt =====
-- The loop of `load_elf`.
use metal_to_app.Base.{
  ℕ, ◌+◌, ◌%◌, ◌^◌, ◌<◌, ◌≡◌, refl, ap, ◌∙◌, inl, inr, if◌then◌else◌, some, List, [], ◌∷◌, eq-cases,
  ne→==, eq→==, arith,
}
use mathlib.Core.Path.{subst}
use metal_to_app.Memory.{linear_start}
use metal_to_app.Frame.{FrameState}
use metal_to_app.Frame.Pool.{Pool}
use metal_to_app.Frame.Invariant.{Represents}
use metal_to_app.Paging.Ensure.{Gives}
use metal_to_app.Paging.Placed.{Labels, IsSpace}
use metal_to_app.Paging.Step.{Kept-refl}
use metal_to_app.Elf.{copy_section, load_segments}
use metal_to_app.Elf.Copy.{frames_for, copy_section-Loaded}
use metal_to_app.Elf.Images.{IsImage-Kept, SegmentsLoaded, Loaded-both, Loaded-skip}
use metal_to_app.Elf.Headers.{
  Segment, pages, count, frames_for_all, IsImage, segments-skip, segments-load,
}

pub pointer_args :
    (fuel n size start space h h' : ℕ) (s : FrameState)
    → h ≡ h'
    → load_segments fuel n size h start space s ≡ load_segments fuel n size h' start space s
pointer_args fuel n size start space h h' s e =
    ap (λ x. load_segments fuel n size x start space s) e

load_segments-end :
    (fuel size h start space : ℕ) (s : FrameState)
    → load_segments fuel 0 size h start space s ≡ some s
unfolding load_segments
load_segments-end fuel size h start space s = refl

copy_at :
    (fuel space v image off z f : ℕ) (s : FrameState)
    → image + off + f < 2 ^ 39
    → copy_section fuel space v ((linear_start + image + off) % 2 ^ 64) z f s
      ≡ copy_section fuel space v (linear_start + (image + off)) z f s
copy_at fuel space v image off z f s lt =
    let at : (linear_start + image + off) % 2 ^ 64 ≡ linear_start + (image + off) = omega arith in
    ap (λ x. copy_section fuel space v x z f s) at

pub load_segments-SegmentsLoaded :
    (fuel n root image size h : ℕ) (gs : List Segment) (l : Labels) (s : FrameState) (p : Pool)
    → size < 2 ^ 16
    → Represents s p
    → IsSpace l s.mem p root
    → Gives (frames_for_all gs n) p
    → IsImage fuel image size l s.mem p h gs
    → (s' : FrameState) × (p' : Pool) × (load_segments fuel
          (count gs)
          size
          (linear_start + h)
          (linear_start + image)
          (linear_start + root)
          s
        ≡ some s')
      × SegmentsLoaded n root image gs l s s' p p'
load_segments-SegmentsLoaded fuel n root image size h [] l s p short r space g im = (
  s,
  p,
  load_segments-end fuel size (linear_start + h) (linear_start + image) (linear_start + root) s,
  record {
    new_labels = l;
    represents = r;
    gives = g;
    space = space;
    kept = Kept-refl l s.mem p;
    others = λ q low out. refl;
    reads = tt;
  },
)
load_segments-SegmentsLoaded fuel n root image size h (g ∷ gs) l s p short r space gives
      (here, d, fits, loadable, rest) =
    let next : (linear_start + h + size) % 2 ^ 64 ≡ linear_start + (h + size) = omega arith in
    elim (eq-cases g.type 1) [
      | inl one ↦
          let (ok, apart) = loadable one in
          let enough : Gives (frames_for (pages g) (frames_for_all gs n)) p =
            subst
              (λ b.
                Gives
                  (if b then frames_for (pages g) (frames_for_all gs n) else frames_for_all gs n) p)
              (eq→== g.type 1 one) gives in
          let (s₁, p₁, copy, x) =
            copy_section-Loaded (pages g) fuel (frames_for_all gs n) root g.vaddr (image + g.off)
              g.memsz g.filesz l s p ok.enough (omega arith) ok.low ok.short ok.within r space
              enough ok.in_place in
          let (s', p', run, y) =
            load_segments-SegmentsLoaded fuel n root image size (h + size) gs x.new_labels s₁ p₁
              short x.represents x.space x.gives
              (IsImage-Kept l x.new_labels s.mem s₁.mem p p₁ x.kept fuel image size (h + size) gs
                rest) in
          (
            s',
            p',
            segments-load fuel (count gs) size (linear_start + image) (linear_start + root) h g s
                  fits here s₁ one
                  (copy_at fuel (linear_start + root) g.vaddr image g.off g.memsz g.filesz s
                      ok.within
                    ∙ copy)
                ∙ pointer_args fuel (count gs) size (linear_start + image) (linear_start + root)
                    ((linear_start + h + size) % 2 ^ 64) (linear_start + (h + size)) s₁ next
                ∙ run,
            Loaded-both fuel n (frames_for_all gs n) root image size (h + size) g gs l s s₁ s' p p₁
                p' ok.low apart rest x y one,
          )
      | inr ne ↦
          let others : Gives (frames_for_all gs n) p =
            subst
              (λ b.
                Gives
                  (if b then frames_for (pages g) (frames_for_all gs n) else frames_for_all gs n) p)
              (ne→== g.type 1 ne) gives in
          let (s', p', run, y) =
            load_segments-SegmentsLoaded fuel n root image size (h + size) gs l s p short r space
              others rest in
          (
            s',
            p',
            segments-skip fuel (count gs) size (linear_start + image) (linear_start + root) h g s
                  fits here ne
                ∙ pointer_args fuel (count gs) size (linear_start + image) (linear_start + root)
                    ((linear_start + h + size) % 2 ^ 64) (linear_start + (h + size)) s next
                ∙ run,
            Loaded-skip n root image g gs l s s' p p' ne y,
          )
    ]
