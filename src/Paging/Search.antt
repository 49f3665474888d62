-- ===== src/Paging/Search.antt =====
-- The whole search of `resolve_pageentry` in an address space whose lower half is a tree.
use metal_to_app.Base.{ℕ, zero, suc, ◌+◌, ◌≡◌, refl, ◌∙◌, some}
use metal_to_app.Memory.{linear_start}
use metal_to_app.Frame.{FrameState}
use metal_to_app.Frame.Pool.{Pool}
use metal_to_app.Frame.Invariant.{Represents}
use metal_to_app.Paging.{entry_idx, entry_ptr, entry_address, resolve_from}
use metal_to_app.Paging.Tables.{word_at}
use metal_to_app.Paging.Ensure.{Gives, resolve_step}
use metal_to_app.Paging.Way.{resolve_last}
use metal_to_app.Paging.Levels.{shift_of, levels}
use metal_to_app.Paging.Placed.{Labels, IsLow, IsSpace, placed-Here, placed-Reaches, Reaches}
use metal_to_app.Paging.Step.{Kept, Kept-refl, Kept-trans, SameWalks, Stepped, ensure-Stepped}

-- `c` frames and `n` more.
abbrev pub more : ℕ → ℕ → ℕ
more zero n = n
more (suc c) n = suc (more c n)

-- What the search leaves when it ends at the table `u`.
pub record Searched (n u root ptr : ℕ) (l : Labels) (s s' : FrameState) (p p' : Pool) : Type 0 where
  pub new_labels : Labels
  pub represents : Represents s' p'
  pub gives : Gives n p'
  pub space : IsSpace new_labels s'.mem p' root
  pub walks : SameWalks s.mem s'.mem root
  pub kept : Kept l new_labels s.mem s'.mem p p'
  pub reaches : Reaches 3 s'.mem root ptr 0 u

module _ (n root ptr : ℕ) (low : IsLow ptr) where
  Searched-after :
      (d t u : ℕ) (l : Labels) (s s₁ s' : FrameState) (p p₁ p' : Pool)
      → (h : Stepped (more d n) d t root ptr l s s₁ p p₁)
      → Searched n u root ptr h.new_labels s₁ s' p₁ p'
      → Searched n u root ptr l s s' p p'
  Searched-after d t u l s s₁ s' p p₁ p' h k = record {
    new_labels = k.new_labels;
    represents = k.represents;
    gives = k.gives;
    space = k.space;
    walks = λ q e. k.walks q e ∙ h.walks q e;
    kept = Kept-trans l h.new_labels k.new_labels s.mem s₁.mem s'.mem p p₁ p' h.kept k.kept;
    reaches = k.reaches;
  }

  pub resolve-Searched :
      (c t : ℕ) (l : Labels) (s : FrameState) (p : Pool)
      → Represents s p
      → IsSpace l s.mem p root
      → Reaches 3 s.mem root ptr c t
      → Gives (more c n) p
      → (s' : FrameState) × (p' : Pool) × (u : ℕ) × (resolve_from
            (levels c)
            (linear_start + t)
            ptr
            s
          ≡ some (entry_ptr (linear_start + u) (entry_idx ptr 12), s'))
        × Searched n u root ptr l s s' p p'
  resolve-Searched zero t l s p r space reach g = (
    s,
    p,
    t,
    resolve_last t ptr s,
    record {
      new_labels = l;
      represents = r;
      gives = g;
      space = space;
      walks = λ q h. refl;
      kept = Kept-refl l s.mem p;
      reaches = reach;
    },
  )
  resolve-Searched (suc d) t l s p r space reach g =
      let (s₁, p₁, found, h) = ensure-Stepped (more d n) d t root ptr l s p r space low reach g in
      let at = placed-Reaches 3 l s.mem p root ptr (suc d) t (space ptr low) reach in
      let next : ℕ = entry_address (word_at s₁.mem t ptr (shift_of (suc d))) in
      let placed =
        placed-Reaches 3 h.new_labels s₁.mem p₁ root ptr d next (h.space ptr low) h.reaches in
      let frame = (placed-Here d h.new_labels s₁.mem p₁ next ptr placed).owned.0 in
      let (s', p', u, rest, k) =
        resolve-Searched d next h.new_labels s₁ p₁ h.represents h.space h.reaches h.gives in
      (
        s',
        p',
        u,
        resolve_step (shift_of (suc d)) (levels d) t ptr s s₁ at.0.owned.0 at.1 found frame ∙ rest,
        Searched-after d t u l s s₁ s' p p₁ p' h k,
      )
