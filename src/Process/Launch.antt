-- ===== src/Process/Launch.antt =====
-- `make_userspace_process` behind the call of `load_elf`: the command line on the stack.
use metal_to_app.Base.{
  ℕ, ◌+◌, ◌-◌, ◌*◌, ◌/◌, ◌%◌, ◌^◌, ◌≤◌, ◌<◌, ◌≡◌, ◌≢◌, refl, sym, ap, ◌∙◌, ◌⊎◌, true, false, some,
  ne→==, eq→==, arith,
}
use mathlib.Core.Path.{subst}
use metal_to_app.Klib.{strlen}
use metal_to_app.Klib.Laws.{strlen_lem}
use metal_to_app.Memory.{linear_start, physical, pointer_to_linear_address}
use metal_to_app.Memory.Linear.{linear_address_to_ptr-eq, linear_round_trip}
use metal_to_app.Frame.{FrameState}
use metal_to_app.Frame.Pool.{Pool, IsFrame, available}
use metal_to_app.Frame.Invariant.{Represents}
use metal_to_app.Paging.Ensure.{Gives}
use metal_to_app.Paging.Placed.{Labels, IsLow, IsSpace}
use metal_to_app.Paging.Step.{Kept}
use metal_to_app.Paging.Search.{more}
use metal_to_app.Paging.Mmu.{translate}
use metal_to_app.Scheduler.Task.{Task, make_task, can_execute}
use metal_to_app.Elf.NewFrame.{Framed}
use metal_to_app.Elf.Write.{filled, filled-at, filled-Framed}
use metal_to_app.Elf.Data.{IsData, IsData-Kept, AllData, Reads, image_apart}
use metal_to_app.Process.{initrd_stack_addr, zero_task, padded_arg_size, start_process}
use metal_to_app.Process.Stack.{stack_page}
use metal_to_app.Process.Start.{
  fill_task-found, start_process-found, line_start, within, stack_address,
}
use metal_to_app.Process.Line.{IsText, IsGiven, Stacked, stacked}

-- A process that can begin: its registers, and the command line on its stack.
pub record IsProcess (n root entry c k struct : ℕ) (l : Labels) (s : FrameState) (p : Pool)
    (task : Task) (s' : FrameState) (p' : Pool) : Type 0 where
  pub new_labels : Labels
  pub represents : Represents s' p'
  pub gives : Gives n p'
  pub space : IsSpace new_labels s'.mem p' root
  pub kept : Kept l new_labels s.mem s'.mem p p'
  pub given : IsGiven struct p p'
  pub aligned : task.context.rsp % 16 ≡ 0
  pub low : task.context.rsp + k < 2 ^ 47
  pub argument : task.context.rdi ≡ task.context.rsp
  pub begins : task.context.rip ≡ entry
  pub address_space : task.address_space ≡ root
  pub executable : can_execute task ≡ true
  pub line :
      (i : ℕ) → i ≤ k → Reads new_labels s'.mem p' root (task.context.rsp + i) (s.mem (c + i))
  pub others :
      (q : ℕ)
      → IsLow q
      → q / 0x1000 ≢ stack_page / 0x1000
      → translate s'.mem root q ≡ translate s.mem root q

-- Where the line begins in the frame of the stack.
place_bounds :
    (a k : ℕ)
    → IsFrame a
    → k < 0x1000
    → (a ≤ line_start a k)
      × (line_start a k + (k + 1) ≤ a + 0x1000)
      × (line_start a k < a + 0x1000)
      × (line_start a k ≡ a + (0x1000 - padded_arg_size k))
      × (0x1000 - padded_arg_size k + (k + 1) ≤ 0x1000)
place_bounds a k fa small = (omega arith, omega arith, omega arith, omega arith, omega arith)

line_apart :
    (l : Labels) (p : Pool) (a c k : ℕ)
    → IsFrame a
    → k < 0x1000
    → ((b : ℕ) → available b p ≡ false → b ≢ a)
    → AllData l p c (k + 1)
    → (line_start a k ≤ c) ⊎ (c + (k + 1) ≤ line_start a k)
line_apart l p a c k fa small new text =
    let (lo, hi, inside, at, fits) = place_bounds a k fa small in
    subst (λ d. (d ≤ c) ⊎ (c + (k + 1) ≤ d)) (sym at)
      (image_apart l p a c (k + 1) (0x1000 - padded_arg_size k) fa new text fits)

module _ (n root space entry line c k : ℕ) (l : Labels) (s : FrameState) (p : Pool)
    (h : Stacked n root l s p) (small : k < 0x1000) (pos : 0 < root) (at : physical line ≡ c)
    (text : IsText l s.mem p c k) where
  abbrev fr : Framed n root h.stack stack_page l s h.s₃ p h.pool
  fr = h.framed

  bounds :
      (h.stack ≤ line_start h.stack k)
      × (line_start h.stack k + (k + 1) ≤ h.stack + 0x1000)
      × (line_start h.stack k < h.stack + 0x1000)
      × (line_start h.stack k ≡ h.stack + (0x1000 - padded_arg_size k))
      × (0x1000 - padded_arg_size k + (k + 1) ≤ 0x1000)
  bounds = place_bounds h.stack k fr.owned.0 small

  apart : (line_start h.stack k ≤ c) ⊎ (c + (k + 1) ≤ line_start h.stack k)
  apart = line_apart l p h.stack c k fr.owned.0 small fr.new text.in_place

  abbrev s₄ : FrameState
  s₄ =
      filled n root h.stack stack_page (line_start h.stack k) c line (k + 1) l s h.s₃ p h.pool fr
        bounds.0 bounds.1 at apart bounds.2

  final : Framed n root h.stack stack_page l s s₄ p h.pool
  final =
      filled-Framed n root h.stack stack_page (line_start h.stack k) c line (k + 1) l s h.s₃ p
        h.pool fr bounds.0 bounds.1 at apart bounds.2

  abbrev bottom : ℕ
  bottom = initrd_stack_addr - padded_arg_size k

  abbrev task : Task
  task = make_task space zero_task bottom entry bottom root true

  kept_byte : (i : ℕ) → i ≤ k → h.s₃.mem (c + i) ≡ s.mem (c + i)
  kept_byte i le =
      (IsData-Kept l fr.new_labels s.mem h.s₃.mem p h.pool (c + i) fr.kept
        (text.in_place i (omega arith))).1

  line_byte : (i : ℕ) → i ≤ k → s₄.mem (line_start h.stack k + i) ≡ s.mem (c + i)
  line_byte i le =
      filled-at n root h.stack stack_page (line_start h.stack k) c line (k + 1) l s h.s₃ p h.pool fr
        bounds.0 bounds.1 at apart bounds.2 (line_start h.stack k + i)
      ∙ rw (within (line_start h.stack k) i k le)
          (ap (λ x. h.s₃.mem (c + x)) (omega arith) ∙ kept_byte i le)

  line-IsData : (i : ℕ) → i ≤ k → IsData final.new_labels h.pool (line_start h.stack k + i)
  line-IsData i le =
      let same : (line_start h.stack k + i) / 0x1000 * 0x1000 ≡ h.stack =
        omega (arith, bounds, final.owned.0) in
      record { owned = rw same final.owned; no_table = rw same (omega (arith, final.no_table)) }

  line_walk : (i : ℕ) → i ≤ k → translate s₄.mem root (bottom + i) ≡ some (line_start h.stack k + i)
  line_walk i le =
      let (page, back) = stack_address h.stack k i small le in
      final.walks (bottom + i) (omega arith)
      ∙ rw (eq→== ((bottom + i) / 0x1000) (stack_page / 0x1000) page) (ap some back)

  runs :
      (fuel : ℕ)
      → k < fuel
      → root < 2 ^ 39
      → IsFrame root
      → start_process fuel space (linear_start + root) entry line s
        ≡ some (linear_start + h.struct, task, s₄)
  runs fuel enough low frame =
      let len : strlen fuel h.s₃.mem (physical line) ≡ some k = rw at (
        strlen_lem k fuel h.s₃.mem c enough
          (λ i lt e. text.full i lt (sym (kept_byte i (omega arith)) ∙ e))
          (kept_byte k (omega arith) ∙ text.last)) in
      let back : pointer_to_linear_address (linear_start + root) ≡ some root =
        subst (λ x. pointer_to_linear_address x ≡ some root) (linear_address_to_ptr-eq root low)
          (linear_round_trip root frame.0 low).0 in
      start_process-found fuel space (linear_start + root) entry line h.stack h.struct task s h.s₁
        h.s₂ h.s₃ s₄ h.stack_given h.struct_given h.mapped
        (fill_task-found fuel space root entry h.stack line k h.s₃ len back (omega arith)
          (omega (arith, fr.owned.0)))
      ∙ ap (λ x. some (x, task, s₄))
          (linear_address_to_ptr-eq h.struct (omega (arith, h.given.frame)))

  is_process : IsProcess n root entry c k h.struct l s p task s₄ h.pool
  unfolding make_task
  is_process = record {
    new_labels = final.new_labels;
    represents = final.represents;
    gives = final.gives;
    space = final.space;
    kept = final.kept;
    given = h.given;
    aligned = omega arith;
    low = omega arith;
    argument = refl;
    begins = refl;
    address_space = rw (ne→== root 0 (omega arith)) refl;
    executable = refl;
    line = λ i le. (line_start h.stack k + i, line_walk i le, line_byte i le, line-IsData i le);
    others = λ q low ne. final.walks q low ∙ rw (ne→== (q / 0x1000) (stack_page / 0x1000) ne) refl;
  }

pub start_process-IsProcess :
    (fuel n root space entry line c k : ℕ) (l : Labels) (s : FrameState) (p : Pool)
    → k < fuel
    → k < 0x1000
    → physical line ≡ c
    → Represents s p
    → IsSpace l s.mem p root
    → Gives (more 5 n) p
    → IsText l s.mem p c k
    → (struct : ℕ) × (task : Task) × (s' : FrameState) × (p' : Pool) × (start_process fuel space
          (linear_start + root)
          entry
          line
          s
        ≡ some (linear_start + struct, task, s'))
      × IsProcess n root entry c k struct l s p task s' p'
start_process-IsProcess fuel n root space entry line c k l s p enough small at r tree g text =
    let h = stacked n root l s p r tree g in
    let o = (tree 0 (omega arith)).0.owned in
    let pos : 0 < root = o.0.0 in
    (
      h.struct,
      task n root space entry line c k l s p h small pos at text,
      s₄ n root space entry line c k l s p h small pos at text,
      h.pool,
      runs n root space entry line c k l s p h small pos at text fuel enough (omega (arith, o.0))
          o.0,
      is_process n root space entry line c k l s p h small pos at text,
    )
