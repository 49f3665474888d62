-- ===== src/Process/Running.antt =====
-- A program that was started stays ready while others are.
use metal_to_app.Base.{
  ℕ, List, ◌+◌, ◌/◌, ◌^◌, ◌≤◌, ◌<◌, ◌≡◌, ◌≢◌, refl, sym, ap, ◌∙◌, ◌==◌, if◌then◌else◌, true, false,
  none, Mem, ne→==, eq→==, arith,
}
use metal_to_app.Memory.{linear_start, physical}
use metal_to_app.Frame.{FrameState}
use metal_to_app.Frame.Pool.{Pool, available}
use metal_to_app.Paging.Slots.{Owned}
use metal_to_app.Paging.Placed.{Labels, IsLow, IsSpace}
use metal_to_app.Paging.Step.{Kept}
use metal_to_app.Paging.Mmu.{translate}
use metal_to_app.Scheduler.Task.{Task, can_execute}
use metal_to_app.Scheduler.Select.{Kernel, set_task, schedule_at}
use metal_to_app.Elf.NewFrame.{IsSpace-stays}
use metal_to_app.Elf.Data.{IsData-Kept, Reads}
use metal_to_app.Elf.Headers.{Segment, OutsideAll, AllRead}
use metal_to_app.Elf.Images.{AllRead-image}
use metal_to_app.Elf.Load.{IsElf}
use metal_to_app.Multiboot.{InitrdInfo}
use metal_to_app.Process.Stack.{stack_page}
use metal_to_app.Process.Line.{IsText, IsText-Kept}
use metal_to_app.Process.Program.{BelowStack, IsProgram, IsElf-Kept, AllRead-Kept}

-- A program: its image and its command line of `length` bytes in memory.
pub record Program : Type 0 where
  pub image : ℕ
  pub entry : ℕ
  pub size : ℕ
  pub segments : List Segment
  pub line : ℕ
  pub length : ℕ

-- No frame is marked as a table.
abbrev pub unmarked : Labels
unmarked = record { level = λ b. 4; place = λ b. 0 }

-- The frames that the allocator does not have keep their bytes.
abbrev pub AllKept : Mem → Mem → Pool → Pool → Type 0
AllKept m m' p p' = Kept unmarked unmarked m m' p p'

pub forget : (l : Labels) (m m' : Mem) (p p' : Pool) → Kept unmarked l m m' p p' → AllKept m m' p p'
forget l m m' p p' k = record { shrinks = k.shrinks; labels = λ b h. (refl, refl); bytes = k.bytes }

relabel : (l : Labels) (m m' : Mem) (p p' : Pool) → AllKept m m' p p' → Kept l l m m' p p'
relabel l m m' p p' k = record {
  shrinks = k.shrinks;
  labels = λ b h. (refl, refl);
  bytes = λ b q o high lo hi. k.bytes b q o (omega arith) lo hi;
}

-- A program that can be started from a boot module.
pub record IsStartable (fuel : ℕ) (info : InitrdInfo) (m : Mem) (p : Pool) (g : Program)
    : Type 0 where
  pub starts : info.start ≡ linear_start + g.image
  pub at : physical info.command_line ≡ g.line
  pub enough : g.length < fuel
  pub small : g.length < 0x1000
  pub below : BelowStack g.segments
  pub elf : IsElf fuel g.image g.entry g.size g.segments unmarked m p
  pub text : IsText unmarked m p g.line g.length

pub IsStartable-Kept :
    (fuel : ℕ) (info : InitrdInfo) (m m' : Mem) (p p' : Pool) (g : Program)
    → AllKept m m' p p'
    → IsStartable fuel info m p g
    → IsStartable fuel info m' p' g
IsStartable-Kept fuel info m m' p p' g k h = record {
  starts = h.starts;
  at = h.at;
  enough = h.enough;
  small = h.small;
  below = h.below;
  elf = IsElf-Kept unmarked unmarked m m' p p' fuel g.image g.entry g.size g.segments k h.elf;
  text = IsText-Kept unmarked unmarked m m' p p' g.line g.length k h.text;
}

-- A program that the scheduler can choose, as long as its parts are in memory: `m₀` is memory before it was
-- started.
pub record IsRunning (slot : ℕ) (g : Program) (m₀ : Mem) (k : Kernel) (m : Mem) (p : Pool)
    : Type 0 where
  pub struct : ℕ
  pub root : ℕ
  pub labels : Labels
  pub owned : Owned p struct
  pub low : (k.tasks (linear_start + struct)).context.rsp + g.length < 2 ^ 47
  pub scheduled : (k.scheduling_vector 0 slot).task ≡ linear_start + struct
  pub executable : can_execute (k.tasks (linear_start + struct)) ≡ true
  pub begins : (k.tasks (linear_start + struct)).context.rip ≡ g.entry
  pub argument :
      (k.tasks (linear_start + struct)).context.rdi ≡ (k.tasks (linear_start + struct)).context.rsp
  pub address_space : (k.tasks (linear_start + struct)).address_space ≡ root
  pub space : IsSpace labels m p root
  pub line :
      (i : ℕ)
      → i ≤ g.length
      → Reads labels m p root ((k.tasks (linear_start + struct)).context.rsp + i) (m₀ (g.line + i))
  pub reads : AllRead root g.image labels m p m₀ g.segments
  pub others :
      (q : ℕ)
      → IsLow q
      → OutsideAll g.segments q
      → q / 0x1000 ≢ stack_page / 0x1000
      → translate m root q ≡ none

-- The kernel when another task is made and scheduled.
abbrev pub with_task : ℕ → ℕ → Task → Kernel → Kernel
with_task slot struct task k =
    (schedule_at (set_task k (linear_start + struct) task) slot (linear_start + struct) 0).1

pub IsRunning-stays :
    (slot slot' struct' : ℕ) (task : Task) (g : Program) (m₀ : Mem) (k : Kernel) (m m' : Mem)
    (p p' : Pool)
    → slot ≢ slot'
    → BelowStack g.segments
    → AllKept m m' p p'
    → available struct' p ≡ true
    → IsRunning slot g m₀ k m p
    → IsRunning slot g m₀ (with_task slot' struct' task k) m' p'
unfolding schedule_at set_task
IsRunning-stays slot slot' struct' task g m₀ k m m' p p' ne below kept was h =
    let kept' = relabel h.labels m m' p p' kept in
    let (space, walks) =
      IsSpace-stays h.labels h.labels m m' p p' h.root kept.shrinks (λ b o. (refl, refl))
        (λ b q o low lo hi. kept.bytes b q o (omega arith) lo hi) h.space in
    let apart : h.struct ≢ struct' = λ e. cc (sym h.owned.1 ∙ ap (λ x. available x p) e ∙ was) in
    let other : (linear_start + h.struct == linear_start + struct') ≡ false =
      ne→== (linear_start + h.struct) (linear_start + struct') (λ e. apart (omega (arith, e))) in
    let same : (if linear_start + h.struct == linear_start + struct'
          then task
          else k.tasks (linear_start + h.struct))
        ≡ k.tasks (linear_start + h.struct) =
      rw other refl in
    record {
      struct = h.struct;
      root = h.root;
      labels = h.labels;
      owned = (h.owned.0, kept.shrinks h.struct h.owned.1);
      low = rw same h.low;
      scheduled = rw (ne→== slot slot' ne) h.scheduled;
      executable = rw same h.executable;
      begins = rw same h.begins;
      argument = rw same h.argument;
      address_space = rw same h.address_space;
      space = space;
      line = λ i le.
          let (q, walk, byte, there) = h.line i le in
          let (there', byte') = IsData-Kept h.labels h.labels m m' p p' q kept' there in
          rw same (q, walks _ (omega (arith, h.low)) ∙ walk, byte' ∙ byte, there');
      reads =
          AllRead-Kept h.root g.image h.labels h.labels m m' p p' m₀ g.segments kept'
            (λ q low x. walks q low) below h.reads;
      others = λ q low out x. walks q low ∙ h.others q low out x;
    }

-- What is the program that was started.
pub started-IsRunning :
    (slot n struct : ℕ) (task : Task) (g : Program) (k : Kernel) (s s' : FrameState) (p p' : Pool)
    → IsProgram n g.entry g.image g.line g.length struct g.segments unmarked s p task s' p'
    → IsRunning slot g s.mem (with_task slot struct task k) s'.mem p'
unfolding schedule_at set_task
started-IsRunning slot n struct task g k s s' p p' h =
    let self : (if linear_start + struct == linear_start + struct
          then task
          else k.tasks (linear_start + struct))
        ≡ task =
      rw (eq→== (linear_start + struct) (linear_start + struct) refl) refl in
    record {
      struct = struct;
      root = h.root;
      labels = h.new_labels;
      owned = (h.given.frame, h.given.gone);
      low = rw self h.low;
      scheduled = rw (eq→== slot slot refl) refl;
      executable = rw self h.executable;
      begins = rw self h.begins;
      argument = rw self h.argument;
      address_space = rw self h.address_space;
      space = h.space;
      line = λ i le. rw self (h.line i le);
      reads = h.reads;
      others = h.others;
    }

-- The image of a program that is started later is the one of before.
pub IsRunning-image :
    (fuel slot : ℕ) (info : InitrdInfo) (g : Program) (k : Kernel) (m₀ m₁ m : Mem) (p₀ p₁ p : Pool)
    → AllKept m₀ m₁ p₀ p₁
    → IsStartable fuel info m₀ p₀ g
    → IsRunning slot g m₁ k m p
    → IsRunning slot g m₀ k m p
IsRunning-image fuel slot info g k m₀ m₁ m p₀ p₁ p kept ok h = record {
  struct = h.struct;
  root = h.root;
  labels = h.labels;
  owned = h.owned;
  low = h.low;
  scheduled = h.scheduled;
  executable = h.executable;
  begins = h.begins;
  argument = h.argument;
  address_space = h.address_space;
  space = h.space;
  line = λ i le.
      let (q, walk, byte, there) = h.line i le in
      (
        q,
        walk,
        byte
            ∙ (IsData-Kept unmarked unmarked m₀ m₁ p₀ p₁ (g.line + i) kept
                (ok.text.in_place i (omega arith))).1,
        there,
      );
  reads =
      AllRead-image unmarked unmarked m₀ m₁ p₀ p₁ kept fuel g.image g.size
        (g.image + ok.elf.headers) h.root h.labels m p g.segments ok.elf.is_image h.reads;
  others = h.others;
}
