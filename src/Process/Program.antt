-- ===== src/Process/Program.antt =====
-- `make_userspace_process` as a whole: a program from its image and its command line.
use metal_to_app.Base.{
  ◌^◌, ℕ, suc, ◌+◌, ◌/◌, ◌%◌, ◌≤◌, ◌<◌, ◌≡◌, ◌≢◌, refl, ◌∙◌, true, none, some, List, [], ◌∷◌, Mem,
  load, arith,
}
use metal_to_app.Memory.{linear_start, physical, kernel_base, dynamic_start}
use metal_to_app.Frame.{FrameState}
use metal_to_app.Frame.Pool.{Pool}
use metal_to_app.Frame.Invariant.{Represents}
use metal_to_app.Paging.Ensure.{Gives}
use metal_to_app.Paging.Placed.{Labels, IsLow, IsSpace}
use metal_to_app.Paging.Step.{Kept, Kept-trans}
use metal_to_app.Paging.Search.{more}
use metal_to_app.Paging.Mmu.{translate}
use metal_to_app.Paging.Space.{create_address_space}
use metal_to_app.Paging.Empty.{create_address_space-Created}
use metal_to_app.Scheduler.Task.{Task, can_execute}
use metal_to_app.Elf.{load_elf}
use metal_to_app.Elf.Data.{IsData-Kept, Reads}
use metal_to_app.Elf.Headers.{Segment, frames_for_all, OutsideAll, AllRead}
use metal_to_app.Elf.Images.{AllData-Kept, load_same, IsImage-Kept, AllRead-image}
use metal_to_app.Elf.Load.{IsElf, load_elf-SegmentsLoaded}
use metal_to_app.Process.{start_process, make_userspace_process}
use metal_to_app.Process.Stack.{stack_page}
use metal_to_app.Process.Line.{IsText, IsText-Kept, IsGiven, IsGiven-before}
use metal_to_app.Process.Launch.{start_process-IsProcess}

-- The segments of type 1 lie below the page of the stack.
abbrev pub BelowStack : List Segment → Type 0
BelowStack [] = Unit
BelowStack (g ∷ gs) = (g.type ≡ 1 → g.vaddr + g.memsz ≤ stack_page) × BelowStack gs

pub IsElf-Kept :
    (l l' : Labels) (m m' : Mem) (p p' : Pool) (fuel image entry size : ℕ) (gs : List Segment)
    → Kept l l' m m' p p'
    → IsElf fuel image entry size gs l m p
    → IsElf fuel image entry size gs l' m' p'
IsElf-Kept l l' m m' p p' fuel image entry size gs k e =
    let same : (b i : ℕ) → i + b ≤ 0x40 → load b m' (image + i) ≡ load b m (image + i) =
      λ b i le. load_same l l' m m' p p' k image 0x40 b i e.header_data le in
    record {
      headers = e.headers;
      fits = e.fits;
      entry_at = same 8 0x18 (omega arith) ∙ e.entry_at;
      headers_at = same 8 0x20 (omega arith) ∙ e.headers_at;
      size_at = same 2 0x36 (omega arith) ∙ e.size_at;
      count_at = same 2 0x38 (omega arith) ∙ e.count_at;
      short = e.short;
      near = e.near;
      header_data = AllData-Kept l l' m m' p p' k image 0x40 e.header_data;
      is_image = IsImage-Kept l l' m m' p p' k fuel image size (image + e.headers) gs e.is_image;
    }

-- The segments stay where the stack is mapped.
pub AllRead-Kept :
    (root image : ℕ) (l l' : Labels) (m m' : Mem) (p p' : Pool) (m₀ : Mem) (gs : List Segment)
    → Kept l l' m m' p p'
    → ((q : ℕ)
        → IsLow q
        → q / 0x1000 ≢ stack_page / 0x1000
        → translate m' root q ≡ translate m root q)
    → BelowStack gs
    → AllRead root image l m p m₀ gs
    → AllRead root image l' m' p' m₀ gs
AllRead-Kept root image l l' m m' p p' m₀ [] k walks below r = tt
AllRead-Kept root image l l' m m' p p' m₀ (g ∷ gs) k walks (below, belows) (r, rs) = (
  λ e i lt.
      let (q, walk, byte, there) = r e i lt in
      let end : g.vaddr + g.memsz ≤ stack_page = below e in
      let kept = IsData-Kept l l' m m' p p' q k there in
      (q, walks (g.vaddr + i) (omega arith) (λ x. omega arith) ∙ walk, kept.1 ∙ byte, kept.0),
  AllRead-Kept root image l l' m m' p p' m₀ gs k walks belows rs,
)

-- A program that can begin: its registers, and all that the CPU reads in the lower half.
pub record IsProgram (n entry image c k struct : ℕ) (gs : List Segment) (l : Labels)
    (s : FrameState) (p : Pool) (task : Task) (s' : FrameState) (p' : Pool) : Type 0 where
  pub root : ℕ
  pub new_labels : Labels
  pub represents : Represents s' p'
  pub gives : Gives n p'
  pub space : IsSpace new_labels s'.mem p' root
  pub kept : Kept l new_labels s.mem s'.mem p p'
  pub given : IsGiven struct p p'
  pub aligned : task.context.rsp % 16 ≡ 0
  pub low : task.context.rsp + k < 2 ^ 47
  pub argument : task.context.rdi ≡ task.context.rsp
  pub begins : task.context.rip ≡ entry
  pub address_space : task.address_space ≡ root
  pub executable : can_execute task ≡ true
  pub line :
      (i : ℕ) → i ≤ k → Reads new_labels s'.mem p' root (task.context.rsp + i) (s.mem (c + i))
  pub reads : AllRead root image new_labels s'.mem p' s.mem gs
  pub others :
      (q : ℕ)
      → IsLow q
      → OutsideAll gs q
      → q / 0x1000 ≢ stack_page / 0x1000
      → translate s'.mem root q ≡ none

make_userspace_process-found :
    (fuel kernel_linear kernel_pagedirtable space start line root entry struct : ℕ) (task : Task)
    (s s₁ s₂ s₃ : FrameState)
    → create_address_space kernel_linear kernel_pagedirtable s ≡ some (root, s₁)
    → load_elf fuel start root s₁ ≡ some (entry, s₂)
    → start_process fuel space root entry line s₂ ≡ some (struct, task, s₃)
    → make_userspace_process fuel kernel_linear kernel_pagedirtable space start line s
      ≡ some (struct, task, s₃)
unfolding make_userspace_process
make_userspace_process-found fuel kernel_linear kernel_pagedirtable space start line root entry
      struct task s s₁ s₂ s₃ e₁ e₂ e₃ =
    rw (e₁, e₂, e₃, make_userspace_process) refl

-- With static tables in the kernel window, an image as load_elf takes it whose segments lie
-- below the page of the stack, a command line of k < 4096 bytes in frames that the allocator
-- does not have and that are no tables, fuel above k and above the pages of each segment, and
-- frames for the root, four for each page of a segment and five more in the pool,
-- make_userspace_process returns a task that begins at the entry point in a new address space,
-- is executable, and has a stack pointer that is a multiple of 16 and is also its argument;
-- there the CPU reads the segments of type 1 at their addresses and the command line with its
-- zero byte from the stack pointer on, and translates no address of the lower half outside of
-- the pages of the segments and of the stack.
pub make_userspace_process-IsProgram :
    (fuel kernel_linear kernel_pagedirtable n space image entry size line c k : ℕ)
    (gs : List Segment) (l : Labels) (s : FrameState) (p : Pool)
    → kernel_base < kernel_linear
    → kernel_linear < dynamic_start
    → kernel_base < kernel_pagedirtable
    → kernel_pagedirtable < dynamic_start
    → k < fuel
    → k < 0x1000
    → physical line ≡ c
    → Represents s p
    → Gives (suc (frames_for_all gs (more 5 n))) p
    → IsElf fuel image entry size gs l s.mem p
    → BelowStack gs
    → IsText l s.mem p c k
    → (struct : ℕ) × (task : Task) × (s' : FrameState) × (p' : Pool) × (make_userspace_process fuel
          kernel_linear kernel_pagedirtable space
          (linear_start + image)
          line
          s
        ≡ some (linear_start + struct, task, s'))
      × IsProgram n entry image c k struct gs l s p task s' p'
make_userspace_process-IsProgram fuel kernel_linear kernel_pagedirtable n space image entry size
      line c k gs l s p l₁ l₂ d₁ d₂ enough small at r gives elf below text =
    let (root, s₁, p₁, created, x) =
      create_address_space-Created kernel_linear kernel_pagedirtable (frames_for_all gs (more 5 n))
        l s p l₁ l₂ d₁ d₂ r gives in
    let (s₂, p₂, loaded, y) =
      load_elf-SegmentsLoaded fuel (more 5 n) root image entry size gs x.new_labels s₁ p₁
        x.represents x.space x.gives
        (IsElf-Kept l x.new_labels s.mem s₁.mem p p₁ fuel image entry size gs x.kept elf) in
    let kept₂ = Kept-trans l x.new_labels y.new_labels s.mem s₁.mem s₂.mem p p₁ p₂ x.kept y.kept in
    let (struct, task, s₃, p₃, started, z) =
      start_process-IsProcess fuel n root space entry line c k y.new_labels s₂ p₂ enough small at
        y.represents y.space y.gives
        (IsText-Kept l y.new_labels s.mem s₂.mem p p₂ c k kept₂ text) in
    (
      struct,
      task,
      s₃,
      p₃,
      make_userspace_process-found fuel kernel_linear kernel_pagedirtable space
          (linear_start + image) line (linear_start + root) entry (linear_start + struct) task s s₁
          s₂ s₃ created loaded started,
      record {
        root = root;
        new_labels = z.new_labels;
        represents = z.represents;
        gives = z.gives;
        space = z.space;
        kept = Kept-trans l y.new_labels z.new_labels s.mem s₂.mem s₃.mem p p₂ p₃ kept₂ z.kept;
        given = IsGiven-before struct p p₂ p₃ kept₂.shrinks z.given;
        aligned = z.aligned;
        low = z.low;
        argument = z.argument;
        begins = z.begins;
        address_space = z.address_space;
        executable = z.executable;
        line = λ i le.
            let (q, walk, byte, there) = z.line i le in
            (
              q,
              walk,
              byte
                  ∙ (IsData-Kept l y.new_labels s.mem s₂.mem p p₂ (c + i) kept₂
                      (text.in_place i (omega arith))).1,
              there,
            );
        reads =
            AllRead-Kept root image y.new_labels z.new_labels s₂.mem s₃.mem p₂ p₃ s.mem gs z.kept
              z.others below
              (AllRead-image l x.new_labels s.mem s₁.mem p p₁ x.kept fuel image size
                (image + elf.headers) root y.new_labels s₂.mem p₂ gs elf.is_image y.reads);
        others = λ q low out ne. z.others q low ne ∙ y.others q low out ∙ x.empty q low;
      },
    )
