-- ===== src/Process/Tests.antt =====
-- A program from the image in the frame 0x100000, with a command line of two characters in the frame 0x200000.
use metal_to_app.Base.{eq-cases, inr, ℕ, ◌+◌, ◌≡◌, refl, inl, some, [], ◌∷◌, arith}
use metal_to_app.Memory.{linear_start, kernel_base, physical}
use metal_to_app.Frame.{FrameState, init_frame_allocator}
use metal_to_app.Frame.Pool.{Pool}
use metal_to_app.Scheduler.Task.{Task}
use metal_to_app.Paging.Ensure.{Gives-range}
use metal_to_app.Elf.Tests.{
  code, note, with_image, frames, with_image-Represents, one_table, one_table-IsHigh, IsHigh,
  all_data, image-IsElf, elf_memory,
}
use metal_to_app.Base.{store}
use metal_to_app.Paging.Placed.{Labels}
use metal_to_app.Multiboot.{InitrdInfo}
use metal_to_app.Scheduler.Select.{Kernel}
use metal_to_app.Scheduler.Tests.{sole}
use metal_to_app.Process.Boot.{start_processes}
use metal_to_app.Process.Running.{Program, unmarked, IsStartable}
use metal_to_app.Process.Started.{AllStarted, start_processes-AllStarted}
use metal_to_app.Process.{make_userspace_process}
use metal_to_app.Process.Line.{IsText}
use metal_to_app.Process.Program.{IsProgram, make_userspace_process-IsProgram}

line_at : physical (kernel_base + 0x200000) ≡ 0x200000
unfolding physical
line_at = refl

command_line-IsText : (l : Labels) → IsHigh l → IsText l with_image.mem frames 0x200000 2
unfolding with_image init_frame_allocator elf_memory store
command_line-IsText l high = record {
  full = λ i lt. elim (eq-cases i 0) [
    | inl e ↦ rw e (omega arith)
    | inr ne ↦ let one : i ≡ 1 = omega arith in rw one (omega arith)
  ];
  last = refl;
  in_place = all_data l 0x200000 3 high (omega arith) (omega arith);
}

make_userspace_process-IsProgram_example :
    (struct : ℕ) × (task : Task) × (s' : FrameState) × (p' : Pool) × (make_userspace_process 3
        (kernel_base + 0x100000)
        (kernel_base + 0x101000)
        0x7000
        (linear_start + 0x100000)
        (kernel_base + 0x200000)
        with_image
      ≡ some (linear_start + struct, task, s'))
    × IsProgram 1 0x400ff8 0x100000 0x200000 2 struct
        (code ∷ note ∷ [])
        one_table
        with_image
        frames
        task
        s'
        p'
make_userspace_process-IsProgram_example =
    make_userspace_process-IsProgram 3 (kernel_base + 0x100000) (kernel_base + 0x101000) 1 0x7000
      0x100000 0x400ff8 0x38 (kernel_base + 0x200000) 0x200000 2 (code ∷ note ∷ []) one_table
      with_image frames (omega arith) (omega arith) (omega arith) (omega arith) (omega arith)
      (omega arith) line_at with_image-Represents (Gives-range 15 0x3000 0x20000 (omega arith))
      (image-IsElf one_table one_table-IsHigh)
      ((λ e. omega arith), ((λ e. absurd (omega (arith, e))), tt))
      (command_line-IsText one_table one_table-IsHigh)

-- Two modules with the same image and command line.
abbrev info : InitrdInfo
info = record {
  command_line = kernel_base + 0x200000;
  start = linear_start + 0x100000;
  end = linear_start + 0x101000;
}

abbrev program : Program
program = record {
  image = 0x100000;
  entry = 0x400ff8;
  size = 0x38;
  segments = code ∷ note ∷ [];
  line = 0x200000;
  length = 2;
}

unmarked-IsHigh : IsHigh unmarked
unmarked-IsHigh b le = omega arith

program-IsStartable : IsStartable 3 info with_image.mem frames program
program-IsStartable = record {
  starts = refl;
  at = line_at;
  enough = omega arith;
  small = omega arith;
  below = ((λ e. omega arith), ((λ e. absurd (omega (arith, e))), tt));
  elf = image-IsElf unmarked unmarked-IsHigh;
  text = command_line-IsText unmarked unmarked-IsHigh;
}

start_processes-AllStarted_example :
    (k' : Kernel) × (s' : FrameState) × (p' : Pool) × (start_processes 3
        (kernel_base + 0x100000)
        (kernel_base + 0x101000)
        2
        0
        (λ j. info)
        sole
        with_image
      ≡ some (k', s'))
    × AllStarted 2 0 1 (λ j. program) sole k' with_image s' frames p'
start_processes-AllStarted_example =
    start_processes-AllStarted 3 (kernel_base + 0x100000) (kernel_base + 0x101000) 2 0 1 (λ j. info)
      (λ j. program) sole with_image frames (omega arith) (omega arith) (omega arith) (omega arith)
      (omega arith) with_image-Represents (Gives-range 29 0x3000 0x20000 (omega arith))
      (λ j le lt. program-IsStartable)
