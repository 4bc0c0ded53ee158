-- ===== src/Entry/Tests.antt =====
-- A program at a system call, and at an interrupt.
use mp.Prelude.{ℕ, ◌+◌, ◌≡◌, refl, arith, inr, [], ap, ◌==◌, if◌then◌else◌}
use mp.Prelude.Int.{pos, failure}
use mp.Prelude.Runs.{Run, from_option, ◌>>=◌}
use mp.Process.{Kernel, set_files}
use mp.Terminal.Output.{write_loop}
use mp.Process.Descriptors.{write_file-terminal}
use mp.Process.Tests.{kernel, frame}
use mp.Process.DiskTests.{disk, machine}
use mp.Prelude.{Memory}
use mp.FileSystem.{FileSystem}
use mp.Screen.{clean_screen}
use mp.Screen.Paper.{Shows, type_text, empty_paper, clean_screen-Shows}
use mp.Entry.Prints.{text_from, systemcall-prints}
use mp.Process.{mem_of}
use mp.Process.CallTests.{program_disk}
use mp.Entry.{Cpu, IsCdecl}
use mp.Entry.Calls.{Locals, came_back, resumed, sys_jump_table, save_registers, systemcall}
use mp.Entry.Wrappers.{irq_wrap}
use mp.Entry.Saved.{SameRegisters, IsBack}
use mp.Entry.Returns.{IsAnswered, systemcall-answers, systemcall-refuses}
use mp.Entry.Kept.{irq_wrap-SameRegisters}

-- A program that calls number `n` with three words, on the kernel stack of the first process.
abbrev pub calling : ℕ → ℕ → ℕ → ℕ → Cpu
calling n a b c = record {
  eax = n;
  ebx = a;
  ecx = b;
  edx = c;
  esi = 1;
  edi = 2;
  ebp = 3;
  esp = 0x7FFFE8;
  eflags = 0;
  eip = 0x400000;
  cs = 0x10;
  ss = 0x18;
  ds = 0x18;
  words = λ i. if i == 0x7FFFE8 then 0x8048000 else if i == 0x7FFFEC then 0x23 else 0x2B;
}

-- A function that leaves numbers of its own in the registers that it may use.
abbrev pub body : Cpu → Cpu
body c = record c { eax = 7; ecx = 8; edx = 9; eflags = 1 }

pub body-IsCdecl : (args : ℕ) (c : Cpu) → IsCdecl args c (body c)
body-IsCdecl args c = record {
  ebx = refl;
  esi = refl;
  edi = refl;
  ebp = refl;
  esp = refl;
  ss = refl;
  frame = λ a h. refl;
}

abbrev pub locals : Locals
locals = record {
  fuel = 40;
  frame = frame;
  seen = program_disk;
  shell = 100;
  current = 0;
  filename = 0;
  tem = 400;
}

systemcall-refuses_example :
    (d : Cpu) × (systemcall locals body (calling 11 1 2 3) kernel [] ≡ Run.ok (resumed d kernel []))
    × (d.ebx ≡ 1)
    × (d.ecx ≡ 2)
    × (d.edx ≡ 3)
    × IsAnswered (calling 11 1 2 3) failure (save_registers (calling 11 1 2 3)) d
systemcall-refuses_example =
    systemcall-refuses locals body (calling 11 1 2 3) kernel [] (omega arith) (omega arith)
      (inr (omega arith))

irq_wrap-SameRegisters_example :
    SameRegisters (calling 0 1 2 3) (irq_wrap body (calling 0 1 2 3))
    × IsBack (calling 0 1 2 3) (irq_wrap body (calling 0 1 2 3))
irq_wrap-SameRegisters_example =
    irq_wrap-SameRegisters body (calling 0 1 2 3) (omega arith) (body-IsCdecl 0 _)

-- `write` of 4 bytes to the terminal.
abbrev printed : Kernel
printed =
    set_files
      (record kernel.devices.files {
        screen =
            write_loop 4 0 (λ i. kernel.devices.files.mem (0x08000000 + i))
              kernel.devices.files.screen;
      })
      kernel

writes_four :
    sys_jump_table locals 4 1 0x08000000 4 kernel [] ≡ Run.ok (came_back [] (pos 4, printed))
unfolding sys_jump_table
writes_four =
    ap (λ o. from_option o >>= λ r. Run.ok (came_back [] r))
      (write_file-terminal 1 0x08000000 4 0 kernel refl (omega arith) (omega arith) (omega arith)
        (omega arith) (omega arith) refl)

systemcall-answers_example :
    (d : Cpu) × (systemcall locals body (calling 4 1 0x08000000 4) kernel []
      ≡ Run.ok (resumed d printed []))
    × IsAnswered
        (calling 4 1 0x08000000 4)
        (pos 4)
        (body (save_registers (calling 4 1 0x08000000 4)))
        d
systemcall-answers_example =
    systemcall-answers locals body (calling 4 1 0x08000000 4) kernel [] (pos 4) printed []
      (omega arith) (omega arith) (omega arith) (body-IsCdecl 12 _) writes_four

abbrev cleared : Kernel → Kernel
cleared k = set_files (record k.devices.files { screen = clean_screen k.devices.files.screen }) k

-- A disk whose file has 32 bytes, with the entry point 0x08048000.
abbrev long_disk : Memory
long_disk a =
    if a == 0x502000
    then 32
    else if a == 0x503019
    then 0x80
    else if a == 0x50301A
    then 0x04
    else if a == 0x50301B
    then 0x08
    else disk a

abbrev long_drive : FileSystem
long_drive = record machine.devices.files { mem = long_disk }

systemcall-prints_example :
    (d : Cpu) × (k' : Kernel) × (systemcall locals body
        (calling 4 1 0x08000000 4)
        (cleared kernel)
        []
      ≡ Run.ok (resumed d k' []))
    × IsAnswered
        (calling 4 1 0x08000000 4)
        (pos 4)
        (body (save_registers (calling 4 1 0x08000000 4)))
        d
    × Shows k'.devices.files.screen
        (type_text (text_from 4 0x08000000 (mem_of (cleared kernel))) empty_paper)
systemcall-prints_example =
    systemcall-prints locals body (calling 4 1 0x08000000 4) 0 (cleared kernel) [] empty_paper
      (omega arith) refl (body-IsCdecl 12 _) refl (omega arith) (omega arith) (omega arith)
      (omega arith) (omega arith) refl (clean_screen-Shows kernel.devices.files.screen)
