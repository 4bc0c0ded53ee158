-- ===== src/Entry.antt =====
-- The processor as the assembly of the kernel sees it, and the `sti` of lib.h.
pub mod Calls
pub mod Wrappers
pub mod Saved
pub mod Returns
pub mod Kept
pub mod Refine
pub mod Switch
pub mod Enters
pub mod Prints
pub mod Reads
mod Resume
mod Flags
mod Tests
mod ReadTests
use mp.Prelude.{Bool, ℕ, ◌+◌, ◌-◌, ◌%◌, ◌/◌, ◌*◌, ◌^◌, ◌≡◌, ◌≤◌, ◌==◌, if◌then◌else◌, update}

-- The general registers, the flags, the code that runs, the stack's segment, and the words of memory
-- by their addresses. Only the words at addresses that the stack takes are looked at.
pub record Cpu : Type 0 where
  pub eax : ℕ
  pub ebx : ℕ
  pub ecx : ℕ
  pub edx : ℕ
  pub esi : ℕ
  pub edi : ℕ
  pub ebp : ℕ
  pub esp : ℕ
  pub eflags : ℕ
  pub eip : ℕ
  pub cs : ℕ
  pub ss : ℕ
  pub ds : ℕ
  pub words : ℕ → ℕ

abbrev pub lower : ℕ → ℕ
lower a = (a + 2 ^ 32 - 4) % 2 ^ 32

-- `pushl` and `popl`: the register's new value is left to the instruction.
abbrev pub push : ℕ → Cpu → Cpu
push x c = record c { esp = lower c.esp; words = update c.words (lower c.esp) x }

abbrev pub top : Cpu → ℕ
top c = c.words c.esp

abbrev pub discard : Cpu → Cpu
discard c = record c { esp = (c.esp + 4) % 2 ^ 32 }

-- `iret`, which takes the stack too where it goes back to the user level.
abbrev pub to_user : Cpu → Cpu
to_user c = record c { esp = top c; ss = top (discard c) }

unfoldable pub iret : Cpu → Cpu
iret c =
    let code : Cpu = record c {
      eip = top c;
      cs = top (discard c);
      eflags = top (discard (discard c));
      esp = (discard (discard (discard c))).esp;
    } in
    if code.cs % 4 == 3 then to_user code else code

-- Bit 9 of the flags, which lets interrupts through, and the macro of lib.h that sets it.
abbrev pub has_interrupts : Cpu → Bool
has_interrupts c = c.eflags / 512 % 2 == 1

unfoldable pub sti : Cpu → Cpu
sti c = if has_interrupts c then c else record c { eflags = c.eflags + 512 }

-- What compiled code promises about a call at `before` that has come back at `after`: these registers
-- are kept, and so is the stack from `args` bytes above the stack pointer on. The words of its
-- arguments are its own.
pub record IsCdecl (args : ℕ) (before after : Cpu) : Type 0 where
  pub ebx : after.ebx ≡ before.ebx
  pub esi : after.esi ≡ before.esi
  pub edi : after.edi ≡ before.edi
  pub ebp : after.ebp ≡ before.ebp
  pub esp : after.esp ≡ before.esp
  pub ss : after.ss ≡ before.ss
  pub frame : (a : ℕ) → before.esp + args ≤ a → after.words a ≡ before.words a
