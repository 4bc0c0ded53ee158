-- ===== src/Entry/Saved.antt =====
-- What the pushes of `systemcall` save, what its pops take back, and where `iret` goes.
use mp.Prelude.{ℕ, ◌+◌, ◌-◌, ◌%◌, ◌^◌, ◌≡◌, ◌≤◌, refl, ◌∙◌, ap, arith}
use mp.Entry.{Cpu, iret}
use mp.Entry.Calls.{save_registers, restore_registers}

-- Room for the pushes below the stack pointer, and for what `iret` takes from it on.
abbrev pub HasRoom : Cpu → Type 0
HasRoom c = (40 ≤ c.esp) × (c.esp + 20 ≤ 2 ^ 32)

pub record IsSaved (c s : Cpu) : Type 0 where
  pub esp : s.esp + 24 ≡ c.esp
  pub ebx : s.words s.esp ≡ c.ebx
  pub ecx : s.words (s.esp + 4) ≡ c.ecx
  pub edx : s.words (s.esp + 8) ≡ c.edx
  pub old_esp : s.words (s.esp + 12) ≡ s.esp + 16
  pub edi : s.words (s.esp + 16) ≡ c.edi
  pub esi : s.words (s.esp + 20) ≡ c.esi
  pub ebp : s.ebp ≡ c.ebp
  pub ss : s.ss ≡ c.ss
  pub above : (a : ℕ) → c.esp ≤ a → s.words a ≡ c.words a

pub save_registers-IsSaved : (c : Cpu) → HasRoom c → IsSaved c (save_registers c)
unfolding save_registers
save_registers-IsSaved c room = record {
  esp = omega arith;
  ebx = ground arith;
  ecx = ground arith;
  edx = ground arith;
  old_esp = ground arith;
  edi = ground arith;
  esi = ground arith;
  ebp = refl;
  ss = refl;
  above = λ a h. ground arith;
}

-- The registers after the pops, for a stack pointer `e` and the word that `popl %esp` takes.
pub record IsRestored (c d : Cpu) : Type 0 where
  pub eax : d.eax ≡ c.eax
  pub ebx : d.ebx ≡ c.words c.esp
  pub ecx : d.ecx ≡ c.words (c.esp + 4)
  pub edx : d.edx ≡ c.words (c.esp + 8)
  pub edi : d.edi ≡ c.words (c.esp + 16)
  pub esi : d.esi ≡ c.words (c.esp + 20)
  pub ebp : d.ebp ≡ c.ebp
  pub esp : d.esp ≡ c.esp + 24
  pub ss : d.ss ≡ c.ss
  pub words : d.words ≡ c.words

pub restore_registers-IsRestored :
    (c : Cpu)
    → c.esp + 24 ≤ 2 ^ 32 - 20
    → c.words (c.esp + 12) ≡ c.esp + 16
    → IsRestored c (restore_registers c)
unfolding restore_registers
restore_registers-IsRestored c room e =
    let third : ((((c.esp + 4) % 2 ^ 32 + 4) % 2 ^ 32 + 4) % 2 ^ 32 ≡ c.esp + 12) = omega arith in
    let old = ap c.words third ∙ e in
    record {
      eax = refl;
      ebx = refl;
      ecx = ap c.words (omega arith);
      edx = ap c.words (omega arith);
      edi = ap c.words old;
      esi = ap c.words (omega (arith, old));
      ebp = refl;
      esp = omega (arith, old);
      ss = refl;
      words = refl;
    }

-- The state in which `iret` leaves the processor, from stacks that agree from the pointer on.
pub record IsBack (c d : Cpu) : Type 0 where
  pub eip : d.eip ≡ (iret c).eip
  pub cs : d.cs ≡ (iret c).cs
  pub eflags : d.eflags ≡ (iret c).eflags
  pub esp : d.esp ≡ (iret c).esp
  pub ss : d.ss ≡ (iret c).ss

pub iret-IsBack :
    (c d : Cpu)
    → HasRoom c
    → d.esp ≡ c.esp
    → d.ss ≡ c.ss
    → ((a : ℕ) → c.esp ≤ a → d.words a ≡ c.words a)
    → IsBack c (iret d)
unfolding iret
iret-IsBack c d room e s same =
    let w₀ = word d.esp c.esp e (omega arith) in
    let w₁ = word ((d.esp + 4) % 2 ^ 32) ((c.esp + 4) % 2 ^ 32) (omega arith) (omega arith) in
    let w₂ =
      word (((d.esp + 4) % 2 ^ 32 + 4) % 2 ^ 32) (((c.esp + 4) % 2 ^ 32 + 4) % 2 ^ 32) (omega arith)
        (omega arith) in
    let w₃ =
      word ((((d.esp + 4) % 2 ^ 32 + 4) % 2 ^ 32 + 4) % 2 ^ 32)
        ((((c.esp + 4) % 2 ^ 32 + 4) % 2 ^ 32 + 4) % 2 ^ 32) (omega arith) (omega arith) in
    let w₄ =
      word (((((d.esp + 4) % 2 ^ 32 + 4) % 2 ^ 32 + 4) % 2 ^ 32 + 4) % 2 ^ 32)
        (((((c.esp + 4) % 2 ^ 32 + 4) % 2 ^ 32 + 4) % 2 ^ 32 + 4) % 2 ^ 32) (omega arith)
        (omega arith) in
    record {
      eip = ground arith;
      cs = ground arith;
      eflags = ground arith;
      esp = ground arith;
      ss = ground arith;
    }
  where
    word : (a b : ℕ) → a ≡ b → c.esp ≤ b → d.words a ≡ c.words b
    word a b e h = ap d.words e ∙ same b h

-- `iret` takes no general register.
pub record SameRegisters (c d : Cpu) : Type 0 where
  pub eax : d.eax ≡ c.eax
  pub ebx : d.ebx ≡ c.ebx
  pub ecx : d.ecx ≡ c.ecx
  pub edx : d.edx ≡ c.edx
  pub esi : d.esi ≡ c.esi
  pub edi : d.edi ≡ c.edi
  pub ebp : d.ebp ≡ c.ebp

pub iret-SameRegisters : (c : Cpu) → SameRegisters c (iret c)
unfolding iret
iret-SameRegisters c = record {
  eax = ground arith;
  ebx = ground arith;
  ecx = ground arith;
  edx = ground arith;
  esi = ground arith;
  edi = ground arith;
  ebp = ground arith;
}
