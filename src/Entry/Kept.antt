-- ===== src/Entry/Kept.antt =====
-- What an interrupt leaves to the program that it has stopped.
use mp.Prelude.{ℕ, ◌+◌, ◌-◌, ◌^◌, ◌≡◌, ◌≤◌, refl, ◌∙◌, ap, arith}
use mp.Entry.{Cpu, IsCdecl}
use mp.Entry.Wrappers.{pushal, popal, pushfl, popfl, irq_wrap}
use mp.Entry.Saved.{HasRoom, SameRegisters, iret-SameRegisters, IsBack, iret-IsBack}

-- The words of the pushes, by the stack pointer behind them.
record IsPushed (c s : Cpu) : Type 0 where
  esp : s.esp + 36 ≡ c.esp
  edi : s.words (s.esp + 4) ≡ c.edi
  esi : s.words (s.esp + 8) ≡ c.esi
  ebp : s.words (s.esp + 12) ≡ c.ebp
  ebx : s.words (s.esp + 20) ≡ c.ebx
  edx : s.words (s.esp + 24) ≡ c.edx
  ecx : s.words (s.esp + 28) ≡ c.ecx
  eax : s.words (s.esp + 32) ≡ c.eax
  ss : s.ss ≡ c.ss
  above : (a : ℕ) → c.esp ≤ a → s.words a ≡ c.words a

pushes-IsPushed : (c : Cpu) → HasRoom c → IsPushed c (pushfl (pushal c))
unfolding pushal
pushes-IsPushed c room = record {
  esp = omega arith;
  edi = ground arith;
  esi = ground arith;
  ebp = ground arith;
  ebx = ground arith;
  edx = ground arith;
  ecx = ground arith;
  eax = ground arith;
  ss = refl;
  above = λ a h. ground arith;
}

-- The registers behind the pops.
record IsPopped (c d : Cpu) : Type 0 where
  edi : d.edi ≡ c.words (c.esp + 4)
  esi : d.esi ≡ c.words (c.esp + 8)
  ebp : d.ebp ≡ c.words (c.esp + 12)
  ebx : d.ebx ≡ c.words (c.esp + 20)
  edx : d.edx ≡ c.words (c.esp + 24)
  ecx : d.ecx ≡ c.words (c.esp + 28)
  eax : d.eax ≡ c.words (c.esp + 32)
  esp : d.esp ≡ c.esp + 36
  ss : d.ss ≡ c.ss
  words : d.words ≡ c.words

pops-IsPopped : (c : Cpu) → c.esp + 36 ≤ 2 ^ 32 - 20 → IsPopped c (popal (popfl c))
unfolding popal
pops-IsPopped c room = record {
  edi = ap c.words (omega arith);
  esi = ap c.words (omega arith);
  ebp = ap c.words (omega arith);
  ebx = ap c.words (omega arith);
  edx = ap c.words (omega arith);
  ecx = ap c.words (omega arith);
  eax = ap c.words (omega arith);
  esp = omega arith;
  ss = refl;
  words = refl;
}

-- With room on the stack, and a handler whose code keeps to the calling convention, whatever it does
-- to eax, ecx, edx and the flags: behind the wrapper all general registers are those of the program
-- that was stopped, and its stack, flags and place in the code are those that the interrupt saved.
pub irq_wrap-SameRegisters :
    (code : Cpu → Cpu) (c : Cpu)
    → HasRoom c
    → IsCdecl 0 (pushfl (pushal c)) (code (pushfl (pushal c)))
    → SameRegisters c (irq_wrap code c) × IsBack c (irq_wrap code c)
unfolding irq_wrap
irq_wrap-SameRegisters code c room kept =
    let s = pushfl (pushal c) in
    let a = code s in
    let pushed = pushes-IsPushed c room in
    let low : (s.esp + 36 ≡ c.esp) = pushed.esp in
    let at : (a.esp ≡ s.esp) = kept.esp in
    let popped = pops-IsPopped a (omega arith) in
    let same = iret-SameRegisters (popal (popfl a)) in
    let word =
      λ (n : ℕ). ap (λ (e : ℕ). a.words (e + n)) at ∙ kept.frame (s.esp + n) (omega arith) in
    (
      record {
        eax = same.eax ∙ popped.eax ∙ word 32 ∙ pushed.eax;
        ebx = same.ebx ∙ popped.ebx ∙ word 20 ∙ pushed.ebx;
        ecx = same.ecx ∙ popped.ecx ∙ word 28 ∙ pushed.ecx;
        edx = same.edx ∙ popped.edx ∙ word 24 ∙ pushed.edx;
        esi = same.esi ∙ popped.esi ∙ word 8 ∙ pushed.esi;
        edi = same.edi ∙ popped.edi ∙ word 4 ∙ pushed.edi;
        ebp = same.ebp ∙ popped.ebp ∙ word 12 ∙ pushed.ebp;
      },
      iret-IsBack c (popal (popfl a)) room (popped.esp ∙ omega arith)
          (popped.ss ∙ kept.ss ∙ pushed.ss)
          (λ x h.
            ap (λ (w : ℕ → ℕ). w x) popped.words ∙ kept.frame x (omega arith) ∙ pushed.above x h),
    )
