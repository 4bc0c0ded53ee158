-- ===== src/Entry/Returns.antt =====
-- What a program gets back from `systemcall`.
use mp.Prelude.{ℕ, ◌+◌, ◌-◌, ◌%◌, ◌^◌, ◌≡◌, ◌≤◌, ◌<◌, ◌⊎◌, refl, ◌∙◌, ap, arith, List, true, false}
use mp.Prelude.Int.{ℤ, failure}
use mp.Prelude.Runs.{Run, ◌>>=◌}
use mp.Rtc.{Event}
use mp.FileSystem.{as_unsigned}
use mp.Process.{Kernel}
use mp.Entry.{Cpu, iret, IsCdecl}
use mp.Entry.Calls.{
  Locals, returned, resumed, sys_jump_table, save_registers, restore_registers, leave, systemcall,
  out_of_table,
}
use mp.Entry.Saved.{
  HasRoom, save_registers-IsSaved, restore_registers-IsRestored, IsBack, iret-IsBack,
  iret-SameRegisters,
}

in_table : (n : ℕ) → 1 ≤ n → n ≤ 10 → out_of_table n ≡ false
unfolding out_of_table
in_table n low high = ground arith

not_in_table : (n : ℕ) → n < 2 ^ 32 → (n ≡ 0) ⊎ (10 < n) → out_of_table n ≡ true
unfolding out_of_table
not_in_table n small h = ground arith

-- With one of the numbers 1 to 10 the stub calls the table's function with ebx, ecx and edx.
systemcall-calls :
    (l : Locals) (code : Cpu → Cpu) (c : Cpu) (k : Kernel) (es : List Event)
    → HasRoom c
    → 1 ≤ c.eax
    → c.eax ≤ 10
    → systemcall l code c k es ≡ (
        sys_jump_table l c.eax c.ebx c.ecx c.edx k es >>= λ r.
        Run.ok (leave code (save_registers c) r))
unfolding systemcall
systemcall-calls l code c k es room low high =
    let saved = save_registers-IsSaved c room in
    let s = save_registers c in
    let second : ((s.esp + 4) % 2 ^ 32 ≡ s.esp + 4) = omega (arith, saved.esp) in
    let third : (((s.esp + 4) % 2 ^ 32 + 4) % 2 ^ 32 ≡ s.esp + 8) = omega (arith, saved.esp) in
    rw
      (
        in_table c.eax low high,
        saved.ebx,
        ap s.words second ∙ saved.ecx,
        ap s.words third ∙ saved.edx,
      )
      refl

-- A program `c` goes on at `d` with the value `z`: it takes ebx, ecx and edx from the words of `a`
-- that were the function's arguments.
pub record IsAnswered (c : Cpu) (z : ℤ) (a d : Cpu) : Type 0 where
  pub eax : d.eax ≡ as_unsigned z
  pub ebx : d.ebx ≡ a.words (c.esp - 24)
  pub ecx : d.ecx ≡ a.words (c.esp - 20)
  pub edx : d.edx ≡ a.words (c.esp - 16)
  pub esi : d.esi ≡ c.esi
  pub edi : d.edi ≡ c.edi
  pub ebp : d.ebp ≡ c.ebp
  pub control : IsBack c d

abbrev answered : ℤ → Cpu → Cpu
answered z a = iret (restore_registers (record a { eax = as_unsigned z }))

answered-IsAnswered :
    (c : Cpu) (z : ℤ) (a : Cpu)
    → HasRoom c
    → IsCdecl 12 (save_registers c) a
    → IsAnswered c z a (answered z a)
answered-IsAnswered c z a room kept =
    let s = save_registers c in
    let saved = save_registers-IsSaved c room in
    let low : (s.esp + 24 ≡ c.esp) = saved.esp in
    let at : (a.esp ≡ s.esp) = kept.esp in
    let slot = λ (n : ℕ) (h : 12 ≤ n). kept.frame (s.esp + n) (omega arith) in
    let b : Cpu = record a { eax = as_unsigned z } in
    let old : (a.words (a.esp + 12) ≡ a.esp + 16) = rw at (slot 12 (omega arith) ∙ saved.old_esp) in
    let r = restore_registers-IsRestored b (omega arith) old in
    let same = iret-SameRegisters (restore_registers b) in
    record {
      eax = same.eax ∙ r.eax;
      ebx = same.ebx ∙ r.ebx ∙ ap a.words (omega arith);
      ecx = same.ecx ∙ r.ecx ∙ ap a.words (omega arith);
      edx = same.edx ∙ r.edx ∙ ap a.words (omega arith);
      esi = same.esi ∙ r.esi ∙ ap a.words (omega arith) ∙ slot 20 (omega arith) ∙ saved.esi;
      edi = same.edi ∙ r.edi ∙ ap a.words (omega arith) ∙ slot 16 (omega arith) ∙ saved.edi;
      ebp = same.ebp ∙ r.ebp ∙ kept.ebp ∙ saved.ebp;
      control =
          iret-IsBack c (restore_registers b) room (r.esp ∙ omega arith) (r.ss ∙ kept.ss ∙ saved.ss)
            (λ x h. ap (λ (w : ℕ → ℕ). w x) r.words ∙ kept.frame x (omega arith) ∙ saved.above x h);
    }

own_frame : (c : Cpu) → IsCdecl 12 c c
own_frame c = record {
  ebx = refl;
  esi = refl;
  edi = refl;
  ebp = refl;
  esp = refl;
  ss = refl;
  frame = λ a h. refl;
}

-- With room on the kernel's stack, one of the numbers 1 to 10 in eax, and a function whose code
-- keeps to the calling convention: where the function of that number, given ebx, ecx and edx,
-- comes back with a value, `systemcall` goes back to the program with the value in eax, the
-- kernel that the function left, and the program's esi, edi, ebp, stack, flags and place in the
-- code; ebx, ecx and edx are what the function left in its arguments.
pub systemcall-answers :
    (l : Locals) (code : Cpu → Cpu) (c : Cpu) (k : Kernel) (es : List Event) (z : ℤ) (k' : Kernel)
    (es' : List Event)
    → HasRoom c
    → 1 ≤ c.eax
    → c.eax ≤ 10
    → IsCdecl 12 (save_registers c) (code (save_registers c))
    → sys_jump_table l c.eax c.ebx c.ecx c.edx k es ≡ Run.ok (returned z k' es')
    → (d : Cpu) × (systemcall l code c k es ≡ Run.ok (resumed d k' es'))
      × IsAnswered c z (code (save_registers c)) d
unfolding leave
systemcall-answers l code c k es z k' es' room low high kept e =
    let a = code (save_registers c) in
    (
      answered z a,
      systemcall-calls l code c k es room low high ∙ rw e refl,
      answered-IsAnswered c z a room kept,
    )

-- With room on the kernel's stack, and any other 32-bit number in eax, nothing is called: the
-- program goes on with -1 in eax, all its other registers, its stack, flags and place as they
-- were, and the same kernel.
pub systemcall-refuses :
    (l : Locals) (code : Cpu → Cpu) (c : Cpu) (k : Kernel) (es : List Event)
    → HasRoom c
    → c.eax < 2 ^ 32
    → (c.eax ≡ 0) ⊎ (10 < c.eax)
    → (d : Cpu) × (systemcall l code c k es ≡ Run.ok (resumed d k es))
      × (d.ebx ≡ c.ebx)
      × (d.ecx ≡ c.ecx)
      × (d.edx ≡ c.edx)
      × IsAnswered c failure (save_registers c) d
unfolding systemcall
systemcall-refuses l code c k es room small h =
    let s = save_registers c in
    let saved = save_registers-IsSaved c room in
    let low = saved.esp in
    let a = answered-IsAnswered c failure s room (own_frame s) in
    (
      answered failure s,
      rw (not_in_table c.eax small h) refl,
      a.ebx ∙ ap s.words (omega arith) ∙ saved.ebx,
      a.ecx ∙ ap s.words (omega arith) ∙ saved.ecx,
      a.edx ∙ ap s.words (omega arith) ∙ saved.edx,
      a,
    )
