-- ===== src/Entry/Switch.antt =====
-- The end of `execute`: the switch to the new program.
use mp.Prelude.{ℕ, ◌+◌, ◌-◌}
use mp.Process.{Kernel, mem_of, user_mem, user_paddr, user_stack_size}
use mp.FileSystem.Words.{load32}
use mp.Entry.{Cpu, push, iret, sti}

abbrev pub user_cs : ℕ
user_cs = 0x0023

abbrev pub user_ds : ℕ
user_ds = 0x002B

-- The assembly, with XSS, ESP, XCS and EIP in eax, ebx, ecx and edx: what it pushes, and the `iret`.
unfoldable pub push_frame : ℕ → ℕ → ℕ → ℕ → Cpu → Cpu
push_frame xss esp xcs eip c₀ =
    let c : Cpu = record c₀ { eax = xss; ebx = esp; ecx = xcs; edx = eip; ds = xss } in
    let stack : Cpu = push c.ebx (push c.eax c) in push c.edx (push c.ecx (push c.eflags stack))

unfoldable pub context_switch : ℕ → ℕ → ℕ → ℕ → Cpu → Cpu
context_switch xss esp xcs eip c = iret (push_frame xss esp xcs eip c)

-- From `launch` on: the four values, `sti`, and the assembly.
unfoldable pub enter_program : Kernel → Cpu → Cpu
enter_program k c =
    context_switch user_ds (user_mem + user_stack_size - 4) user_cs
      (load32 (mem_of k) (user_paddr + 24)) (sti c)
