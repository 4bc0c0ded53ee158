-- ===== src/Entry/Calls.antt =====
-- `systemcall` of syscall.S: the kernel's side of a system call, and the functions of its jump table.
use mp.Prelude.{ℕ, ◌%◌, Bool, ◌||◌, ◌==◌, if◌then◌else◌, Memory, List}
use mp.Prelude.Int.{ℤ, pos, failure, ltb_ℤ}
use mp.Prelude.Runs.{Run, from_option, ◌>>=◌}
use mp.Rtc.{Event}
use mp.FileSystem.{as_unsigned, is_zero}
use mp.Process.{Kernel, Frame}
use mp.Process.Execute.{execute}
use mp.Process.Calls.{as_signed, open_file, write_file, getargs, vidmap, set_handler, sigreturn}
use mp.Process.Reading.{read_file}
use mp.Process.Closing.{close_file, halt_process}
use mp.Entry.{Cpu, push, top, discard, iret}

-- What the functions need and the numbers do not say: fuel, addresses of local variables, and the
-- values of pointers that are not initialised.
pub record Locals : Type 0 where
  pub fuel : ℕ
  pub frame : Frame
  pub seen : Memory
  pub shell : ℕ
  pub current : ℕ
  pub filename : ℕ
  pub tem : ℕ

-- A function of the table comes back with its value, or another program runs behind it.
pub data Called : Type 0 where
  returned : ℤ → Kernel → List Event → Called
  switched : Kernel → List Event → Called

abbrev pub came_back : List Event → ℤ × Kernel → Called
came_back es (z, k) = returned z k es

-- `execute` that answers 0 has gone to the new program; a `halt` that ends has left its own.
abbrev pub launched : List Event → ℤ × Kernel → Called
launched es (z, k) = if is_zero z then switched k es else returned z k es

-- `sysJumpTable`, from 1 on, with the three words that the stub has pushed last.
unfoldable pub sys_jump_table : Locals → ℕ → ℕ → ℕ → ℕ → Kernel → List Event → Run Called
sys_jump_table l number a b c k es =
    if number == 1
    then (halt_process l.fuel l.frame l.seen l.shell l.current l.filename (a % 256) k >>= λ r.
        Run.ok (switched r.1 es))
    else if number == 2
    then (from_option (execute l.fuel l.frame l.seen a k) >>= λ r. Run.ok (launched es r))
    else if number == 3
    then (read_file l.fuel l.tem l.filename a b (as_signed c) k es >>= λ r.
        Run.ok (returned r.0 r.1 r.2))
    else if number == 4
    then (from_option (write_file a b (as_signed c) k) >>= λ r. Run.ok (came_back es r))
    else if number == 5
    then (from_option (open_file l.fuel l.current a k) >>= λ r. Run.ok (came_back es r))
    else if number == 6
    then (close_file l.fuel l.current l.filename a k >>= λ r. Run.ok (came_back es r))
    else if number == 7
    then Run.ok (came_back es (getargs k))
    else if number == 8
    then Run.ok (came_back es (vidmap k))
    else if number == 9
    then Run.ok (came_back es (set_handler k))
    else Run.ok (came_back es (sigreturn k))

-- The six pushes. `pushl %esp` pushes the value from before.
unfoldable pub save_registers : Cpu → Cpu
save_registers c =
    let s : Cpu = push c.edi (push c.esi c) in push c.ebx (push c.ecx (push c.edx (push s.esp s)))

-- From the label `done` on, up to the `iret`.
unfoldable pub restore_registers : Cpu → Cpu
restore_registers c₀ =
    let c₁ : Cpu = record (discard c₀) { ebx = top c₀ } in
    let c₂ : Cpu = record (discard c₁) { ecx = top c₁ } in
    let c₃ : Cpu = record (discard c₂) { edx = top c₂ } in
    let c₄ : Cpu = record c₃ { esp = top c₃ } in
    let c₅ : Cpu = record (discard c₄) { edi = top c₄ } in record (discard c₅) { esi = top c₅ }

-- Where the stub ends: in the program that has called, or in another one.
pub data Left : Type 0 where
  resumed : Cpu → Kernel → List Event → Left
  gone : Kernel → List Event → Left

-- `code` is what the called function's machine code leaves in the processor; its value is in eax.
unfoldable pub leave : (Cpu → Cpu) → Cpu → Called → Left
leave code c (returned z k es) =
    resumed (iret (restore_registers (record (code c) { eax = as_unsigned z }))) k es
leave code c (switched k es) = gone k es

-- `jg` and `jl`: the comparisons are of signed numbers.
unfoldable pub out_of_table : ℕ → Bool
out_of_table n = ltb_ℤ (pos 10) (as_signed n) || ltb_ℤ (as_signed n) (pos 1)

unfoldable pub systemcall : Locals → (Cpu → Cpu) → Cpu → Kernel → List Event → Run Left
systemcall l code c k es =
    let s = save_registers c in
    let invalid : Run Left =
      Run.ok (resumed (iret (restore_registers (record s { eax = as_unsigned failure }))) k es) in
    if out_of_table c.eax
    then invalid
    else (sys_jump_table l c.eax (top s) (top (discard s)) (top (discard (discard s))) k es >>= λ r.
        Run.ok (leave code s r))
