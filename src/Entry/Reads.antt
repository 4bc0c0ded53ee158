-- ===== src/Entry/Reads.antt =====
-- `read` from the terminal, from the registers of the program to its page.
use mp.Prelude.{ℕ, ◌+◌, ◌*◌, ◌≡◌, ◌≢◌, ◌≤◌, ◌<◌, ◌∙◌, refl, ap, arith, List, some}
use mp.Prelude.Int.{ℤ, pos}
use mp.Prelude.Runs.{Run, ◌>>=◌}
use mp.Rtc.{Event}
use mp.Keyboard.{keyboard_read}
use mp.FileOps.{terminal_fot}
use mp.FileSystem.{as_unsigned, inode_index, dentry, dentry_num}
use mp.FileSystem.Directory.{IsDirectory}
use mp.Process.{Kernel, mem_of, user_mem, user_end}
use mp.Process.Calls.{fds_of, as_signed}
use mp.Process.Reading.{read_file}
use mp.Process.LineReads.{read_file-terminal}
use mp.Entry.{Cpu, IsCdecl}
use mp.Entry.Calls.{Locals, Called, returned, resumed, sys_jump_table, save_registers, systemcall}
use mp.Entry.Saved.{HasRoom}
use mp.Entry.Returns.{IsAnswered, systemcall-answers}

-- The value that the jump table makes of the call's.
abbrev answer_of : Run (ℤ × Kernel × List Event) → Run Called
answer_of run = run >>= λ r. Run.ok (returned r.0 r.1 r.2)

jump-read :
    (l : Locals) (fd buf n : ℕ) (k : Kernel) (es : List Event)
    → sys_jump_table l 3 fd buf n k es
      ≡ answer_of (read_file l.fuel l.tem l.filename fd buf (as_signed n) k es)
unfolding sys_jump_table
jump-read l fd buf n k es = refl

-- A program that calls number 3 with descriptor 0 or 2 to 6, in use and the terminal's, and with 1 to
-- 127 bytes of its page, on a kernel with room on its stack whose compiled code keeps to the calling
-- convention, with a readable directory below the page whose first entry has the descriptor's inode,
-- and bytes in the keyboard's buffer: it gets back the number, with its esi, edi, ebp, stack, flags
-- and place in the code, and its page has the line's first bytes from the address in ecx on.
pub systemcall-reads :
    (l : Locals) (code : Cpu → Cpu) (c : Cpu) (p : ℕ) (k : Kernel) (es : List Event)
    → HasRoom c
    → c.eax ≡ 3
    → IsCdecl 12 (save_registers c) (code (save_registers c))
    → k.filed_array ≡ some p
    → user_mem ≤ c.ecx
    → c.ecx + c.edx ≤ user_end
    → c.ebx < 7
    → c.ebx ≢ 1
    → (fds_of p k c.ebx).flags ≢ 0
    → (fds_of p k c.ebx).fileot_pointer ≡ terminal_fot
    → 0 < c.edx
    → c.edx ≤ 127
    → 32 ≤ l.fuel
    → ((j : ℕ) → keyboard_read j k.devices.terminal.keyboard < 256)
    → IsDirectory l.tem k.devices.files
    → k.devices.files.bootblock_head + 128 + 64 * dentry_num k.devices.files ≤ user_mem
    → as_unsigned (fds_of p k c.ebx).inode ≡ inode_index (mem_of k) (dentry k.devices.files 0)
    → (d : Cpu) × (k' : Kernel) × (systemcall l code c k es ≡ Run.ok (resumed d k' es))
      × IsAnswered c (pos c.edx) (code (save_registers c)) d
      × ((j : ℕ) → j < c.edx → mem_of k' (c.ecx + j) ≡ keyboard_read j k.devices.terminal.keyboard)
systemcall-reads l code c p k es room three kept e lo hi f7 f1 fl t n0 n127 fuel kb dir below ino =
    let (k', ran, bytes) =
      read_file-terminal l.fuel l.tem l.filename c.ebx c.ecx c.edx p k es e lo hi f7 f1 fl t n0 n127
        fuel kb dir below ino in
    let signed : as_signed c.edx ≡ pos c.edx = ground arith in
    let called : sys_jump_table l c.eax c.ebx c.ecx c.edx k es
        ≡ Run.ok (returned (pos c.edx) k' es) =
      ap (λ (n : ℕ). sys_jump_table l n c.ebx c.ecx c.edx k es) three
      ∙ jump-read l c.ebx c.ecx c.edx k es
      ∙ ap (λ (z : ℤ). answer_of (read_file l.fuel l.tem l.filename c.ebx c.ecx z k es)) signed
      ∙ ap answer_of ran in
    let (d, back, answer) =
      systemcall-answers l code c k es (pos c.edx) k' es room (omega arith) (omega arith) kept
        called in
    (d, k', back, answer, bytes)
