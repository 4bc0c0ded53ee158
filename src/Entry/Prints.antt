-- ===== src/Entry/Prints.antt =====
-- `write` to the terminal, from the registers of the program to the screen.
use mp.Prelude.{ℕ, zero, suc, ◌+◌, ◌≡◌, ◌≢◌, ◌≤◌, ◌<◌, refl, ◌∙◌, ap, arith, List, [], ◌∷◌}
use mp.Prelude.{Option, some, Memory}
use mp.Prelude.Int.{ℤ, pos}
use mp.Prelude.Runs.{Run, from_option, ◌>>=◌}
use mp.Rtc.{Event}
use mp.Screen.{Screen, puts, putc}
use mp.Screen.Paper.{Paper, Shows, type_text, puts-Shows}
use mp.Terminal.Output.{write_loop}
use mp.FileOps.{terminal_fot}
use mp.Process.{Kernel, mem_of, set_files, user_mem, user_end}
use mp.Process.Calls.{fds_of, write_file, as_signed}
use mp.Process.Descriptors.{write_file-terminal}
use mp.Entry.{Cpu, IsCdecl}
use mp.Entry.Calls.{
  Locals, Called, came_back, returned, resumed, sys_jump_table, save_registers, systemcall,
}
use mp.Entry.Saved.{HasRoom}
use mp.Entry.Returns.{IsAnswered, systemcall-answers}

-- The `n` bytes of memory from `a` on.
unfoldable pub text_from : ℕ → ℕ → Memory → List ℕ
text_from zero a m = []
text_from (suc n) a m = m a ∷ text_from n (a + 1) m

-- The loop of `terminal_write` prints them as a string.
write_loop-puts :
    (n i a : ℕ) (m : Memory) (s : Screen)
    → write_loop n i (λ j. m (a + j)) s ≡ puts (text_from n (a + i) m) s
unfolding write_loop puts text_from
write_loop-puts zero i a m s = refl
write_loop-puts (suc n) i a m s =
    write_loop-puts n (i + 1) a m (putc (m (a + i)) s)
    ∙ ap (λ (b : ℕ). puts (text_from n b m) (putc (m (a + i)) s)) (omega arith)

-- The kernel after the bytes have been printed.
abbrev pub printed : ℕ → ℕ → Kernel → Kernel
printed buf n k =
    set_files
      (record k.devices.files { screen = puts (text_from n buf (mem_of k)) k.devices.files.screen })
      k

write_file-prints :
    (fd buf n p : ℕ) (k : Kernel)
    → k.filed_array ≡ some p
    → user_mem ≤ buf
    → buf + n ≤ user_end
    → 0 < fd
    → fd < 7
    → (fds_of p k fd).flags ≢ 0
    → (fds_of p k fd).fileot_pointer ≡ terminal_fot
    → write_file fd buf (pos n) k ≡ some (pos n, printed buf n k)
write_file-prints fd buf n p k e lo hi f0 f7 fl t =
    write_file-terminal fd buf n p k e lo hi f0 f7 fl t
    ∙ ap (λ (s : Screen). some (pos n, set_files (record k.devices.files { screen = s }) k))
        (write_loop-puts n 0 buf (mem_of k) k.devices.files.screen
          ∙ ap (λ (b : ℕ). puts (text_from n b (mem_of k)) k.devices.files.screen) (omega arith))

abbrev answer_of : List Event → Option (ℤ × Kernel) → Run Called
answer_of es o = from_option o >>= λ r. Run.ok (came_back es r)

jump-write :
    (l : Locals) (fd buf n : ℕ) (k : Kernel) (es : List Event)
    → sys_jump_table l 4 fd buf n k es ≡ answer_of es (write_file fd buf (as_signed n) k)
unfolding sys_jump_table
jump-write l fd buf n k es = refl

-- A program that calls number 4 with a descriptor from 1 to 6 that is in use and the terminal's, and
-- with bytes of its page, on a kernel with room on its stack whose compiled code keeps to the calling
-- convention, and whose screen shows the last rows of a paper: it gets back their number, with its
-- esi, edi, ebp, stack, flags and place in the code, and the screen shows the paper with the bytes typed on it.
pub systemcall-prints :
    (l : Locals) (code : Cpu → Cpu) (c : Cpu) (p : ℕ) (k : Kernel) (es : List Event) (paper : Paper)
    → HasRoom c
    → c.eax ≡ 4
    → IsCdecl 12 (save_registers c) (code (save_registers c))
    → k.filed_array ≡ some p
    → user_mem ≤ c.ecx
    → c.ecx + c.edx ≤ user_end
    → 0 < c.ebx
    → c.ebx < 7
    → (fds_of p k c.ebx).flags ≢ 0
    → (fds_of p k c.ebx).fileot_pointer ≡ terminal_fot
    → Shows k.devices.files.screen paper
    → (d : Cpu) × (k' : Kernel) × (systemcall l code c k es ≡ Run.ok (resumed d k' es))
      × IsAnswered c (pos c.edx) (code (save_registers c)) d
      × Shows k'.devices.files.screen (type_text (text_from c.edx c.ecx (mem_of k)) paper)
systemcall-prints l code c p k es paper room four kept e lo hi f0 f7 fl t shown =
    let k' = printed c.ecx c.edx k in
    let (d, back, answer) =
      systemcall-answers l code c k es (pos c.edx) k' es room (omega arith) (omega arith) kept
        called in
    (d, k', back, answer, puts-Shows (text_from c.edx c.ecx (mem_of k)) _ paper shown)
  where
    signed : as_signed c.edx ≡ pos c.edx
    signed = ground arith

    called :
        sys_jump_table l c.eax c.ebx c.ecx c.edx k es
        ≡ Run.ok (returned (pos c.edx) (printed c.ecx c.edx k) es)
    called =
        ap (λ (n : ℕ). sys_jump_table l n c.ebx c.ecx c.edx k es) four
        ∙ jump-write l c.ebx c.ecx c.edx k es
        ∙ ap (λ (z : ℤ). answer_of es (write_file c.ebx c.ecx z k)) signed
        ∙ ap (answer_of es) (write_file-prints c.ebx c.ecx c.edx p k e lo hi f0 f7 fl t)
