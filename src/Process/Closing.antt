-- ===== src/Process/Closing.antt =====
-- `close` and `halt` of process.c.
use mp.Prelude.{ℕ, zero, suc, ◌+◌, ◌==◌, if◌then◌else◌, update, false}
use mp.Prelude.{Option, none, some, []}
use mp.Prelude.Int.{ℤ, pos, failure}
use mp.Prelude.Runs.{Run, from_option, ◌>>=◌}
use mp.Strings.{printf}
use mp.FileSystem.{FileSystem, inode_index, is_zero, read_dentry_by_index, as_unsigned}
use mp.FileSystem
use mp.Paging.{map_user}
use mp.Prelude.{Memory}
use Prim.Native.String.{String}
use mp.Process.{kernel_ds, fdarray_max, no_pid, end_of_kernel, set_files, FdEntry, Kernel, Frame}
use mp.Process.Execute.{execute}
use mp.Process.Calls.{fds_of, set_fd}
use mp.Process.Reading.{stray_access}

-- The inner loop, over the indices from `index` on. `filename` is the name that is kept.
unfoldable pub close_entries : ℕ → ℕ → ℕ → ℕ → ℕ → ℕ → FileSystem → Option (ℕ × FileSystem)
close_entries fuel zero index current filename inode fs = some (filename, fs)
close_entries fuel (suc left) index current filename inode fs =
    FileSystem.◌>>=◌ (read_dentry_by_index fuel index current fs) (λ r.
      close_entries fuel left (index + 1) current
        (if inode_index r.1.mem current == inode then current else filename) inode r.1)

-- The outer loop, over the descriptors from `fd` on.
unfoldable pub close_fds : ℕ → ℕ → ℕ → ℕ → ℕ → (ℕ → FdEntry) → FileSystem → Option (ℕ × FileSystem)
close_fds fuel zero fd current filename fds fs = some (filename, fs)
close_fds fuel (suc left) fd current filename fds fs =
    FileSystem.◌>>=◌ (close_entries fuel 63 0 current filename (as_unsigned (fds fd).inode) fs)
      (λ r. close_fds fuel left (fd + 1) current r.0 fds r.1)

-- `close`, whose argument is not used. `current` and `filename` are not initialised. Behind the loops
-- `loop_through_fd` is 8, one past the end of the array, where the control block has `pid`: that word
-- is taken as the address of an operation table, whose `close` stands at its byte 4.
unfoldable pub close_file : ℕ → ℕ → ℕ → ℕ → Kernel → Run (ℤ × Kernel)
close_file fuel current filename i k = elim k.filed_array [
  | none ↦ Run.ok (failure, k)
  | some p ↦
      from_option (close_fds fuel fdarray_max 0 current filename (fds_of p k) k.devices.files)
      >>= λ r. stray_access ((k.pcbs p).pid + 4) (set_files r.1 k)
]

-- The loop of `halt` over the descriptors from `i` on.
unfoldable pub close_all : ℕ → ℕ → ℕ → ℕ → ℕ → Kernel → Run Kernel
close_all fuel current filename zero i k = Run.ok k
close_all fuel current filename (suc left) i k =
    close_file fuel current filename i k >>= λ r. close_all fuel current filename left (i + 1) r.1

-- `filed_array[fd].flags = 0`
unfoldable pub clear_flag : ℕ → Kernel → Kernel
clear_flag fd k = elim k.filed_array [
  | none ↦ k
  | some p ↦ set_fd p fd (record (fds_of p k fd) { flags = 0 }) k
]

abbrev pub print_line : String → Kernel → Kernel
print_line line k =
    set_files (record k.devices.files { screen = printf line [] k.devices.files.screen }) k

-- The value that `execute` gets.
abbrev pub halt_result : ℕ → ℕ
halt_result status = if status == 0x0F then 256 else status

-- From the task's stack on. The descriptors of the parent stand at the start of its control block,
-- whose address is not null.
unfoldable pub halt_to : ℕ → ℕ → ℕ → ℕ → ℕ → Kernel → Run (ℤ × Kernel)
halt_to fuel current filename status parent k₀ =
    let k = record k₀ {
      ss0 = kernel_ds;
      esp0 = (k₀.pcbs parent).tss_esp0;
      tables = map_user parent k₀.tables;
    } in
    close_all fuel current filename 6 2 k >>= λ k₁.
    close_file fuel current filename 0 (clear_flag 0 k₁) >>= λ r₀.
    close_file fuel current filename 1 (clear_flag 1 r₀.1) >>= λ r₁. Run.ok (
      pos (halt_result status),
      record r₁.1 { filed_array = some parent; cur_pid = parent; cur_process = some parent },
    )

-- The branch of the process without a parent: "shell" stands at `shell`. If `execute` refuses, the
-- stack's word is read from a control block that would stand at the end of the kernel.
unfoldable pub halt_root : ℕ → Frame → Memory → ℕ → Kernel → Run (ℤ × Kernel)
halt_root fuel f seen shell k₀ =
    let k = record (print_line "can't halt from this process\n" k₀) { cur_pid = no_pid } in
    from_option (execute fuel f seen shell k) >>= λ r.
    if is_zero r.0 then Run.ok r else stray_access (end_of_kernel + 140) r.1

-- Behind the first line that is printed, for the `cur_process_ptr` given. A null one is read at the
-- field `parent_pid`.
unfoldable pub halt_of : ℕ → Frame → Memory → ℕ → ℕ → ℕ → ℕ → Kernel → Option ℕ → Run (ℤ × Kernel)
halt_of fuel f seen shell current filename status k none = stray_access 132 k
halt_of fuel f seen shell current filename status k (some p) =
    let parent = (k.pcbs p).parent_pid in
    if parent == no_pid
    then halt_root fuel f seen shell k
    else halt_to fuel current filename status parent k

-- `halt`, up to that line.
abbrev pub freed : Kernel → Kernel
freed k =
    print_line " enter halt !\n"
      (record k { interrupts = false; pid_check = update k.pid_check k.cur_pid 0 })

unfoldable pub halt_process : ℕ → Frame → Memory → ℕ → ℕ → ℕ → ℕ → Kernel → Run (ℤ × Kernel)
halt_process fuel f seen shell current filename status k =
    halt_of fuel f seen shell current filename status (freed k) k.cur_process
