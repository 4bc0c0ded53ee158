-- ===== src/Process/Execute.antt =====
-- `execute` and `initialize_PCB` of process.c.
use mp.Prelude.{
  ℕ, zero, suc, ◌+◌, ◌-◌, ◌*◌, Bool, true, false, not, ◌&&◌, ◌||◌, ltb, leb, ◌==◌, if◌then◌else◌,
}
use mp.Prelude.{Option, none, some, [], Memory, update}
use mp.Prelude.Int.{ℤ, pos, negsuc, success, failure}
use mp.FileOps.{terminal_fot}
use mp.FileSystem.{
  file_name_length, file_length, inodes_num, FileSystem, inode_index, is_zero, read_dentry_by_name,
  read_data, ◌>>=◌,
}
use mp.Paging.{map_user}
use mp.Strings.{printf, strlen}
use mp.Process.{
  max_process_number, user_paddr, user_end, kernel_ds, kernel_stack_size, end_of_kernel,
  user_stack_size, no_pid, mem_of, set_files, set_mem, FdEntry, Pcb, Kernel, Frame,
}

-- `while(command[i] == ' ') i++`
unfoldable pub skip_spaces : ℕ → ℕ → ℕ → Memory → Option ℕ
skip_spaces zero command i m = none
skip_spaces (suc fuel) command i m =
    let rest = skip_spaces fuel command (i + 1) m in
    if m (command + i) == b' ' then rest else some i

-- The loop over the rest of the command, with the rounds left. The test is of `command[cmd_curindex]`,
-- the character that the loop started at, and not of `command[i]`. The bytes go to flat memory, also
-- behind the 32 of the array; `run_command` has no result then.
unfoldable pub copy_name : ℕ → ℕ → ℕ → ℕ → ℕ → ℕ → Memory → ℕ × Memory
copy_name zero command dest cmd_curindex i fcmd_curindex m = (fcmd_curindex, m)
copy_name (suc left) command dest cmd_curindex i fcmd_curindex m =
    let copied =
      copy_name left command dest cmd_curindex (i + 1) (fcmd_curindex + 1)
        (update m (dest + fcmd_curindex) (m (command + i))) in
    let skipped = copy_name left command dest cmd_curindex (i + 1) fcmd_curindex m in
    if not (m (command + cmd_curindex) == b' ')
    then copied
    else if not (fcmd_curindex == 0)
    then (fcmd_curindex, m)
    else skipped

-- The loop of the arguments. `arg_start` does not change, so once entered at another character than
-- a space it does not end: `none`.
unfoldable pub copy_args : ℕ → ℕ → ℕ → ℕ → ℕ → ℕ → Memory → Option Memory
copy_args zero command dest arg_start cmd_length i m = none
copy_args (suc fuel) command dest arg_start cmd_length i m =
    let rest =
      copy_args fuel command dest arg_start cmd_length (i + 1)
        (update m (dest + i) (m (command + (arg_start + i)))) in
    if not (ltb arg_start cmd_length)
    then some m
    else if not (m (command + arg_start) == b' ')
    then rest
    else some (update m (dest + i) 0)

-- The part of `execute` that reads the command.
unfoldable pub parse : ℕ → Frame → ℕ → ℕ → Memory → Option Memory
parse fuel f command cmd_length m = skip_spaces fuel command 0 m >>= λ cur.
    let (n, m₁) = copy_name (cmd_length - cur) command f.file_command cur cur 0 m in
    let m₂ = update m₁ (f.file_command + n) 0 in
    skip_spaces fuel command (cur + n) m₂ >>= λ arg_start.
    copy_args fuel command f.arg_command arg_start cmd_length 0 m₂

-- The first four bytes of a program.
unfoldable pub is_program : ℕ → Memory → Bool
is_program buf m =
    m buf == 0x7F && m (buf + 1) == 0x45 && m (buf + 2) == 0x4C && m (buf + 3) == 0x46

-- The loop over `pid_check`, from `i` on: the number given, and the slots with it taken.
unfoldable pub take_pid : ℕ → ℕ → (ℕ → ℕ) → Option (ℕ × (ℕ → ℕ))
take_pid zero i check = none
take_pid (suc left) i check =
    let rest = take_pid left (i + 1) check in
    if check i == 0 then some (i, update check i 1) else rest

unfoldable pub allocate_pid : (ℕ → ℕ) → Option (ℕ × (ℕ → ℕ))
allocate_pid check = take_pid max_process_number 0 check

abbrev pub pcb_address : ℕ → ℕ
pcb_address pid = end_of_kernel - kernel_stack_size * (pid + 1)

-- What `initialize_PCB` makes of the descriptors: the two of the terminal, and no other in use.
abbrev pub terminal_fd : FdEntry
terminal_fd = record { fileot_pointer = terminal_fot; inode = pos 0; position = 0; flags = 1 }

unfoldable pub clear_flags : ℕ → ℕ → (ℕ → FdEntry) → ℕ → FdEntry
clear_flags zero count fds = fds
clear_flags (suc left) count fds =
    clear_flags left (count + 1) (λ i. if i == count then record (fds i) { flags = 0 } else fds i)

unfoldable pub fdarray_init : (ℕ → FdEntry) → ℕ → FdEntry
fdarray_init fds =
    clear_flags 6 2 (λ i. if i == 0 then terminal_fd else if i == 1 then terminal_fd else fds i)

-- The address of a control block is not null, so the branch for a null `fd_array` is never taken.
unfoldable pub initialize_pcb : Frame → ℕ → Kernel → Kernel
initialize_pcb f new_pid k =
    let parent = k.cur_pid in
    let pcb : Pcb = record (k.pcbs new_pid) {
      pid = new_pid;
      parent_pid = parent;
      tss_esp0 = pcb_address new_pid + kernel_stack_size - 4;
      fd_array = fdarray_init (k.pcbs new_pid).fd_array;
    } in
    let pcbs : ℕ → Pcb = λ i. if i == new_pid then pcb else k.pcbs i in
    let saved : ℕ → Pcb = λ i.
      if i == parent
      then record (pcbs i) { scheduled_esp = f.esp; scheduled_ebp = f.ebp }
      else pcbs i in
    record k {
      pcbs = if parent == no_pid then pcbs else saved;
      cur_process = some new_pid;
      cur_pid = new_pid;
      filed_array = some new_pid;
    }

-- Whether `read_data` stays within the program's page: a longer file goes on behind 0x08400000, where
-- nothing is mapped. The places of the image do not change.
abbrev pub loads_inside : Memory → ℕ → Kernel → Bool
loads_inside seen inode k =
    let fs : FileSystem = record k.devices.files { mem = seen } in
    ltb (inodes_num fs) inode || leb (file_length fs inode) (user_end - user_paddr)

-- The steps from the mapping of the new process to `sti`. What the addresses of the program show once
-- its page is mapped is given: `seen` is the memory after the switch.
unfoldable pub launch : Frame → ℕ → Memory → ℕ → Kernel → Kernel
launch f inode seen new_pid k =
    let mapped = set_mem seen (record k { tables = map_user new_pid k.tables }) in
    let loaded =
      set_files (read_data inode 0 user_paddr user_stack_size mapped.devices.files).1 mapped in
    let created = initialize_pcb f new_pid loaded in
    record created { esp0 = (created.pcbs new_pid).tss_esp0; ss0 = kernel_ds; interrupts = true }

-- The checks of the file: the lookup, the first four bytes, and their comparison. The result is the
-- inode and the file system, or the file system of a refusal.
pub data Checked : Type 0 where
  program : ℕ → FileSystem → Checked
  refused : FileSystem → Checked

unfoldable pub check_file : ℕ → Frame → FileSystem → Option Checked
check_file fuel f fs = read_dentry_by_name fuel f.file_command f.check_dentry fs >>= λ r.
    let inode = inode_index r.1.mem f.check_dentry in
    let (count, fs₂) = read_data inode 0 f.data_buf 4 r.1 in
    some (
      if not (is_zero r.0)
      then refused r.1
      else if is_failure count
      then refused fs₂
      else if not (is_program f.data_buf fs₂.mem)
      then refused fs₂
      else program inode fs₂)
  where
    is_failure : ℤ → Bool
    is_failure (pos n) = false
    is_failure (negsuc n) = n == 0

-- The part of `execute` behind the checks. What it returns on success goes to the new program, which
-- runs from then on. A file that does not fit faults, and has no result.
unfoldable pub start : Frame → Memory → ℕ → Bool → Kernel → Option (ℤ × Kernel)
start f seen inode fits k = elim (allocate_pid k.pid_check) [
  | none ↦ some (
    failure,
    set_files
        (record k.devices.files {
          screen = printf "No more process avaliable now !\n" [] k.devices.files.screen;
        })
        k,
  )
  | some (new_pid, check) ↦
      if fits
      then some (success, launch f inode seen new_pid (record k { pid_check = check }))
      else none
]

unfoldable pub run_checked : Frame → Memory → Kernel → Checked → Option (ℤ × Kernel)
run_checked f seen k (program inode fs) =
    start f seen inode (loads_inside seen inode k) (set_files fs k)
run_checked f seen k (refused fs) = some (failure, set_files fs k)

-- From the parsed command on, with the memory that it leaves.
unfoldable pub run_parsed : ℕ → Frame → Memory → Kernel → Memory → Option (ℤ × Kernel)
run_parsed fuel f seen k m =
    check_file fuel f (record k.devices.files { mem = m }) >>= run_checked f seen k

-- From the test for the null pointer on. A name that has not ended within the 32 bytes of
-- `file_command` has overwritten the stack behind them, and what follows is undefined: no result.
unfoldable pub run_command : ℕ → Frame → Memory → ℕ → Kernel → ℕ → Option (ℤ × Kernel)
run_command fuel f seen command k cmd_length =
    let fs = k.devices.files in
    let no_command = set_files (record fs { screen = printf "No command now \n" [] fs.screen }) k in
    let parsed = parse fuel f command cmd_length (mem_of k) >>= λ m.
    strlen file_name_length m f.file_command >>= λ _. run_parsed fuel f seen k m in
    if command == 0 then some (failure, no_command) else parsed

-- `strlen(command)`, which comes before the test for the null pointer and faults on it: no result.
abbrev pub command_length : ℕ → Memory → ℕ → Option ℕ
command_length fuel m command = if command == 0 then none else strlen fuel m command

-- `execute`. Every return but the last comes before `sti`.
unfoldable pub execute : ℕ → Frame → Memory → ℕ → Kernel → Option (ℤ × Kernel)
execute fuel f seen command k₀ =
    let k = record k₀ { interrupts = false } in
    command_length fuel (mem_of k) command >>= λ cmd_length.
    run_command fuel f seen command k cmd_length
