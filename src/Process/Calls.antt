-- ===== src/Process/Calls.antt =====
-- `open`, `write` and the system calls without a body of process.c.
use mp.Prelude.{ℕ, zero, suc, ◌+◌, ◌%◌, ◌^◌, Bool, false, ◌||◌, leb, ◌==◌, if◌then◌else◌}
use mp.Prelude.{Option, none, some}
use mp.Prelude.Int.{ℤ, pos, negsuc, failure, ltb_ℤ}
use mp.FileOps.{Fileot, file_operation_table, open_of, write_of}
use mp.FileSystem.{file_type, inode_index, is_zero, read_dentry_by_name, as_unsigned, ◌>>=◌}
pub use mp.FileSystem.{as_signed}
use mp.Process.{user_mem, user_end, fdarray_max, mem_of, set_files, FdEntry, Kernel}

-- The descriptors that `filed_array` points to.
abbrev pub fds_of : ℕ → Kernel → ℕ → FdEntry
fds_of p k = (k.pcbs p).fd_array

abbrev pub set_fd : ℕ → ℕ → FdEntry → Kernel → Kernel
set_fd p fd e k = record k {
  pcbs = λ i.
      if i == p
      then record (k.pcbs i) { fd_array = λ j. if j == fd then e else (k.pcbs i).fd_array j }
      else k.pcbs i;
}

-- The entry that `open` fills for a directory entry of the given type and inode.
abbrev pub opened : Fileot → ℕ → ℕ → FdEntry
opened ops ty inode = record {
  fileot_pointer = ops;
  inode = if ty == 0 then negsuc 0 else pos inode;
  position = 0;
  flags = 1;
}

-- The loop of `open` over the descriptors, from `fd` on. A type that the operation table does not
-- have is outside of C: `none`.
unfoldable pub open_loop : ℕ → ℕ → ℕ → ℕ → ℕ → ℕ → ℕ → Kernel → Option (ℤ × Kernel)
open_loop zero fd fuel p filename ty inode k = some (failure, k)
open_loop (suc left) fd fuel p filename ty inode k =
    let rest = open_loop left (fd + 1) fuel p filename ty inode k in
    let taken = file_operation_table ty >>= λ ops. open_of ops fuel filename k.devices >>= λ r.
    let k' = set_fd p fd (opened ops ty inode) (record k { devices = r.1 }) in
    some (if is_failure r.0 then (failure, k') else (pos fd, k')) in
    if (fds_of p k fd).flags == 0 then taken else rest
  where
    is_failure : ℤ → Bool
    is_failure (pos n) = false
    is_failure (negsuc n) = n == 0

-- `open`. The pointer `current` is not initialised: its value is an argument.
unfoldable pub open_file : ℕ → ℕ → ℕ → Kernel → Option (ℤ × Kernel)
open_file fuel current filename k = elim k.filed_array [
  | none ↦ some (failure, k)
  | some p ↦
      let found = read_dentry_by_name fuel filename current k.devices.files >>= λ r.
      let k' = set_files r.1 k in
      let result =
        open_loop fdarray_max 0 fuel p filename (file_type (mem_of k') current)
          (inode_index (mem_of k') current) k' in
      if is_zero r.0 then result else some (failure, k') in
      if filename == 0 then some (failure, k) else found
]

-- The tests of `write` on its arguments; `fd` is the parameter `offset`. The address and the sum are
-- of int, whose overflow C leaves undefined; here it wraps.
abbrev pub end_of : ℕ → ℤ → ℤ
end_of buf n = as_signed ((buf + as_unsigned n) % 2 ^ 32)

-- Behind the tests on the arguments; a null `filed_array` is outside of the model.
unfoldable pub write_through : ℕ → ℕ → ℤ → Kernel → Option ℕ → Option (ℤ × Kernel)
write_through fd buf n k none = none
write_through fd buf n k (some p) =
    let e = fds_of p k fd in
    let (result, devices) = write_of e.fileot_pointer buf n k.devices in
    if e.flags == 0 then some (failure, k) else some (result, record k { devices = devices })

unfoldable pub write_file : ℕ → ℕ → ℤ → Kernel → Option (ℤ × Kernel)
write_file fd buf n k =
    if ltb_ℤ (as_signed buf) (pos user_mem)
    then some (failure, k)
    else if ltb_ℤ (pos user_end) (end_of buf n)
    then some (failure, k)
    else if leb 7 fd || fd == 0
    then some (failure, k)
    else write_through fd buf n k k.filed_array

-- The calls that do nothing.
unfoldable pub getargs : Kernel → ℤ × Kernel
getargs k = (pos 0, k)

unfoldable pub vidmap : Kernel → ℤ × Kernel
vidmap k = (pos 0, k)

unfoldable pub set_handler : Kernel → ℤ × Kernel
set_handler k = (failure, k)

unfoldable pub sigreturn : Kernel → ℤ × Kernel
sigreturn k = (failure, k)
