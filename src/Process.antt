-- ===== src/Process.antt =====
-- The state that process.c keeps: the process slots, the control blocks and the file descriptors.
pub mod Execute
pub mod Calls
pub mod Parsing
pub mod Slots
pub mod Chain
pub mod Globals
pub mod Keeping
pub mod Descriptors
pub mod Launch
pub mod Outcome
pub mod Returns
pub mod Reading
pub mod Closing
pub mod Faults
pub mod ClockReads
pub mod LineReads
pub mod Halting
pub mod Running
pub mod Tree
pub mod Tests
pub mod DiskTests
pub mod CallTests
pub mod ReturnTests
use mp.Prelude.{
  ℕ, zero, suc, ◌+◌, ◌-◌, ◌*◌, ◌%◌, ◌^◌, Bool, true, false, not, ◌&&◌, ◌||◌, leb, ltb, ◌==◌,
  if◌then◌else◌,
}
use mp.Prelude.{Option, none, some, [], Memory, update}
use mp.Prelude.Int.{ℤ, pos, negsuc, success, failure, pos_part, ltb_ℤ}
use mp.FileOps.{Fileot, terminal_fot, file_operation_table, Devices, open_of, write_of}
use mp.FileSystem.{
  FileSystem, file_type, inode_index, is_zero, read_dentry_by_name, read_data, as_unsigned, ◌>>=◌,
}
use mp.FileSystem.Words.{load32}
use mp.Paging.{Tables, map_user}
use mp.Strings.{printf, strlen}

-- The constants of process.h.
abbrev pub max_process_number : ℕ
max_process_number = 6

abbrev pub user_mem : ℕ
user_mem = 0x08000000

abbrev pub user_end : ℕ
user_end = 0x08400000

abbrev pub user_paddr : ℕ
user_paddr = 0x08048000

abbrev pub kernel_stack_size : ℕ
kernel_stack_size = 0x2000

abbrev pub end_of_kernel : ℕ
end_of_kernel = 0x00800000

abbrev pub user_stack_size : ℕ
user_stack_size = 0x00400000

abbrev pub fdarray_max : ℕ
fdarray_max = 8

-- The kernel's data segment (x86_desc.h).
abbrev pub kernel_ds : ℕ
kernel_ds = 0x18

-- -1 as a uint32_t, which is how a parent that does not exist is stored.
abbrev pub no_pid : ℕ
no_pid = 2 ^ 32 - 1

-- A file descriptor; `fileot_pointer` is the table's entry that it points to.
pub record FdEntry : Type 0 where
  pub fileot_pointer : Fileot
  pub inode : ℤ
  pub position : ℕ
  pub flags : ℕ

pub record Pcb : Type 0 where
  pub fd_array : ℕ → FdEntry
  pub pid : ℕ
  pub parent_pid : ℕ
  pub tss_esp0 : ℕ
  pub scheduled_esp : ℕ
  pub scheduled_ebp : ℕ

-- The globals. A control block stands at a fixed place for its process, so `pcbs` has them by number,
-- and `cur_process` and `filed_array` name the one they point to, or none.
pub record Kernel : Type 0 where
  pub devices : Devices
  pub tables : Tables
  pub pid_check : ℕ → ℕ
  pub cur_pid : ℕ
  pub pcbs : ℕ → Pcb
  pub cur_process : Option ℕ
  pub filed_array : Option ℕ
  pub esp0 : ℕ
  pub ss0 : ℕ
  pub interrupts : Bool

-- The kernel stack's variables by their addresses, and the registers that `initialize_PCB` saves.
pub record Frame : Type 0 where
  pub file_command : ℕ
  pub arg_command : ℕ
  pub check_dentry : ℕ
  pub data_buf : ℕ
  pub esp : ℕ
  pub ebp : ℕ

abbrev pub mem_of : Kernel → Memory
mem_of k = k.devices.files.mem

abbrev pub set_files : FileSystem → Kernel → Kernel
set_files fs k = record k { devices = record k.devices { files = fs } }

abbrev pub set_mem : Memory → Kernel → Kernel
set_mem m k = set_files (record k.devices.files { mem = m }) k
