-- ===== src/Process/Launch.antt =====
-- What `execute` has set up when the new program starts to run.
use mp.Prelude.{
  ℕ, zero, suc, ◌+◌, ◌-◌, ◌*◌, ◌≤◌, ◌<◌, ◌≡◌, refl, ◌≢◌, ◌∙◌, ap, arith, min, Memory, update,
}
use mp.Prelude.{true, ◌&&◌, leb, ltb, ◌==◌, if◌then◌else◌, some}
use mp.FileSystem.{file_length, inodes_num}
use mp.FileSystem.Data.{IsBelowBuffer, byte_of}
use mp.FileSystem.Offsets.{read_data_aligned}
use mp.Paging.Entries.{map_user_lem}
use mp.Process.{Kernel, FdEntry, Frame}
use mp.Process.Globals.{IsLaunched}
use mp.Process.Execute.{terminal_fd, clear_flags, fdarray_init, initialize_pcb, launch}
use mp.Process.{mem_of, user_paddr, user_end}

clear_flags-at :
    (left c : ℕ) (fds : ℕ → FdEntry) (i : ℕ)
    → clear_flags left c fds i
      ≡ (if leb c i && ltb i (c + left) then record (fds i) { flags = 0 } else fds i)
unfolding clear_flags
clear_flags-at zero c fds i = ground arith
clear_flags-at (suc left) c fds i = ground (
  arith,
  clear_flags-at left (c + 1) (λ j. if j == c then record (fds j) { flags = 0 } else fds j) i,
)

fdarray_init-flags :
    (fds : ℕ → FdEntry) (i : ℕ) → i < 8 → (fdarray_init fds i).flags ≡ (if ltb i 2 then 1 else 0)
unfolding fdarray_init
fdarray_init-flags fds i h = ground (
  arith,
  clear_flags-at 6 2 (λ i. if i == 0 then terminal_fd else if i == 1 then terminal_fd else fds i) i,
)

-- When a program in one of the six slots starts, the current process is that slot, its parent is
-- the one that ran before, its kernel stack ends 4 bytes below the next control block, its page is
-- mapped to its own frame, the stack's segment is the kernel's, only descriptors 0 and 1 of the eight are in use, and interrupts are
-- on.
pub launch_lem :
    (f : Frame) (inode : ℕ) (seen : Memory) (pid i : ℕ) (k : Kernel)
    → pid < 6
    → i < 8
    → let k' = launch f inode seen pid k in
      (k'.cur_pid ≡ pid)
      × (k'.filed_array ≡ some pid)
      × ((k'.pcbs pid).parent_pid ≡ k.cur_pid)
      × (k'.esp0 + 4 + 0x2000 * pid ≡ 0x800000)
      × (k'.tables.dt 32 ≡ 0x800087 + pid * 0x400000)
      × (((k'.pcbs pid).fd_array i).flags ≡ (if ltb i 2 then 1 else 0))
      × (k'.interrupts ≡ true)
      × (k'.ss0 ≡ 0x18)
unfolding launch initialize_pcb
launch_lem f inode seen pid i k h hi = (
  refl,
  refl,
  ground arith,
  ground arith,
  (map_user_lem pid 32 k.tables h).0,
  ground (arith, fdarray_init-flags (k.pcbs pid).fd_array i hi),
  refl,
  refl,
)

-- A launch in a free slot, marked as taken.
pub launch-IsLaunched :
    (f : Frame) (inode : ℕ) (seen : Memory) (pid : ℕ) (k : Kernel)
    → pid < 6
    → k.pid_check pid ≡ 0
    → IsLaunched k (launch f inode seen pid (record k { pid_check = update k.pid_check pid 1 })) pid
unfolding launch initialize_pcb
launch-IsLaunched f inode seen pid k h free = record {
  small = h;
  free = free;
  slots = refl;
  cur_pid = refl;
  cur_process = refl;
  filed_array = refl;
  number = ground arith;
  parent = ground arith;
  others = λ j ne. (ground arith, ground arith, ground arith);
  stack = ground arith;
  mapped = (map_user_lem pid 32 k.tables h).0;
}

-- A byte of the file, of the first 4 MB.
pub launch-byte :
    (f : Frame) (inode : ℕ) (seen : Memory) (pid j : ℕ) (k : Kernel)
    → let fs = record k.devices.files { mem = seen } in
      fs.bootblock_head ≢ 0
      → inode ≤ inodes_num fs
      → IsBelowBuffer fs inode (file_length fs inode) user_paddr
      → j < min 0x400000 (file_length fs inode)
      → mem_of (launch f inode seen pid k) (user_paddr + j) ≡ byte_of fs inode j
unfolding launch initialize_pcb
launch-byte f inode seen pid j k hb hi w hj =
    read_data_aligned inode 0 user_paddr 0x400000 j (record k.devices.files { mem = seen }) hb hi
      (omega arith) (omega arith) w refl (omega arith)
    ∙ ap (byte_of (record k.devices.files { mem = seen }) inode) (omega arith)

-- Where the memory seen through the new mapping has the image loaded, with the file of an existing
-- inode below 0x08048000, and no longer than the page from there to its end at 0x08400000, all bytes
-- of the file stand in memory from 0x08048000 on.
pub launch-loads :
    (f : Frame) (inode : ℕ) (seen : Memory) (pid j : ℕ) (k : Kernel)
    → let fs = record k.devices.files { mem = seen } in
      fs.bootblock_head ≢ 0
      → inode ≤ inodes_num fs
      → IsBelowBuffer fs inode (file_length fs inode) user_paddr
      → file_length fs inode ≤ user_end - user_paddr
      → j < file_length fs inode
      → mem_of (launch f inode seen pid k) (user_paddr + j) ≡ byte_of fs inode j
launch-loads f inode seen pid j k hb hi w inside hj =
    launch-byte f inode seen pid j k hb hi w (omega arith)
