-- ===== src/Process/Descriptors.antt =====
-- Which descriptor `open` fills, and what `write` refuses.
use mp.Prelude.{ℕ, zero, suc, ◌+◌, ◌^◌, ◌≤◌, ◌<◌, ◌≡◌, refl, ◌≢◌, ◌⊎◌, ◌∙◌, ap, arith, some}
use mp.Prelude.{ℕ_discrete}
use mp.Prelude.Int.{ℤ, pos, negsuc, success, failure}
use mp.FileOps.{Fileot, rtc_fot, terminal_fot, Devices, file_operation_table, open_of, write_of}
use mp.FileSystem.{FileSystem, file_type, inode_index, read_dentry_by_name}
use mp.Terminal.Output.{write_loop, terminal_write}
use mp.Rtc.{rtc_open}
use mp.FileOps.{rtcopen}
use mp.Process.{Kernel, set_files, mem_of}
use mp.Process.Calls.{fds_of, set_fd, opened, open_loop, open_file}
use mp.Process.{user_mem, user_end}
use mp.Process.Calls.{write_file, write_through}

module _ (fuel p filename ty inode : ℕ) (k : Kernel) where
  -- Descriptor `j` is in use.
  abbrev pub IsBusy : ℕ → Type 0
  IsBusy j = (fds_of p k j).flags ≢ 0

  open_loop-go :
      (left fd : ℕ)
      → IsBusy fd
      → open_loop (suc left) fd fuel p filename ty inode k
        ≡ open_loop left (fd + 1) fuel p filename ty inode k
  unfolding open_loop
  open_loop-go left fd h = ground arith

  open_loop-skip :
      (left fd i : ℕ)
      → fd ≤ i
      → i < fd + left
      → ((j : ℕ) → fd ≤ j → j < i → IsBusy j)
      → (rest : ℕ) × (open_loop left fd fuel p filename ty inode k
          ≡ open_loop (suc rest) i fuel p filename ty inode k)
  open_loop-skip zero fd i lo hi busy = absurd (omega arith)
  open_loop-skip (suc left) fd i lo hi busy = elim (ℕ_discrete fd i) [
    | yes e ↦ (left, ap (λ (x : ℕ). open_loop (suc left) x fuel p filename ty inode k) e)
    | no ne ↦
        let (rest, e) =
          open_loop-skip left (fd + 1) i (omega arith) (omega arith)
            (λ j a b. busy j (omega arith) b) in
        (rest, open_loop-go left fd (busy fd (omega arith) (omega arith)) ∙ e)
  ]

  open_loop-full :
      (left fd : ℕ)
      → ((j : ℕ) → fd ≤ j → j < fd + left → IsBusy j)
      → open_loop left fd fuel p filename ty inode k ≡ some (failure, k)
  open_loop-full zero fd busy = unfold open_loop in refl
  open_loop-full (suc left) fd busy =
      open_loop-go left fd (busy fd (omega arith) (omega arith))
      ∙ open_loop-full left (fd + 1) (λ j a b. busy j (omega arith) (omega arith))

-- The kernel after `open` has given out descriptor `i` for the clock.
abbrev clock_opened : ℕ → ℕ → ℕ → Kernel → Kernel
clock_opened p i inode k =
    set_fd p i (opened rtc_fot 0 inode)
      (record k { devices = record k.devices { rtc = (rtc_open k.devices.rtc).1 } })

open_loop-clock :
    (rest i fuel p filename inode : ℕ) (k : Kernel)
    → (fds_of p k i).flags ≡ 0
    → open_loop (suc rest) i fuel p filename 0 inode k ≡ some (pos i, clock_opened p i inode k)
unfolding open_loop file_operation_table open_of rtcopen
open_loop-clock rest i fuel p filename inode k h = ground arith

open_file-found :
    (fuel current filename p : ℕ) (k : Kernel) (fs : FileSystem)
    → k.filed_array ≡ some p
    → filename ≢ 0
    → read_dentry_by_name fuel filename current k.devices.files ≡ some (success, fs)
    → open_file fuel current filename k
      ≡ open_loop 8 0 fuel p filename
          (file_type fs.mem current)
          (inode_index fs.mem current)
          (set_files fs k)
unfolding open_file
open_file-found fuel current filename p k fs e ne found = rw e (rw found (ground arith))

opens_clock :
    (fuel current filename p i : ℕ) (k : Kernel) (fs : FileSystem)
    → k.filed_array ≡ some p
    → filename ≢ 0
    → read_dentry_by_name fuel filename current k.devices.files ≡ some (success, fs)
    → file_type fs.mem current ≡ 0
    → i < 8
    → (fds_of p k i).flags ≡ 0
    → ((j : ℕ) → j < i → (fds_of p k j).flags ≢ 0)
    → open_file fuel current filename k
      ≡ some (pos i, clock_opened p i (inode_index fs.mem current) (set_files fs k))
opens_clock fuel current filename p i k fs e ne found ty hi free busy =
    let inode = inode_index fs.mem current in
    let (rest, skip) =
      open_loop-skip fuel p filename 0 inode (set_files fs k) 8 0 i (omega arith) (omega arith)
        (λ j a b. busy j b) in
    open_file-found fuel current filename p k fs e ne found
    ∙ (ap (λ (t : ℕ). open_loop 8 0 fuel p filename t inode (set_files fs k)) ty
        ∙ (skip ∙ open_loop-clock rest i fuel p filename inode (set_files fs k) free))

-- If the lookup finds an entry of the clock's type, and `i` is the lowest descriptor that is free,
-- `open` returns `i`, and leaves a kernel in which descriptor `i` has the clock's operations, inode
-- -1, position 0 and flags 1, every other descriptor is as before, the clock's frequency is 2 Hz, and
-- the files are as the lookup left them.
pub open_file-clock :
    (fuel current filename p i : ℕ) (k : Kernel) (fs : FileSystem)
    → k.filed_array ≡ some p
    → filename ≢ 0
    → read_dentry_by_name fuel filename current k.devices.files ≡ some (success, fs)
    → file_type fs.mem current ≡ 0
    → i < 8
    → (fds_of p k i).flags ≡ 0
    → ((j : ℕ) → j < i → (fds_of p k j).flags ≢ 0)
    → (k' : Kernel) × (open_file fuel current filename k ≡ some (pos i, k'))
      × ((fds_of p k' i).fileot_pointer ≡ rtc_fot)
      × ((fds_of p k' i).inode ≡ negsuc 0)
      × ((fds_of p k' i).position ≡ 0)
      × ((fds_of p k' i).flags ≡ 1)
      × ((q j : ℕ) → (q ≢ p) ⊎ (j ≢ i) → fds_of q k' j ≡ fds_of q k j)
      × (k'.devices.rtc.rtc_freq ≡ 2)
      × (k'.devices.files ≡ fs)
unfolding rtc_open
open_file-clock fuel current filename p i k fs e ne found ty hi free busy =
    let k' = clock_opened p i (inode_index fs.mem current) (set_files fs k) in
    (
      k',
      opens_clock fuel current filename p i k fs e ne found ty hi free busy,
      ground arith,
      ground arith,
      ground arith,
      ground arith,
      λ q j h. ground (arith, h),
      refl,
      refl,
    )

-- If the lookup finds the file, and all eight descriptors are in use, `open` returns -1, and only
-- the lookup has done anything.
pub open_file-full :
    (fuel current filename p : ℕ) (k : Kernel) (fs : FileSystem)
    → k.filed_array ≡ some p
    → filename ≢ 0
    → read_dentry_by_name fuel filename current k.devices.files ≡ some (success, fs)
    → ((j : ℕ) → j < 8 → (fds_of p k j).flags ≢ 0)
    → open_file fuel current filename k ≡ some (failure, set_files fs k)
open_file-full fuel current filename p k fs e ne found busy =
    open_file-found fuel current filename p k fs e ne found
    ∙ open_loop-full fuel p filename (file_type fs.mem current) (inode_index fs.mem current)
        (set_files fs k) 8 0 (λ j a b. busy j b)

-- With a length that is not negative, and an end below 2^31, `write` refuses with -1, and changes
-- nothing, for a buffer that starts below the program's page or ends above it, for descriptor 0
-- and any from 7 on, and for one that is not in use.
pub write_file-refuses :
    (fd buf n p : ℕ) (k : Kernel)
    → k.filed_array ≡ some p
    → buf + n < 2 ^ 31
    → (buf < user_mem) ⊎ (user_end < buf + n) ⊎ (fd ≡ 0) ⊎ (7 ≤ fd) ⊎ ((fds_of p k fd).flags ≡ 0)
    → write_file fd buf (pos n) k ≡ some (failure, k)
unfolding write_file write_through
write_file-refuses fd buf n p k e small h = ground (arith, e)

write_file-goes :
    (fd buf n p : ℕ) (k : Kernel)
    → k.filed_array ≡ some p
    → user_mem ≤ buf
    → buf + n ≤ user_end
    → 0 < fd
    → fd < 7
    → (fds_of p k fd).flags ≢ 0
    → let (result, devices) = write_of (fds_of p k fd).fileot_pointer buf (pos n) k.devices in
      write_file fd buf (pos n) k ≡ some (result, record k { devices = devices })
unfolding write_file write_through
write_file-goes fd buf n p k e lo hi f0 f7 fl = ground (arith, e)

terminal-writes :
    (buf n : ℕ) (d : Devices)
    → write_of terminal_fot buf (pos n) d ≡ (
      pos n,
      record d {
        files = record d.files {
          screen = write_loop n 0 (λ i. d.files.mem (buf + i)) d.files.screen;
        };
      },
    )
unfolding write_of terminal_write
terminal-writes buf n d = refl

-- `write` of `n` bytes of the program's page to a descriptor from 1 to 6 that is in use and the
-- terminal's prints the bytes in order, from the first, and returns their number.
pub write_file-terminal :
    (fd buf n p : ℕ) (k : Kernel)
    → k.filed_array ≡ some p
    → user_mem ≤ buf
    → buf + n ≤ user_end
    → 0 < fd
    → fd < 7
    → (fds_of p k fd).flags ≢ 0
    → (fds_of p k fd).fileot_pointer ≡ terminal_fot
    → write_file fd buf (pos n) k
      ≡ some (
        pos n,
        set_files
            (record k.devices.files {
              screen = write_loop n 0 (λ i. mem_of k (buf + i)) k.devices.files.screen;
            })
            k,
      )
write_file-terminal fd buf n p k e lo hi f0 f7 fl t =
    write_file-goes fd buf n p k e lo hi f0 f7 fl
    ∙ ap (λ (r : ℤ × Devices). some (r.0, record k { devices = r.1 }))
        (ap (λ (o : Fileot). write_of o buf (pos n) k.devices) t ∙ terminal-writes buf n k.devices)
