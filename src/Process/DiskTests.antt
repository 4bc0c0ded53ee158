-- ===== src/Process/DiskTests.antt =====
-- A disk with the clock's entry "rtc" and a program of six bytes.
use mp.Prelude.{
  ℕ, ◌+◌, ◌*◌, ◌<◌, ◌≡◌, refl, ◌∙◌, arith, inl, inr, ◌≤◌, true, some, ◌==◌, if◌then◌else◌, Memory,
}
use mp.Prelude.Int.{pos, negsuc, success, failure}
use mp.Strings.{strlen, strncmp}
use mp.Strings.Lengths.{IsBytes, IsText}
use mp.FileSystem.{
  FileSystem, file_type, name_matches, read_dentry_by_name, read_dentry_by_index, ◌>>=◌,
}
use mp.FileSystem.Words.{load32}
use mp.FileSystem.Lookup.{read_dentry_by_name-first}
use mp.FileSystem.Data.{IsBelowBuffer}
use mp.FileSystem.{directory_read}
use mp.FileSystem.Names.{directory_read-first}
use mp.FileSystem.Header.{IsEntry, IsCopied, read_dentry_by_index-copies}
use mp.Prelude.{ap, Option}
use mp.Prelude.Int.{ℤ}
use mp.Process.{Kernel, set_files, mem_of, user_paddr}
use mp.Process.Execute.{launch, terminal_fd}
use mp.Process.Calls.{open_file, fds_of}
use mp.Process.Launch.{launch-loads}
use mp.Process.Execute.{
  execute, run_command, run_parsed, run_checked, check_file, parse, skip_spaces, copy_name,
  copy_args,
}
use mp.FileSystem.{scan, read_data}
use mp.Prelude.{update, false}
use mp.Process.Descriptors.{open_file-clock}
use mp.FileOps.{rtc_fot}
use mp.Prelude.{◌≢◌, ◌⊎◌}
use mp.Process.Tests.{kernel, frame, files, block}

abbrev pub disk : Memory
disk a =
    if a == 0x500000
    then 1
    else if a == 0x500004
    then 2
    else if a == 0x500040
    then b'r'
    else if a == 0x500041
    then b't'
    else if a == 0x500042
    then b'c'
    else if a == 0x502000
    then 6
    else if a == 0x503000
    then 0x7F
    else if a == 0x503001
    then b'E'
    else if a == 100
    then b'r'
    else if a == 101
    then b't'
    else if a == 102
    then b'c'
    else 0

abbrev pub drive : FileSystem
drive = record files { mem = disk; datablock_ptr = 0x503000 }

abbrev pub machine : Kernel
machine = set_files drive kernel

pub disk-IsBytes : IsBytes disk
disk-IsBytes a = ground arith

pub clock-IsEntry : IsEntry disk 0x500040 3 0
clock-IsEntry = record {
  name = record { ends = refl; inside = λ j h. ground arith };
  name_fits = omega arith;
  reserved = record { ends = refl; inside = λ j h. elim h [ ] };
  reserved_fits = omega arith;
}

matches : name_matches 40 100 0 drive ≡ some true
unfolding name_matches strlen strncmp
matches = refl

copied :
    (fs' : FileSystem) × (read_dentry_by_index 40 0 280 drive ≡ some (success, fs'))
    × IsCopied disk fs'.mem 0x500040 280 3
    × (fs'.bootblock_head ≡ 0x500000)
    × (fs'.curdentry ≡ 0x500000)
unfolding load32
copied =
    read_dentry_by_index-copies 40 0 280 3 0 drive disk-IsBytes clock-IsEntry (omega arith)
      (inl (omega arith)) (omega arith)

looked_up : read_dentry_by_name 40 100 280 drive ≡ some (success, copied.0)
unfolding load32
looked_up =
    read_dentry_by_name-first 40 100 280 0 drive (omega arith) (omega arith) (λ j h. elim h [ ])
      matches
    ∙ ap (λ (o : Option (ℤ × FileSystem)). o >>= λ r. some (success, r.1)) copied.1

type_zero : file_type copied.0.mem 280 ≡ 0
unfolding load32
type_zero = copied.2.same_type

-- Descriptor 1 is in use, so 0 is given out.
open_file-clock_example :
    (k' : Kernel) × (open_file 40 280 100 machine ≡ some (pos 0, k'))
    × ((fds_of 0 k' 0).fileot_pointer ≡ rtc_fot)
    × ((fds_of 0 k' 0).inode ≡ negsuc 0)
    × ((fds_of 0 k' 0).position ≡ 0)
    × ((fds_of 0 k' 0).flags ≡ 1)
    × ((q j : ℕ) → (q ≢ 0) ⊎ (j ≢ 0) → fds_of q k' j ≡ fds_of q machine j)
    × (k'.devices.rtc.rtc_freq ≡ 2)
    × (k'.devices.files ≡ copied.0)
open_file-clock_example =
    open_file-clock 40 280 100 0 0 machine copied.0 refl (omega arith) looked_up type_zero
      (omega arith) refl (λ j h. elim h [ ])

abbrev busy : Kernel
busy = record machine { pcbs = λ i. record block { fd_array = λ j. terminal_fd } }

only_block : (i : ℕ) → i < 1 → load32 disk (0x502000 + 4 + 4 * i) ≡ 0
unfolding load32
only_block i h = ground arith

below : IsBelowBuffer drive 1 6 user_paddr
below = record { node_below = omega arith; block_below = λ i h. ground (arith, only_block i h) }

launch-loads_example : mem_of (launch frame 1 disk 1 machine) (user_paddr + 1) ≡ b'E'
unfolding load32
launch-loads_example =
    launch-loads frame 1 disk 1 1 machine (omega arith) (omega arith) below (omega arith)
      (omega arith)

-- The empty command at 110 names no file.
abbrev refusal : ℤ × Kernel
refusal = (
  failure,
  set_files (record drive { mem = update disk 200 0 }) (record machine { interrupts = false }),
)

empty_command : execute 40 frame disk 110 machine ≡ some refusal
unfolding execute run_command run_parsed run_checked check_file parse skip_spaces copy_name
    copy_args strlen strncmp load32 scan read_dentry_by_name name_matches read_data
empty_command = refl

-- The two bytes from 101 on are the name that was looked up before.
abbrev again : FileSystem
again = record drive { curdentry = 101 }

again_matches : name_matches 40 100 0 again ≡ some true
unfolding name_matches strlen strncmp
again_matches = refl

old_name : IsText disk 101 2
old_name = record { ends = ground arith; inside = λ j h. ground arith }

directory_read-first_example :
    (fs' : FileSystem) × (directory_read 40 100 0x400 (pos 32) again ≡ some (pos 2, fs'))
    × (1 < 2 → 1 ≤ 3 → fs'.mem 0x401 ≡ b't')
unfolding load32
directory_read-first_example =
    directory_read-first 40 100 0x400 32 0 3 0 2 1 again disk-IsBytes clock-IsEntry old_name
      (omega arith) (omega arith) (omega arith) (omega arith) (inl (omega arith))
      (inr (omega arith)) (omega arith) (λ j h. elim h [ ]) again_matches
