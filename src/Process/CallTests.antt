-- ===== src/Process/CallTests.antt =====
-- System calls of a process that runs.
use mp.Prelude.{
  ℕ, ◌+◌, ◌*◌, ◌≤◌, ◌<◌, ◌≡◌, refl, arith, inl, none, some, ◌∙◌, ◌==◌, if◌then◌else◌, Memory,
  ℕ_discrete,
}
use mp.Prelude.{zero, suc, get_or, [], ◌∷◌, replicate}
use mp.Prelude.Int.{ℤ, pos, success, failure}
use mp.Prelude.Runs.{Run, exception, page_fault}
use mp.Rtc.{Rtc}
use mp.Rtc.Read.{spread}
use mp.FileOps.{rtc_fot}
use mp.FileSystem.{FileSystem, dentry_num}
use mp.FileSystem.Words.{load32}
use mp.FileSystem.Header.{IsEntry}
use mp.FileSystem.Directory.{IsDirectory}
use mp.FileSystem.{read_dentry_by_index}
use mp.Keyboard.{keyboard_read}
use mp.Paging.{Tables, paging_init, map_user}
use mp.Paging.Access.{translate, paging_init-translate, map_user-translate}
use mp.Process.{Kernel, mem_of, no_pid, set_files}
use mp.Process.Execute.{
  terminal_fd, execute, run_command, run_parsed, run_checked, check_file, parse, skip_spaces,
  copy_name, copy_args, start, allocate_pid, take_pid, is_program,
}
use mp.Prelude.{Option, List}
use mp.Strings.{strlen, strncmp, strcpy, memcpy, copy_bytes, copy_longs}
use mp.FileSystem.Words.{store32}
use mp.FileSystem.{scan, read_dentry_by_name, name_matches, copy_dentry, read_data, read_blocks}
use mp.Process.Globals.{IsRunning}
use mp.Process.Running.{interrupted, here, and_then, first_program-IsRunning}
use mp.Process.Chain.{HasChain}
use mp.Process.Tree.{first_program-HasChain}
use mp.Process.Reading.{read_file}
use mp.Process.Closing.{halt_process}
use mp.Process.ClockReads.{read_file-clock}
use mp.Process.LineReads.{read_file-terminal}
use mp.Process.Faults.{halt_process-faults}
use mp.Process.Tests.{kernel, frame, block}
use mp.Process.DiskTests.{disk, drive, disk-IsBytes, clock-IsEntry}

drive-entry : (index : ℕ) → index ≤ 1 → (n : ℕ) × (r : ℕ) × IsEntry disk (0x500040 + 64 * index) n r
drive-entry index le = elim (ℕ_discrete index 0) [
  | yes e ↦ (3, 0, rw e clock-IsEntry)
  | no ne ↦ (
    0,
    0,
    record {
      name = record { ends = ground arith; inside = λ j h. elim h [ ] };
      name_fits = omega arith;
      reserved = record { ends = ground arith; inside = λ j h. elim h [ ] };
      reserved_fits = omega arith;
    },
  )
]

pub drive-IsDirectory : IsDirectory 400 drive
unfolding load32
drive-IsDirectory = record {
  bytes = disk-IsBytes;
  entry = λ index le. drive-entry index le;
  apart = inl (omega arith);
}

-- Process 1, whose parent is process 0.
abbrev pages : Tables
pages = map_user 1 (paging_init (record { dt = λ n. 0; pt = λ n. 0; pt_address = 0x3000 }))

abbrev pub child : Kernel
child = record (set_files drive kernel) {
  tables = pages;
  pid_check = λ j. if j == 0 then 1 else if j == 1 then 1 else 0;
  cur_pid = 1;
  cur_process = some 1;
  filed_array = some 1;
  pcbs = λ i. record block {
    pid = i;
    parent_pid = if i == 0 then no_pid else 0;
    fd_array = λ j. if j == 2 then record terminal_fd { fileot_pointer = rtc_fot } else terminal_fd;
  };
  esp0 = 0x7FDFFC;
}

unmapped : translate pages 5 ≡ none
unmapped =
    map_user-translate (paging_init (record { dt = λ n. 0; pt = λ n. 0; pt_address = 0x3000 })) 1 5
      (omega arith)
    ∙ paging_init-translate (record { dt = λ n. 0; pt = λ n. 0; pt_address = 0x3000 }) 5 refl
        (omega arith) (omega arith)

halt_process-faults_example : halt_process 40 frame disk 110 400 0 3 child ≡ exception page_fault
halt_process-faults_example =
    halt_process-faults 40 frame disk 110 400 0 3 1 1 child (omega arith) refl (omega arith) refl
      (omega arith) drive-IsDirectory unmapped

-- The frequency is 1024, so one interrupt is enough.
abbrev ticking : Kernel
ticking = record child {
  devices = record child.devices {
    rtc = record child.devices.rtc { rtc_freq = 1024; rtc_interrupt = 0 };
  };
}

read_file-clock_example :
    (r : Rtc) × (read_file 40 400 0 2 0x08048000 (pos 4) ticking (spread (3 ∷ []) [])
      ≡ Run.ok (failure, record ticking { devices = record ticking.devices { rtc = r } }, []))
    × (r.rtc_interrupt ≡ 0)
    × (r.rtc_freq ≡ 1024)
read_file-clock_example =
    read_file-clock 40 400 0 2 0x08048000 4 1 ticking (3 ∷ []) [] refl (omega arith) (omega arith)
      (omega arith) (omega arith) (omega arith) refl (omega arith) refl refl

zero_at : (n j : ℕ) → ◌≡◌ {A = ℕ} (get_or (replicate n 0) j 0) 0
zero_at zero j = refl
zero_at (suc n) zero = refl
zero_at (suc n) (suc j) = zero_at n j

pub small : (j : ℕ) → keyboard_read j child.devices.terminal.keyboard < 256
unfolding keyboard_read
small j = omega (arith, zero_at 128 j)

pub few : 0x500000 + 128 + 64 * dentry_num drive ≤ 0x08000000
unfolding load32
few = omega arith

pub same_inode : ◌≡◌ {A = ℕ} 0 (load32 disk (0x500040 + 36))
unfolding load32
same_inode = refl

read_file-terminal_example :
    (k' : Kernel) × (read_file 40 400 0 0 0x08048000 (pos 4) child [] ≡ Run.ok (pos 4, k', []))
    × ((j : ℕ)
        → j < 4
        → mem_of k' (0x08048000 + j) ≡ keyboard_read j child.devices.terminal.keyboard)
read_file-terminal_example =
    read_file-terminal 40 400 0 0 0x08048000 4 1 child [] refl (omega arith) (omega arith)
      (omega arith) (omega arith) (omega arith) refl (omega arith) (omega arith) (omega arith)
      (λ j. small j) drive-IsDirectory few same_inode

-- A disk with the program "a" at inode 1, and the command "a" at 100.
abbrev pub program_disk : Memory
program_disk a =
    if a == 0x500000
    then 1
    else if a == 0x500004
    then 2
    else if a == 0x500040
    then b'a'
    else if a == 0x500060
    then 2
    else if a == 0x500064
    then 1
    else if a == 0x502000
    then 6
    else if a == 0x503000
    then 0x7F
    else if a == 0x503001
    then b'E'
    else if a == 0x503002
    then b'L'
    else if a == 0x503003
    then b'F'
    else if a == 100
    then b'a'
    else 0

abbrev pub idle : Kernel
idle = record (set_files (record drive { mem = program_disk }) kernel) {
  pid_check = λ j. 0;
  cur_pid = no_pid;
  cur_process = none;
  filed_array = none;
}

pub kernel_of : Option (ℤ × Kernel) → Kernel
kernel_of none = idle
kernel_of (some r) = r.1

abbrev pub first : Kernel
first = kernel_of (execute 40 frame program_disk 100 idle)

pub starts : execute 40 frame program_disk 100 idle ≡ some (success, first)
unfolding kernel_of execute run_command run_parsed run_checked check_file parse skip_spaces
    copy_name copy_args strlen strncmp load32 scan read_dentry_by_name name_matches
    read_dentry_by_index copy_dentry strcpy store32 read_data start allocate_pid take_pid is_program
    read_blocks memcpy copy_bytes copy_longs
starts = refl

-- The program starts, and an interrupt comes.
abbrev ticked : Kernel
ticked = record first { devices = idle.devices }

first_program-HasChain_example : (p : ℕ) × (ancestors : List ℕ) × HasChain ticked p ancestors
first_program-HasChain_example =
    first_program-HasChain 40 frame program_disk 100 idle first ticked refl (λ j h. refl) starts
      (and_then (interrupted idle.devices) here)

first_program-IsRunning_example : IsRunning ticked
first_program-IsRunning_example =
    first_program-IsRunning 40 frame program_disk 100 idle first ticked refl (λ j h. refl) starts
      (and_then (interrupted idle.devices) here)
