-- ===== src/Process/Tests.antt =====
-- A kernel with an empty disk and no process.
use mp.Prelude.{
  ℕ, ◌+◌, ◌≡◌, refl, arith, inr, true, some, [], ◌==◌, if◌then◌else◌, Memory, replicate,
}
use mp.Rtc.{Rtc}
use mp.Screen.{Screen}
use mp.Keyboard.Tests.{fresh}
use mp.FileSystem.{FileSystem}
use mp.Strings.Lengths.{IsText}
use mp.Process.{Kernel, Frame, Pcb}
use mp.Process.Execute.{terminal_fd, launch, parse}
use mp.Process.Parsing.{named, parse_lem}
use mp.Process.Launch.{launch_lem}

-- The command " ls a" at 100.
abbrev memory : Memory
memory a =
    if a == 100
    then b' '
    else if a == 101
    then b'l'
    else if a == 102
    then b's'
    else if a == 103
    then b' '
    else if a == 104
    then b'a'
    else 0

abbrev screen : Screen
screen = record { screen_x = 0; screen_y = 0; video_mem = λ o. 0; sent = [] }

abbrev pub files : FileSystem
files = record {
  mem = memory;
  bootblock_head = 0x500000;
  indexnode_head = 0x501000;
  datablock_ptr = 0x502000;
  curdentry = 0x500000;
  screen = screen;
}

abbrev rtc : Rtc
rtc = record {
  rtc_freq = 0;
  rtc_interrupt = 0;
  sent = [];
  pic = record { master_mask = 0; slave_mask = 0; sent = [] };
}

abbrev pub block : Pcb
block = record {
  fd_array = λ i. record terminal_fd { flags = if i == 1 then 1 else 0 };
  pid = 0;
  parent_pid = 0;
  tss_esp0 = 0;
  scheduled_esp = 0;
  scheduled_ebp = 0;
}

abbrev pub kernel : Kernel
kernel = record {
  devices = record {
    rtc = rtc;
    files = files;
    terminal = record { keyboard = fresh; terminal_buffer = replicate 128 0 };
  };
  tables = record { dt = λ n. 0; pt = λ n. 0; pt_address = 0x3000 };
  pid_check = λ j. if j == 0 then 1 else 0;
  cur_pid = 0;
  pcbs = λ i. block;
  cur_process = some 0;
  filed_array = some 0;
  esp0 = 0;
  ss0 = 0;
  interrupts = true;
}

abbrev pub frame : Frame
frame = record {
  file_command = 200;
  arg_command = 240;
  check_dentry = 280;
  data_buf = 350;
  esp = 360;
  ebp = 370;
}

command-IsText : IsText memory 100 5
command-IsText = record { ends = refl; inside = λ j h. ground arith }

spaces : (j : ℕ) → ◌≡◌ {A = ℕ} j 0 → memory (100 + j) ≡ b' '
spaces j h = ground arith

-- The name taken is "ls a".
parse_lem_example :
    (m' : Memory) × (parse 10 frame 100 5 memory ≡ some m')
    × ((a : ℕ) → m' a ≡ named 200 101 4 memory a)
parse_lem_example =
    parse_lem 10 frame 100 5 1 memory command-IsText (omega arith) (omega arith)
      (λ j h. spaces j (omega arith)) (omega arith) (inr (omega arith))

launch_lem_example :
    let k' = launch frame 1 memory 1 kernel in
    (k'.cur_pid ≡ 1)
    × (k'.filed_array ≡ some 1)
    × ((k'.pcbs 1).parent_pid ≡ 0)
    × (k'.esp0 + 4 + 0x2000 ≡ 0x800000)
    × (k'.tables.dt 32 ≡ 0xC00087)
    × (((k'.pcbs 1).fd_array 5).flags ≡ 0)
    × (k'.interrupts ≡ true)
    × (k'.ss0 ≡ 0x18)
launch_lem_example = launch_lem frame 1 memory 1 5 kernel (omega arith) (omega arith)
