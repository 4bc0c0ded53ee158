-- ===== src/Boot/Tests.antt =====
-- A boot with an empty memory: no flags, and a command of no characters.
use mp.Prelude.{ℕ, ◌≡◌, none, refl, some, ◌⊎◌, true, false}
use mp.Prelude.Int.{success, failure}
use mp.FileSystem.Words.{load32}
use mp.Process.{Kernel, set_mem, no_pid}
use mp.Process.Tests.{kernel, frame}
use mp.Prelude.Runs.{Run}
use mp.Idt.{idt_init}
use mp.Rtc.{rtc_init, get_rate, rate_loop}
use mp.Strings.{strlen}
use mp.FileSystem.{scan, read_dentry_by_name}
use mp.Process.Execute.{
  execute, run_command, run_parsed, run_checked, check_file, parse, skip_spaces, copy_name,
  copy_args,
}
use mp.Boot.{SegDesc, Machine, Setting, Booted, executed, entry, read_maps, start_up, set_segments}
use mp.Boot.Info.{print_info, print_cmdline, print_memory, load_modules, print_maps, print_elf}
use mp.Boot.Devices.{init_devices, init_first}
use mp.Boot.Ready.{IsReady, entry-starts}

abbrev descriptor : SegDesc
descriptor = record {
  seg_lim_15_00 = 0;
  base_15_00 = 0;
  base_23_16 = 0;
  type = 9;
  sys = 0;
  dpl = 0;
  present = 1;
  seg_lim_19_16 = 0;
  avail = 0;
  reserved = 0;
  opsize = 0;
  granularity = 0;
  base_31_24 = 0;
}

abbrev zeros : Kernel
zeros = set_mem (λ a. 0) kernel

abbrev pub setting : Setting
setting = record {
  handlers = record {
    exceptions = λ n. 0x400100;
    rtc_irq_wrap = 0x400200;
    keyboard_irq_wrap = 0x400300;
    systemcall = 0x400400;
  };
  ldt = 0x401000;
  tss = 0x402000;
  dt_address = 0x403000;
  shell = 700;
  prev_b = 0;
  prev_a = 0x20;
  frame = frame;
  seen = λ a. 0;
}

abbrev pub machine : Machine
machine = record {
  kernel = record zeros { cur_pid = no_pid; cur_process = none; filed_array = none };
  idt = λ n. record {
    offset_15_00 = 0;
    seg_selector = 0;
    reserved3 = 0;
    reserved2 = 0;
    reserved1 = 0;
    size = 0;
    reserved0 = 0;
    dpl = 0;
    present = 0;
    offset_31_16 = 0;
  };
  registers = record { cr0 = 0x11; cr3 = 0; cr4 = 0 };
  ldt_desc_ptr = descriptor;
  tss_desc_ptr = descriptor;
  ldt_segment_selector = 0;
  ldtr = 0;
  tr = 0;
}

reached : Run Booted → Machine
reached (Run.ok (executed z m)) = m
reached _ = machine

-- The file is not found, so the shell does not start.
no_shell :
    entry 20 setting 0x2BADB002 1000 machine
    ≡ Run.ok (executed failure (reached (entry 20 setting 0x2BADB002 1000 machine)))
unfolding reached entry read_maps start_up print_info print_cmdline print_memory load_modules
    print_maps print_elf init_devices init_first set_segments rtc_init get_rate rate_loop execute
    run_command run_parsed run_checked check_file parse skip_spaces copy_name copy_args strlen
    load32 scan read_dentry_by_name
no_shell = refl

entry-starts_example :
    let m' = reached (entry 20 setting 0x2BADB002 1000 machine) in
    (◌≡◌ {A = ℕ} 0x2BADB002 0x2BADB002)
    × (m'.idt ≡ idt_init setting.handlers machine.idt)
    × ((k : Kernel) × IsReady k × (execute 20 frame (λ a. 0) 700 k ≡ some (failure, m'.kernel)))
    × (((failure ≡ success) × (m'.kernel.interrupts ≡ true))
        ⊎ ((failure ≡ failure) × (m'.kernel.interrupts ≡ false)))
entry-starts_example =
    entry-starts 20 setting 0x2BADB002 1000 machine failure
      (reached (entry 20 setting 0x2BADB002 1000 machine)) no_shell
