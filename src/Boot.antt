-- ===== src/Boot.antt =====
-- The descriptors of x86_desc.h, and `entry` of kernel.c.
pub mod Info
pub mod Devices
pub mod Printing
pub mod Ready
pub mod Given
pub mod InfoEnds
pub mod Returns
mod Tests
mod ReturnTests
use mp.Prelude.{ℕ, ◌+◌, ◌-◌, ◌*◌, ◌/◌, ◌%◌, ◌^◌, ◌==◌, ◌&&◌, not, if◌then◌else◌, Memory, none, some}
use mp.Prelude.{Option, [], ◌∷◌, true}
use mp.Prelude.Int.{ℤ}
use mp.Prelude.Runs.{Run, from_option, ◌>>=◌}
use mp.Idt.{Idt, Handlers, idt_init}
use mp.Screen.{clear}
use mp.Strings.{printf, word}
use mp.FileSystem.Words.{load32}
use mp.Paging.{Registers, set_crreg}
use mp.Process.{kernel_ds, Kernel, Frame, set_files, mem_of}
use mp.Process.Execute.{execute}
use Info.{say, has_flag, print_info, print_maps}
use Devices.{init_devices}

pub record SegDesc : Type 0 where
  pub seg_lim_15_00 : ℕ
  pub base_15_00 : ℕ
  pub base_23_16 : ℕ
  pub type : ℕ
  pub sys : ℕ
  pub dpl : ℕ
  pub present : ℕ
  pub seg_lim_19_16 : ℕ
  pub avail : ℕ
  pub reserved : ℕ
  pub opsize : ℕ
  pub granularity : ℕ
  pub base_31_24 : ℕ

-- `SET_LDT_PARAMS`, and `SET_TSS_PARAMS`, which has the same body.
unfoldable pub set_ldt_params : ℕ → ℕ → SegDesc → SegDesc
set_ldt_params addr lim str = record str {
  base_31_24 = addr / 2 ^ 24 % 2 ^ 8;
  base_23_16 = addr / 2 ^ 16 % 2 ^ 8;
  base_15_00 = addr % 2 ^ 16;
  seg_lim_19_16 = lim / 2 ^ 16 % 2 ^ 4;
  seg_lim_15_00 = lim % 2 ^ 16;
}

-- A descriptor before its parameters are set; every field is assigned.
abbrev blank : SegDesc
blank = record {
  seg_lim_15_00 = 0;
  base_15_00 = 0;
  base_23_16 = 0;
  type = 0;
  sys = 0;
  dpl = 0;
  present = 1;
  seg_lim_19_16 = 0;
  avail = 0;
  reserved = 0;
  opsize = 0;
  granularity = 0;
  base_31_24 = 0;
}

-- The sizes of x86_desc.S, and the places in the descriptor table.
abbrev pub ldt_size : ℕ
ldt_size = 4 * 8 - 1

abbrev pub tss_size : ℕ
tss_size = 104 - 1

unfoldable pub the_ldt_desc : ℕ → SegDesc
the_ldt_desc address = set_ldt_params address ldt_size (record blank { opsize = 1; type = 2 })

unfoldable pub the_tss_desc : ℕ → SegDesc
the_tss_desc address = set_ldt_params address tss_size (record blank { type = 9 })

abbrev pub kernel_tss : ℕ
kernel_tss = 0x30

abbrev pub kernel_ldt : ℕ
kernel_ldt = 0x38

-- The kernel with the tables of the processor; `ldtr` and `tr` are what `lldt` and `ltr` load.
pub record Machine : Type 0 where
  pub kernel : Kernel
  pub idt : Idt
  pub registers : Registers
  pub ldt_desc_ptr : SegDesc
  pub tss_desc_ptr : SegDesc
  pub ldt_segment_selector : ℕ
  pub ldtr : ℕ
  pub tr : ℕ

-- What the linker and the hardware decide: the handlers and the places of the tables and of "shell",
-- the bytes that the clock's registers have, and what `execute` takes.
pub record Setting : Type 0 where
  pub handlers : Handlers
  pub ldt : ℕ
  pub tss : ℕ
  pub dt_address : ℕ
  pub shell : ℕ
  pub prev_b : ℕ
  pub prev_a : ℕ
  pub frame : Frame
  pub seen : Memory

-- The two blocks that fill the descriptors, and the fields of the task's segment.
unfoldable pub set_segments : Setting → Machine → Machine
set_segments s m = record m {
  ldt_desc_ptr = the_ldt_desc s.ldt;
  ldtr = kernel_ldt;
  tss_desc_ptr = the_tss_desc s.tss;
  ldt_segment_selector = kernel_ldt;
  kernel = record m.kernel { ss0 = kernel_ds; esp0 = 0x800000 };
  tr = kernel_tss;
}

-- `entry` has returned early, or has come back from `execute` with its answer. If that is 0 the shell
-- runs; otherwise the loop of `hlt` is entered.
pub data Booted : Type 0 where
  returned : Machine → Booted
  executed : ℤ → Machine → Booted

abbrev pub clear_screen : Kernel → Kernel
clear_screen k = set_files (record k.devices.files { screen = clear k.devices.files.screen }) k

-- From the descriptors on.
unfoldable pub start_up : ℕ → Setting → Machine → Run Booted
start_up fuel s m₀ =
    let m = set_segments s m₀ in
    from_option (init_devices fuel s.prev_b s.prev_a (clear_screen m.kernel)) >>= λ k.
    from_option (execute fuel s.frame s.seen s.shell (record k { interrupts = true })) >>= λ r.
    Run.ok
      (executed r.0 (record m { kernel = r.1; registers = set_crreg s.dt_address m.registers }))

-- From the test of bits 4 and 5 on. `addr` is the address of the boot information, whose first word
-- has the flags.
unfoldable pub read_maps : ℕ → Setting → ℕ → Machine → Run Booted
read_maps fuel s addr m =
    let flags = load32 (mem_of m.kernel) addr in
    let maps = from_option (print_maps fuel addr m.kernel) >>= λ k.
    start_up fuel s (record m { kernel = k }) in
    if has_flag flags 4 && has_flag flags 5
    then Run.ok (returned (record m { kernel = say "Both bits 4 and 5 are set.\n" [] m.kernel }))
    else maps

-- `entry`.
unfoldable pub entry : ℕ → Setting → ℕ → ℕ → Machine → Run Booted
entry fuel s magic addr m₀ =
    let m = record m₀ { idt = idt_init s.handlers m₀.idt; kernel = clear_screen m₀.kernel } in
    let info = from_option (print_info fuel addr m.kernel) >>= λ k.
    read_maps fuel s addr (record m { kernel = k }) in
    if not (magic == 0x2BADB002)
    then Run.ok (
        returned
          (record m { kernel = say "Invalid magic number: 0x%#x\n" (word magic ∷ []) m.kernel }))
    else info
