-- ===== src/FileOps.antt =====
-- fileoptable.c: the four operation tables, and what the operations in them do. The state that they
-- reach is the clock, the file system and the terminal.
use mp.Prelude.{ℕ, ◌+◌, ◌==◌, if◌then◌else◌, Option, none, some}
use mathlib.Core.Option
use mp.Prelude.{List}
use mp.Prelude.Runs.{Run, exception, from_option, divide_error}
use mp.Prelude.Int.{ℤ, pos, success}
use mp.Rtc.{Rtc, Event, Outcome, done, fault, rtc_open, rtc_close, rtc_read, rtc_write}
use mp.Terminal.{Terminal, terminal_close, terminal_read}
use mp.FileSystem.{FileSystem, file_open, directory_open, file_write, directory_write, ◌>>=◌}
use mp.FileSystem.{file_close, directory_close, file_read, directory_read}
use mp.Terminal.Output.{terminal_write}

-- The entries of `file_operation_table`, by their index, as `init_fot` fills it.
pub data Fileot : Type 0 where
  rtc_fot dir_fot file_fot terminal_fot : Fileot

unfoldable pub file_operation_table : ℕ → Option Fileot
file_operation_table index =
    if index == 0
    then some rtc_fot
    else if index == 1
    then some dir_fot
    else if index == 2
    then some file_fot
    else if index == 3
    then some terminal_fot
    else none

-- The kernel has one screen and one pair of controllers: those of the file system and of the clock.
-- The copies in the terminal are replaced where it is used.
pub record Devices : Type 0 where
  pub rtc : Rtc
  pub files : FileSystem
  pub terminal : Terminal

abbrev pub terminal_of : Devices → Terminal
terminal_of d = record d.terminal {
  keyboard = record d.terminal.keyboard { screen = d.files.screen; pic = d.rtc.pic };
}

abbrev pub set_terminal : Terminal → Devices → Devices
set_terminal t d = record {
  rtc = record d.rtc { pic = t.keyboard.pic };
  files = record d.files { screen = t.keyboard.screen };
  terminal = t;
}

unfoldable pub rtcopen : Rtc → ℤ × Rtc
rtcopen r = (success, (rtc_open r).1)

-- The frequency is always 2, whatever the buffer holds.
unfoldable pub rtcwrite : Rtc → ℤ × Rtc
rtcwrite r = (success, (rtc_write (pos 2) r).1)

with_files : Devices → ℤ × FileSystem → Option (ℤ × Devices)
with_files d r = some (r.0, record d { files = r.1 })

-- `fileot_pointer->open(filename)`
unfoldable pub open_of : Fileot → ℕ → ℕ → Devices → Option (ℤ × Devices)
unfolding with_files
open_of rtc_fot fuel filename d = some ((rtcopen d.rtc).0, record d { rtc = (rtcopen d.rtc).1 })
open_of dir_fot fuel filename d = directory_open fuel filename d.files >>= with_files d
open_of file_fot fuel filename d = file_open fuel filename d.files >>= with_files d
open_of terminal_fot fuel filename d = some (pos 1, d)

-- `fileot_pointer->write(fd, buf, n)`; `buf` is an address.
unfoldable pub write_of : Fileot → ℕ → ℤ → Devices → ℤ × Devices
write_of rtc_fot buf n d = ((rtcwrite d.rtc).0, record d { rtc = (rtcwrite d.rtc).1 })
write_of dir_fot buf n d =
    ((directory_write d.files).0, record d { files = (directory_write d.files).1 })
write_of file_fot buf n d = ((file_write d.files).0, record d { files = (file_write d.files).1 })
write_of terminal_fot buf n d =
    let r = terminal_write (some (λ i. d.files.mem (buf + i))) n d.files.screen in
    (r.0, record d { files = record d.files { screen = r.1 } })

-- `rtcclose`.
unfoldable pub rtcclose : Rtc → ℤ × Rtc
rtcclose r = (success, (rtc_close r).1)

-- `fileot_pointer->close(filename)`
unfoldable pub close_of : Fileot → Devices → ℤ × Devices
close_of rtc_fot d = ((rtcclose d.rtc).0, record d { rtc = (rtcclose d.rtc).1 })
close_of dir_fot d = ((directory_close d.files).0, record d { files = (directory_close d.files).1 })
close_of file_fot d = ((file_close d.files).0, record d { files = (file_close d.files).1 })
close_of terminal_fot d = let r = terminal_close (terminal_of d) in (r.0, set_terminal r.1 d)

-- `rtcread`: the wait of `rtc_read(2)`, and 0. It uses up the events of the clock.
unfoldable pub rtcread : Devices → List Event → Run (ℤ × Devices × List Event)
rtcread d es = elim (rtc_read (pos 2) d.rtc es) [
  | done z r rest ↦ Run.ok (success, record d { rtc = r }, rest)
  | Outcome.waiting r ↦ Run.waiting
  | fault ↦ exception divide_error
]

with_rest : Devices → List Event → ℤ × FileSystem → ℤ × Devices × List Event
with_rest d es r = (r.0, record d { files = r.1 }, es)

-- `fileot_pointer->read(filename, offset, buf, n)`
unfoldable pub read_of :
    Fileot → ℕ → ℕ → ℕ → ℕ → ℤ → Devices → List Event → Run (ℤ × Devices × List Event)
unfolding with_rest
read_of rtc_fot fuel filename offset buf n d es = rtcread d es
read_of dir_fot fuel filename offset buf n d es =
    from_option (Option.map (with_rest d es) (directory_read fuel filename buf n d.files))
read_of file_fot fuel filename offset buf n d es =
    from_option (Option.map (with_rest d es) (file_read fuel filename offset buf n d.files))
read_of terminal_fot fuel filename offset buf n d es =
    let r = terminal_read buf n d.terminal d.files.mem in
    Run.ok (r.0, record d { files = record d.files { mem = r.1 } }, es)
