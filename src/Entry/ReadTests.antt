-- ===== src/Entry/ReadTests.antt =====
-- A program that reads 4 bytes from the terminal.
use mp.Prelude.{ℕ, ◌+◌, ◌<◌, ◌≡◌, refl, arith, []}
use mp.Prelude.Int.{pos}
use mp.Prelude.Runs.{Run}
use mp.Keyboard.{keyboard_read}
use mp.Process.{Kernel, mem_of}
use mp.Process.CallTests.{child, small, few, same_inode, drive-IsDirectory}
use mp.Entry.{Cpu}
use mp.Entry.Calls.{resumed, save_registers, systemcall}
use mp.Entry.Returns.{IsAnswered}
use mp.Entry.Reads.{systemcall-reads}
use mp.Entry.Tests.{calling, body, body-IsCdecl, locals}

systemcall-reads_example :
    (d : Cpu) × (k' : Kernel) × (systemcall locals body (calling 3 0 0x08048000 4) child []
      ≡ Run.ok (resumed d k' []))
    × IsAnswered
        (calling 3 0 0x08048000 4)
        (pos 4)
        (body (save_registers (calling 3 0 0x08048000 4)))
        d
    × ((j : ℕ)
        → j < 4
        → mem_of k' (0x08048000 + j) ≡ keyboard_read j child.devices.terminal.keyboard)
systemcall-reads_example =
    systemcall-reads locals body (calling 3 0 0x08048000 4) 1 child [] (omega arith) refl
      (body-IsCdecl 12 _) refl (omega arith) (omega arith) (omega arith) (omega arith) (omega arith)
      refl (omega arith) (omega arith) (omega arith) (λ j. small j) drive-IsDirectory few same_inode
