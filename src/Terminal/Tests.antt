-- ===== src/Terminal/Tests.antt =====
-- Reading a line.
use mp.Prelude.{◌≡◌, refl, arith, replicate, set}
use mp.Prelude.Int.{pos}
use mp.Keyboard.{Keyboard, handle_keyboard_irq}
use mp.Keyboard.Tests.{fresh}
use mp.Terminal.{Terminal, terminal_read}
use mp.Terminal.Reading.{enter_then_read}

-- The line "ok" has been typed.
abbrev typed : Keyboard
typed = record fresh {
  keyboard_buffer = set (set fresh.keyboard_buffer 0 b'o') 1 b'k';
  buffer_position = 2;
}

abbrev entered : Terminal
entered = record { keyboard = handle_keyboard_irq 0x1C typed; terminal_buffer = replicate 128 7 }

enter_then_read_example :
    let r = terminal_read 100 (pos 3) entered (λ a. 0) in (r.0 ≡ pos 3) × (r.1 102 ≡ b'\n')
enter_then_read_example =
    enter_then_read typed entered (λ a. 0) 100 2
      (record { storage = refl; room = omega arith; screen = omega arith }) refl (omega arith)
      (omega arith) (omega arith)
