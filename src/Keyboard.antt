-- ===== src/Keyboard.antt =====
-- keyboard.c: the scancode table, the state of the modifier keys, and the line that is typed.
pub mod Map
pub mod Editor
pub mod Refine
pub mod Bounds
pub mod Tests
use mp.Prelude.{
  ℕ, zero, suc, ◌+◌, ◌-◌, Bool, true, false, not, ◌&&◌, ◌||◌, ltb, ◌==◌, if◌then◌else◌,
}
use mp.Prelude.{Option, none, some, List, get_or, set}
use mp.Prelude.Int.{pos}
use mp.Pic.{Pic, send_eoi, enable_irq}
use mp.Screen.{Screen, putc, backspace_handler, clean_screen}
use mp.Terminal.Output.{terminal_write}
use Map.{scancode_map, column}

abbrev pub max_buffer_size : ℕ
max_buffer_size = 127

abbrev pub keyboard_irq_num : ℕ
keyboard_irq_num = 1

-- The globals of keyboard.c, with the screen and the controllers that its functions call on. The
-- flags hold 0 or 1.
pub record Keyboard : Type 0 where
  pub keyboard_buffer : List ℕ
  pub buffer_position : ℕ
  pub ctrl_pressed : Bool
  pub shift_pressed : Bool
  pub capslock_pressed : Bool
  pub capslock_state : Bool
  pub alt_pressed : Bool
  pub screen : Screen
  pub pic : Pic

-- The cases of the `switch` of `handle_special_key`.
pub data Special : Type 0 where
  capslock_down capslock_up shift_down shift_up alt_down alt_up ctrl_down ctrl_up : Special
  backspace tab : Special

unfoldable pub special : ℕ → Option Special
special scancode =
    if scancode == 0x3A
    then some capslock_down
    else if scancode == 0xBA
    then some capslock_up
    else if scancode == 0x2A
    then some shift_down
    else if scancode == 0x36
    then some shift_down
    else if scancode == 0xAA
    then some shift_up
    else if scancode == 0xB6
    then some shift_up
    else if scancode == 0x38
    then some alt_down
    else if scancode == 0xB8
    then some alt_up
    else if scancode == 0x1D
    then some ctrl_down
    else if scancode == 0x9D
    then some ctrl_up
    else if scancode == 0x0E
    then some backspace
    else if scancode == 0x0F
    then some tab
    else none

unfoldable pub clean_buffer : Keyboard → Keyboard
clean_buffer k = record k { buffer_position = 0 }

-- A character is stored and echoed if there is room for it. `buffer_position` is a uint8_t, and
-- stays below 128 here.
unfoldable pub store_char : ℕ → Keyboard → Keyboard
store_char c k =
    if ltb k.buffer_position max_buffer_size
    then record k {
      keyboard_buffer = set k.keyboard_buffer k.buffer_position c;
      buffer_position = k.buffer_position + 1;
      screen = putc c k.screen;
    }
    else k

-- The loop of the tab key.
unfoldable pub store_spaces : ℕ → Keyboard → Keyboard
store_spaces zero k = k
store_spaces (suc left) k = store_spaces left (store_char b' ' k)

unfoldable pub erase_char : Keyboard → Keyboard
erase_char k =
    if ltb 0 k.buffer_position
    then record k { buffer_position = k.buffer_position - 1; screen = backspace_handler k.screen }
    else k

unfoldable pub press : Special → Keyboard → Keyboard
press capslock_down k = record k { capslock_pressed = true; capslock_state = not k.capslock_state }
press capslock_up k = record k { capslock_pressed = false }
press shift_down k = record k { shift_pressed = true }
press shift_up k = record k { shift_pressed = false }
press alt_down k = record k { alt_pressed = true }
press alt_up k = record k { alt_pressed = false }
press ctrl_down k = record k { ctrl_pressed = true }
press ctrl_up k = record k { ctrl_pressed = false }
press backspace k = erase_char k
press tab k = store_spaces 4 k

-- The result tells whether the key was special.
unfoldable pub handle_special_key : ℕ → Keyboard → Bool × Keyboard
handle_special_key scancode k = elim (special scancode) [
  | none ↦ (false, k)
  | some key ↦ (true, press key k)
]

-- The column of the table by the modifiers: both, shift, capslock, none.
abbrev pub mode : Bool → Bool → ℕ
mode shift caps = if shift then (if caps then 3 else 1) else (if caps then 2 else 0)

-- The handler's code for a scancode below 58, at the character that the table gives.
unfoldable pub handle_char : ℕ → Keyboard → Keyboard
handle_char key k =
    if k.ctrl_pressed && (key == b'L' || key == b'l')
    then clean_buffer (record k { screen = clean_screen k.screen })
    else if key == b'\n'
    then clean_buffer (record k {
      keyboard_buffer = set k.keyboard_buffer k.buffer_position b'\n';
      screen =
          (terminal_write (some (λ i. get_or (set k.keyboard_buffer k.buffer_position b'\n') i 0))
            (pos k.buffer_position) k.screen).1;
    })
    else store_char key k

unfoldable pub handle_key : ℕ → Keyboard → Keyboard
handle_key scancode k =
    let (special_key_handle, k') = handle_special_key scancode k in
    if special_key_handle
    then k'
    else if ltb scancode 58
    then handle_char (column scancode (mode k'.shift_pressed k'.capslock_state)) k'
    else k'

-- `handle_keyboard_irq` at the byte read from the keyboard's port.
unfoldable pub handle_keyboard_irq : ℕ → Keyboard → Keyboard
handle_keyboard_irq scancode k =
    handle_key scancode (record k { pic = send_eoi keyboard_irq_num k.pic })

unfoldable pub keyboard_init : Keyboard → Keyboard
keyboard_init k = record k { pic = enable_irq keyboard_irq_num k.pic }

unfoldable pub keyboard_read : ℕ → Keyboard → ℕ
keyboard_read index k = get_or k.keyboard_buffer index 0
