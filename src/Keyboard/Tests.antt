-- ===== src/Keyboard/Tests.antt =====
-- Typing on the keyboard.
use mp.Prelude.{ℕ, ◌≡◌, refl, arith, false, List, [], ◌∷◌, replicate}
use mp.Screen.{Screen}
use mp.Keyboard.{
  Keyboard, handle_keyboard_irq, handle_key, handle_special_key, special, press, handle_char,
  store_char, erase_char,
}
use mp.Keyboard.Map.{column}
use mp.Keyboard.Bounds.{IsValid}
use mp.Keyboard.Refine.{view, edit, handle_all, handle_all_refines}

abbrev pub screen : Screen
screen = record { screen_x = 0; screen_y = 0; video_mem = λ o. 0; sent = [] }

abbrev pub fresh : Keyboard
fresh = record {
  keyboard_buffer = replicate 128 0;
  buffer_position = 0;
  ctrl_pressed = false;
  shift_pressed = false;
  capslock_pressed = false;
  capslock_state = false;
  alt_pressed = false;
  screen = screen;
  pic = record { master_mask = 0xF9; slave_mask = 0; sent = [] };
}

pub fresh-IsValid : IsValid fresh
fresh-IsValid = record { storage = refl; room = omega arith; screen = omega arith }

-- The keys l and s, shift and a, backspace.
abbrev keys : List ℕ
keys = 0x26 ∷ 0x1F ∷ 0x2A ∷ 0x1E ∷ 0x0E ∷ []

handle_all_refines_example :
    IsValid (handle_all keys fresh) × (view (handle_all keys fresh) ≡ edit keys (view fresh))
handle_all_refines_example = handle_all_refines keys fresh fresh-IsValid

typed : (view (handle_all keys fresh)).line ≡ b'l' ∷ b's' ∷ []
unfolding handle_all handle_keyboard_irq handle_key handle_special_key special press handle_char
    store_char erase_char column
typed = refl
