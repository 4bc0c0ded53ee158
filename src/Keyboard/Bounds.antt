-- ===== src/Keyboard/Bounds.antt =====
-- No access to the keyboard's buffer is out of range, whatever is typed.
use mp.Prelude.{ℕ, zero, suc, ◌+◌, ◌≤◌, ◌≡◌, arith, inl, inr, Option-cases}
use mp.Prelude.{length, set, length-set, get_or, ltb, none, some, if◌then◌else◌}
use mp.Screen.{Screen}
use mp.Screen.Bounds
use mp.Terminal.Output.{write_loop, terminal_write}
use mp.Keyboard.{
  Keyboard, Special, special, press, store_char, store_spaces, erase_char, clean_buffer,
}
use mp.Keyboard.{handle_special_key, handle_char, handle_key, handle_keyboard_irq, mode}
use mp.Keyboard.{tab, backspace}
use mp.Keyboard.Map.{column}

-- The buffer has its 128 bytes, the position leaves room for one more, and the cursor is on the
-- screen.
pub record IsValid (k : Keyboard) : Type 0 where
  pub storage : length k.keyboard_buffer ≡ 128
  pub room : k.buffer_position ≤ 127
  pub screen : Bounds.IsValid k.screen

write_loop-IsValid :
    (left count : ℕ) (buf : ℕ → ℕ) (s : Screen)
    → Bounds.IsValid s
    → Bounds.IsValid (write_loop left count buf s)
unfolding write_loop
write_loop-IsValid zero count buf s v = v
write_loop-IsValid (suc left) count buf s v =
    write_loop-IsValid left (count + 1) buf _ (Bounds.putc-IsValid (buf count) s v).0

pub store_char-IsValid : (c : ℕ) (k : Keyboard) → IsValid k → IsValid (store_char c k)
unfolding store_char
store_char-IsValid c k v = ground (
  arith,
  length-set k.keyboard_buffer k.buffer_position c,
  Bounds.putc-IsValid c k.screen v.screen,
)

store_spaces-IsValid : (n : ℕ) (k : Keyboard) → IsValid k → IsValid (store_spaces n k)
unfolding store_spaces
store_spaces-IsValid zero k v = v
store_spaces-IsValid (suc n) k v =
    store_spaces-IsValid n (store_char b' ' k) (store_char-IsValid b' ' k v)

erase_char-IsValid : (k : Keyboard) → IsValid k → IsValid (erase_char k)
unfolding erase_char
erase_char-IsValid k v = ground (arith, Bounds.backspace_handler-IsValid k.screen v.screen)

press-IsValid : (key : Special) (k : Keyboard) → IsValid k → IsValid (press key k)
unfolding press
press-IsValid backspace k v = erase_char-IsValid k v
press-IsValid tab k v = store_spaces-IsValid 4 k v
press-IsValid _ k v = record { storage = v.storage; room = v.room; screen = v.screen }

handle_char-IsValid : (c : ℕ) (k : Keyboard) → IsValid k → IsValid (handle_char c k)
unfolding handle_char clean_buffer terminal_write
handle_char-IsValid c k v = ground (
  arith,
  Bounds.clean_screen-IsValid k.screen,
  length-set k.keyboard_buffer k.buffer_position b'\n',
  write_loop-IsValid k.buffer_position 0
      (λ i. get_or (set k.keyboard_buffer k.buffer_position b'\n') i 0) k.screen v.screen,
  store_char-IsValid c k v,
)

-- The handler at a special key, and at any other.
pub handle_key-special :
    (scancode : ℕ) (key : Special) (k : Keyboard)
    → special scancode ≡ some key
    → handle_key scancode k ≡ press key k
unfolding handle_key handle_special_key
handle_key-special scancode key k e = ground (arith, e)

pub handle_key-plain :
    (scancode : ℕ) (k : Keyboard)
    → special scancode ≡ none
    → handle_key scancode k ≡ (
        if ltb scancode 58
        then handle_char (column scancode (mode k.shift_pressed k.capslock_state)) k
        else k)
unfolding handle_key handle_special_key
handle_key-plain scancode k e = ground (arith, e)

handle_key-IsValid : (scancode : ℕ) (k : Keyboard) → IsValid k → IsValid (handle_key scancode k)
handle_key-IsValid scancode k v = elim (Option-cases (special scancode)) [
  | inl plain ↦ rw (handle_key-plain scancode k plain) (
      ground
        (arith, handle_char-IsValid (column scancode (mode k.shift_pressed k.capslock_state)) k v))
  | inr (key, e) ↦ rw (handle_key-special scancode key k e) (press-IsValid key k v)
]

-- From a valid keyboard, every scancode leaves one: 128 bytes of buffer, a position of at most
-- 127, and the cursor on the screen.
pub handle_keyboard_irq-IsValid :
    (scancode : ℕ) (k : Keyboard) → IsValid k → IsValid (handle_keyboard_irq scancode k)
unfolding handle_keyboard_irq
handle_keyboard_irq-IsValid scancode k v =
    handle_key-IsValid scancode _ (record { storage = v.storage; room = v.room; screen = v.screen })
