-- ===== src/Keyboard/Refine.antt =====
-- The keyboard handler implements the line editor.
use native.Mathlib.Numerals.{add-one}
use mp.Prelude.{ℕ, zero, suc, ◌+◌, ◌-◌, ◌≤◌, ◌≡◌, refl, ◌∙◌, ap, arith, inl, inr, Option-cases}
use mp.Prelude.{List, [], ◌∷◌, length, set, get_or, take, drop, ltb, some, none, if◌then◌else◌}
use mp.Prelude.{take-suc-set, take-set_ge, take-take, drop-cons, length-take, length-set}
use mp.Pic.{send_eoi}
use mp.Screen.{Screen, putc, puts}
use mp.Terminal.Output.{write_loop, terminal_write}
use mp.Keyboard.{
  Keyboard, Special, special, press, store_char, store_spaces, erase_char, clean_buffer,
}
use mp.Keyboard.{
  handle_char, handle_key, handle_keyboard_irq, mode, keyboard_irq_num, capslock_down, tab,
  backspace,
}
use mp.Keyboard.Map.{column}
use mp.Keyboard.Editor.{Editor, insert, remove, control, type_char, step}
use mp.Keyboard.Bounds.{
  IsValid, store_char-IsValid, handle_key-special, handle_key-plain, handle_keyboard_irq-IsValid,
}

-- The line is what stands in the buffer before the position.
abbrev pub view : Keyboard → Editor
view k = record {
  line = take k.buffer_position k.keyboard_buffer;
  shift = k.shift_pressed;
  caps = k.capslock_state;
  ctrl = k.ctrl_pressed;
  screen = k.screen;
}

-- `terminal_write` of the first bytes of an array prints them.
write_loop-puts :
    (left count : ℕ) (xs : List ℕ) (s : Screen)
    → count + left ≤ length xs
    → write_loop left count (λ i. get_or xs i 0) s ≡ puts (take left (drop count xs)) s
unfolding write_loop puts
write_loop-puts zero count xs s h = refl
write_loop-puts (suc left) count xs s h =
    rw (drop-cons xs count 0 (omega arith), ← add-one count)
      (write_loop-puts left (count + 1) xs (putc (get_or xs count 0) s) (omega arith))

length-line : (k : Keyboard) → IsValid k → length (view k).line ≡ k.buffer_position
length-line k v = omega (arith, length-take k.buffer_position k.keyboard_buffer, v)

store_char-insert : (c : ℕ) (k : Keyboard) → IsValid k → view (store_char c k) ≡ insert c (view k)
unfolding store_char insert
store_char-insert c k v = ground (
  arith,
  length-line k v,
  add-one k.buffer_position,
  take-suc-set k.keyboard_buffer k.buffer_position c,
)

store_spaces-insert :
    (k : Keyboard)
    → IsValid k
    → view (store_spaces 4 k) ≡ insert b' ' (insert b' ' (insert b' ' (insert b' ' (view k))))
unfolding store_spaces
store_spaces-insert k v =
    let k₁ = store_char b' ' k in
    let k₂ = store_char b' ' k₁ in
    let k₃ = store_char b' ' k₂ in
    let v₁ = store_char-IsValid b' ' k v in
    let v₂ = store_char-IsValid b' ' k₁ v₁ in
    let v₃ = store_char-IsValid b' ' k₂ v₂ in
    store_char-insert b' ' k₃ v₃
    ∙ ap (insert b' ') (
        store_char-insert b' ' k₂ v₂
        ∙ ap (insert b' ')
            (store_char-insert b' ' k₁ v₁ ∙ ap (insert b' ') (store_char-insert b' ' k v)))

erase_char-remove : (k : Keyboard) → IsValid k → view (erase_char k) ≡ remove (view k)
unfolding erase_char remove
erase_char-remove k v =
    ground (
      arith,
      length-line k v,
      take-take (k.buffer_position - 1) k.buffer_position k.keyboard_buffer,
    )

press-control :
    (key : Special) (k : Keyboard) → IsValid k → view (press key k) ≡ control key (view k)
unfolding press control
press-control capslock_down k v = refl
press-control backspace k v = erase_char-remove k v
press-control tab k v = store_spaces-insert k v
press-control _ k v = refl

handle_char-type_char :
    (c : ℕ) (k : Keyboard) → IsValid k → view (handle_char c k) ≡ type_char c (view k)
unfolding handle_char type_char clean_buffer terminal_write
handle_char-type_char c k v = ground (
  arith,
  store_char-insert c k v,
  length-set k.keyboard_buffer k.buffer_position b'\n',
  take-set_ge k.keyboard_buffer k.buffer_position k.buffer_position b'\n',
  write_loop-puts k.buffer_position 0 (set k.keyboard_buffer k.buffer_position b'\n') k.screen,
)

step-special :
    (n : ℕ) (key : Special) (e : Editor) → special n ≡ some key → step n e ≡ control key e
unfolding step
step-special n key e h = ground (arith, h)

step-plain :
    (n : ℕ) (e : Editor)
    → special n ≡ none
    → step n e ≡ (if ltb n 58 then type_char (column n (mode e.shift e.caps)) e else e)
unfolding step
step-plain n e h = ground (arith, h)

handle_key-step :
    (scancode : ℕ) (k : Keyboard)
    → IsValid k
    → view (handle_key scancode k) ≡ step scancode (view k)
handle_key-step scancode k v = elim (Option-cases (special scancode)) [
  | inl plain ↦
      rw (handle_key-plain scancode k plain, step-plain scancode (view k) plain)
        (ground (
          arith,
          handle_char-type_char (column scancode (mode k.shift_pressed k.capslock_state)) k v,
        ))
  | inr (key, e) ↦
      rw (handle_key-special scancode key k e, step-special scancode key (view k) e)
        (press-control key k v)
]

-- Every scancode has on the line, the modifiers and the screen the effect that the editor gives it.
pub handle_keyboard_irq_refines :
    (scancode : ℕ) (k : Keyboard)
    → IsValid k
    → view (handle_keyboard_irq scancode k) ≡ step scancode (view k)
unfolding handle_keyboard_irq
handle_keyboard_irq_refines scancode k v =
    handle_key-step scancode (record k { pic = send_eoi keyboard_irq_num k.pic })
      (record { storage = v.storage; room = v.room; screen = v.screen })

-- Interrupts one after another, and the editor's steps.
unfoldable pub handle_all : List ℕ → Keyboard → Keyboard
handle_all [] k = k
handle_all (n ∷ ns) k = handle_all ns (handle_keyboard_irq n k)

unfoldable pub edit : List ℕ → Editor → Editor
edit [] e = e
edit (n ∷ ns) e = edit ns (step n e)

-- From a valid keyboard, whatever scancodes arrive, the keyboard stays valid, and its line,
-- modifiers and screen are what the editor makes of the same scancodes.
pub handle_all_refines :
    (ns : List ℕ) (k : Keyboard)
    → IsValid k
    → IsValid (handle_all ns k) × (view (handle_all ns k) ≡ edit ns (view k))
unfolding handle_all edit
handle_all_refines [] k v = (v, refl)
handle_all_refines (n ∷ ns) k v =
    let (w, e) =
      handle_all_refines ns (handle_keyboard_irq n k) (handle_keyboard_irq-IsValid n k v) in
    (w, e ∙ ap (edit ns) (handle_keyboard_irq_refines n k v))
