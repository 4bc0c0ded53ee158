-- ===== src/Keyboard/Editor.antt =====
-- What the keyboard promises: an editor of one line of at most 127 characters.
use mp.Prelude.{ℕ, ◌-◌, Bool, true, false, not, ◌&&◌, ◌||◌, ltb, ◌==◌, if◌then◌else◌}
use mp.Prelude.{none, some, List, [], ◌∷◌, ◌++◌, length, take}
use mp.Screen.{Screen, putc, puts, backspace_handler, clean_screen}
use mp.Keyboard.{Special, capslock_down, shift_down, shift_up}
use mp.Keyboard.{ctrl_down, ctrl_up, backspace, tab, special, mode}
use mp.Keyboard.Map.{column}

-- The line typed so far, the modifiers that count, and the screen.
pub record Editor : Type 0 where
  pub line : List ℕ
  pub shift : Bool
  pub caps : Bool
  pub ctrl : Bool
  pub screen : Screen

-- A character joins the line and is echoed while there is room.
unfoldable pub insert : ℕ → Editor → Editor
insert c e =
    if ltb (length e.line) 127
    then record e { line = e.line ++ (c ∷ []); screen = putc c e.screen }
    else e

-- The last character goes, on the screen too; an empty line stays.
unfoldable pub remove : Editor → Editor
remove e =
    if ltb 0 (length e.line)
    then record e { line = take (length e.line - 1) e.line; screen = backspace_handler e.screen }
    else e

unfoldable pub control : Special → Editor → Editor
control capslock_down e = record e { caps = not e.caps }
control shift_down e = record e { shift = true }
control shift_up e = record e { shift = false }
control ctrl_down e = record e { ctrl = true }
control ctrl_up e = record e { ctrl = false }
control backspace e = remove e
control tab e = insert b' ' (insert b' ' (insert b' ' (insert b' ' e)))
control _ e = e

-- Control-L clears the screen and drops the line; Enter prints the line once more and drops it; any
-- other character is typed.
unfoldable pub type_char : ℕ → Editor → Editor
type_char c e =
    if e.ctrl && (c == b'L' || c == b'l')
    then record e { line = []; screen = clean_screen e.screen }
    else if c == b'\n'
    then record e { line = []; screen = puts e.line e.screen }
    else insert c e

-- A scancode: a key with a meaning of its own, a key of the table by the modifiers, or nothing.
unfoldable pub step : ℕ → Editor → Editor
step scancode e = elim (special scancode) [
  | some key ↦ control key e
  | none ↦ if ltb scancode 58 then type_char (column scancode (mode e.shift e.caps)) e else e
]
