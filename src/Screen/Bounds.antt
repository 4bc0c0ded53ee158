-- ===== src/Screen/Bounds.antt =====
-- The cursor stays on the screen, nothing is written behind it, and the hardware cursor follows.
use mp.Prelude.{ℕ, ◌+◌, ◌*◌, ◌≤◌, ◌<◌, ◌≡◌, arith}
use mp.Prelude.{◌&&◌, ◌||◌, ◌==◌, if◌then◌else◌, Option, none, some, [], ◌∷◌, Trace}
use mp.Screen.{
  Screen, putc, puts, backspace_handler, clean_screen, vertical_scrolling, advance, update_cursor,
}
use mp.Screen.Scroll.{vertical_scrolling_lem}
use mp.Prelude.{List, Bool-cases, inl, inr, ◌-◌}

pub record IsValid (s : Screen) : Type 0 where
  pub column : s.screen_x < 80
  pub row : s.screen_y < 25

-- What the last four port writes tell the display: the high byte in register 0x0E, the low byte in
-- register 0x0F.
abbrev pub hardware_cursor : Trace → Option ℕ
hardware_cursor (hi ∷ select_hi ∷ lo ∷ select_lo ∷ _) =
    if hi.port == 0x3D5
      && select_hi.port == 0x3D4
      && select_hi.byte == 0x0E
      && lo.port == 0x3D5
      && select_lo.port == 0x3D4
      && select_lo.byte == 0x0F
    then some (hi.byte * 256 + lo.byte)
    else none
hardware_cursor _ = none

-- The hardware cursor stands at the kernel's cursor.
abbrev pub IsShown : Screen → Type 0
IsShown s = hardware_cursor s.sent ≡ some (80 * s.screen_y + s.screen_x)

update_cursor-shows :
    (x y : ℕ) (t : Trace)
    → x < 80
    → y < 25
    → hardware_cursor (update_cursor x y t) ≡ some (80 * y + x)
unfolding update_cursor
update_cursor-shows x y t hx hy = ground arith

-- The screen before the cursor is shown.
abbrev pub placed : ℕ → Screen → Screen
placed c s = vertical_scrolling (
    if c == b'\n' || c == b'\r'
    then record s { screen_y = s.screen_y + 1; screen_x = 0 }
    else advance c s)

placed-IsValid : (c : ℕ) (s : Screen) → IsValid s → IsValid (placed c s)
placed-IsValid c s v = elim (Bool-cases (c == b'\n' || c == b'\r')) [
  | inl e ↦ rw e (rw vertical_scrolling_lem (ground arith))
  | inr e ↦ rw e (rw vertical_scrolling_lem (ground arith))
]

-- From a cursor on the screen, `putc` leaves it on the screen and the hardware's cursor at the
-- same place.
pub putc-IsValid : (c : ℕ) (s : Screen) → IsValid s → IsValid (putc c s) × IsShown (putc c s)
unfolding putc
putc-IsValid c s v =
    let w = placed-IsValid c s v in
    (
      record { column = w.column; row = w.row },
      update_cursor-shows (placed c s).screen_x (placed c s).screen_y _ w.column w.row,
    )

pub backspace_handler-IsValid :
    (s : Screen)
    → IsValid s
    → IsValid (backspace_handler s) × (IsShown s → IsShown (backspace_handler s))
unfolding backspace_handler
backspace_handler-IsValid s v = ground (
  arith,
  update_cursor-shows (s.screen_x - 1) s.screen_y s.sent,
  update_cursor-shows 79 (s.screen_y - 1) s.sent,
)

pub clean_screen-IsValid : (s : Screen) → IsValid (clean_screen s) × IsShown (clean_screen s)
unfolding clean_screen
clean_screen-IsValid s = ground (arith, update_cursor-shows 0 0 s.sent)

pub puts-IsValid : (cs : List ℕ) (s : Screen) → IsValid s → IsValid (puts cs s)
unfolding puts
puts-IsValid [] s v = v
puts-IsValid (c ∷ cs) s v = puts-IsValid cs (putc c s) (putc-IsValid c s v).0

-- With the cursor on the screen, `putc` writes no byte behind the 4000 of the screen.
pub putc_in_bounds :
    (c : ℕ) (s : Screen) (o : ℕ) → IsValid s → 4000 ≤ o → (putc c s).video_mem o ≡ s.video_mem o
unfolding putc
putc_in_bounds c s o v h = elim (Bool-cases (c == b'\n' || c == b'\r')) [
  | inl e ↦ rw e (rw vertical_scrolling_lem (ground arith))
  | inr e ↦ rw e (rw vertical_scrolling_lem (ground arith))
]

pub backspace_in_bounds :
    (s : Screen) (o : ℕ) → IsValid s → 4000 ≤ o → (backspace_handler s).video_mem o ≡ s.video_mem o
unfolding backspace_handler
backspace_in_bounds s o v h = ground arith
