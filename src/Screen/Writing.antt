-- ===== src/Screen/Writing.antt =====
-- What `putc` writes and where the cursor goes, on every branch; and that backspace takes it back.
use mp.Prelude.{ℕ, ◌+◌, ◌*◌, ◌≡◌, ◌≢◌, ◌⊎◌, arith}
use mp.Prelude.{true, false, ◌||◌, ◌==◌, if◌then◌else◌}
use mp.Screen.{Screen, putc, backspace_handler, write_cell}
use mp.Screen.Scroll.{scrolled, vertical_scrolling_lem}
use mp.Screen.Bounds.{IsValid}

-- The cursor's position on the screen, read row by row.
abbrev pub position : Screen → ℕ
position s = 80 * s.screen_y + s.screen_x

pub newline : (c : ℕ) → (c ≡ b'\n') ⊎ (c ≡ b'\r') → (c == b'\n' || c == b'\r') ≡ true
newline c h = ground arith

pub printable : (c : ℕ) → c ≢ b'\n' → c ≢ b'\r' → (c == b'\n' || c == b'\r') ≡ false
printable c hn hr = ground arith

-- With the cursor on the screen, a line end leaves the memory alone above the last row, and
-- scrolls it on the last row; the cursor goes to the start of the row below, or stays on the last
-- row.
pub putc_newline :
    (c : ℕ) (s : Screen)
    → IsValid s
    → (c ≡ b'\n') ⊎ (c ≡ b'\r')
    → let t = putc c s in
      (position t ≡ (if s.screen_y == 24 then 1920 else 80 * (s.screen_y + 1)))
      × (t.video_mem ≡ (if s.screen_y == 24 then scrolled s.video_mem else s.video_mem))
unfolding putc
putc_newline c s v h = rw (newline c h) (rw vertical_scrolling_lem (ground arith, ground arith))

-- With the cursor on the screen, a character that is no line end is written at the cursor, with
-- the attribute; the cursor moves on by one, and from the last cell the screen scrolls and the
-- cursor goes to the start of the last row.
pub putc_printable :
    (c : ℕ) (s : Screen)
    → IsValid s
    → c ≢ b'\n'
    → c ≢ b'\r'
    → let t = putc c s in
      let m = write_cell s.screen_y s.screen_x c s.video_mem in
      (position t ≡ (if position s == 1999 then 1920 else position s + 1))
      × (t.video_mem ≡ (if position s == 1999 then scrolled m else m))
unfolding putc
putc_printable c s v hn hr =
    rw (printable c hn hr) (rw vertical_scrolling_lem (ground arith, ground arith))

-- Backspace after a character that did not scroll puts the cursor back, and leaves a space with the
-- attribute in its cell and every other byte as it was.
pub backspace-putc :
    (c : ℕ) (s : Screen)
    → IsValid s
    → c ≢ b'\n'
    → c ≢ b'\r'
    → position s ≢ 1999
    → let t = backspace_handler (putc c s) in
      (t.screen_x ≡ s.screen_x)
      × (t.screen_y ≡ s.screen_y)
      × ((o : ℕ) → t.video_mem o ≡ write_cell s.screen_y s.screen_x b' ' s.video_mem o)
unfolding putc backspace_handler
backspace-putc c s v hn hr hp =
    rw (printable c hn hr)
      (rw vertical_scrolling_lem (ground arith, ground arith, λ o. ground arith))
