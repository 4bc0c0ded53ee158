-- ===== src/Screen.antt =====
-- The text screen of lib.c, with the cursor of cursor.c: `putc`, scrolling, backspace, clearing.
pub mod Scroll
pub mod Bounds
pub mod Writing
pub mod Paper
pub mod Clearing
mod Tests
use mp.Prelude.{
  ℕ, zero, suc, ◌+◌, ◌-◌, ◌*◌, ◌/◌, ◌%◌, ◌^◌, Bool, ◌||◌, ◌&&◌, leb, ◌==◌, if◌then◌else◌,
}
use mp.Prelude.{List, [], ◌∷◌, Memory, update, Trace, outb, bit_or, bit_and}

abbrev pub num_cols : ℕ
num_cols = 80

abbrev pub num_rows : ℕ
num_rows = 25

abbrev pub attrib : ℕ
attrib = 0x7

-- `screen_x`, `screen_y`, the bytes from `video_mem` on, and what the cursor's ports received.
pub record Screen : Type 0 where
  pub screen_x : ℕ
  pub screen_y : ℕ
  pub video_mem : Memory
  pub sent : Trace

-- The offset of a cell's character; its attribute is the byte after.
abbrev pub cell : ℕ → ℕ → ℕ
cell row col = (num_cols * row + col) * 2

abbrev pub write_cell : ℕ → ℕ → ℕ → Memory → Memory
write_cell row col c m = update (update m (cell row col) c) (cell row col + 1) attrib

-- `update_cursor(x, y)`. The position is a uint16_t.
unfoldable pub update_cursor : ℕ → ℕ → Trace → Trace
update_cursor x y t =
    let pos = (num_cols * y + x) % 2 ^ 16 in
    outb (pos / 256) 0x3D5 (outb 0x0E 0x3D4 (outb pos 0x3D5 (outb 0x0F 0x3D4 t)))

-- The inner and the outer loop that move the rows up, with the rounds left.
unfoldable pub row_up : ℕ → ℕ → ℕ → Memory → Memory
row_up zero i j m = m
row_up (suc left) i j m =
    let m₁ = update m (cell i j) (m (cell (i + 1) j)) in
    row_up left i (j + 1) (update m₁ (cell i j + 1) (m₁ (cell (i + 1) j + 1)))

unfoldable pub rows_up : ℕ → ℕ → Memory → Memory
rows_up zero i m = m
rows_up (suc left) i m = rows_up left (i + 1) (row_up num_cols i 0 m)

-- A loop that writes blanks to a row, from column `j` on.
unfoldable pub blank_row : ℕ → ℕ → ℕ → Memory → Memory
blank_row zero i j m = m
blank_row (suc left) i j m = blank_row left i (j + 1) (write_cell i j b' ' m)

unfoldable pub vertical_scrolling : Screen → Screen
vertical_scrolling s =
    if leb num_rows s.screen_y
    then record s {
      screen_y = num_rows - 1;
      video_mem = blank_row num_cols (num_rows - 1) 0 (rows_up (num_rows - 1) 0 s.video_mem);
    }
    else s

-- The character is written and the cursor moves on, to the next row behind the last column.
abbrev pub advance : ℕ → Screen → Screen
advance c s =
    let m = write_cell s.screen_y s.screen_x c s.video_mem in
    if leb 80 (s.screen_x + 1)
    then record s { screen_x = 0; screen_y = s.screen_y + 1; video_mem = m }
    else record s { screen_x = s.screen_x + 1; video_mem = m }

abbrev pub move_cursor : Screen → Screen
move_cursor s = record s { sent = update_cursor s.screen_x s.screen_y s.sent }

unfoldable pub putc : ℕ → Screen → Screen
putc c s = move_cursor (
    vertical_scrolling (
      if c == b'\n' || c == b'\r'
      then record s { screen_y = s.screen_y + 1; screen_x = 0 }
      else advance c s))

-- The attribute of the erased cell is left as it is.
unfoldable pub backspace_handler : Screen → Screen
backspace_handler s =
    if s.screen_x == 0 && s.screen_y == 0
    then s
    else if s.screen_x == 0
    then erase (record s { screen_y = s.screen_y - 1; screen_x = num_cols - 1 })
    else erase (record s { screen_x = s.screen_x - 1 })
  where
    erase : Screen → Screen
    erase t =
        move_cursor (record t { video_mem = update t.video_mem (cell t.screen_y t.screen_x) b' ' })

-- The nested loops of `clean_screen`, by the rows left.
unfoldable pub clean_rows : ℕ → ℕ → Memory → Memory
clean_rows zero i m = m
clean_rows (suc left) i m = clean_rows left (i + 1) (blank_row num_cols i 0 m)

unfoldable pub clean_screen : Screen → Screen
clean_screen s =
    move_cursor
      (record s { screen_x = 0; screen_y = 0; video_mem = clean_rows num_rows 0 s.video_mem })

-- The loop of `clear`, which leaves the cursor alone.
unfoldable pub clear_cells : ℕ → ℕ → Memory → Memory
clear_cells zero i m = m
clear_cells (suc left) i m =
    clear_cells left (i + 1) (update (update m (i * 2) b' ') (i * 2 + 1) attrib)

unfoldable pub clear : Screen → Screen
clear s = record s { video_mem = clear_cells (num_rows * num_cols) 0 s.video_mem }

-- The loop of `puts` over the bytes of a string before its NUL.
unfoldable pub puts : List ℕ → Screen → Screen
unfolding putc
puts [] s = s
puts (c ∷ cs) s = puts cs (putc c s)

-- The loop of `test_interrupts`: `video_mem[i << 1]++`.
unfoldable pub bump_cells : ℕ → ℕ → Memory → Memory
bump_cells zero i m = m
bump_cells (suc left) i m = bump_cells left (i + 1) (update m (i * 2) ((m (i * 2) + 1) % 256))

unfoldable pub test_interrupts : Screen → Screen
test_interrupts s = record s { video_mem = bump_cells (num_rows * num_cols) 0 s.video_mem }

-- The unused functions of cursor.c, as the source calls the `outb` macro (data, then port); `read`
-- is the byte that `inb(0x3D5)` gives.
unfoldable pub enable_cursor : ℕ → ℕ → ℕ → Trace → Trace
enable_cursor read cursor_start cursor_end t =
    let start = bit_or (bit_and read 0xC0) cursor_start in
    outb 0x3D5 (bit_or (bit_and read 0xE0) cursor_end)
      (outb 0x3D4 0x0B (outb start start (outb 0x0A 0x3D4 t)))

unfoldable pub disable_cursor : Trace → Trace
disable_cursor t = outb 0x3D5 0x20 (outb 0x3D4 0x0A t)
