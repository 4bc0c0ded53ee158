-- ===== src/Screen/Scroll.antt =====
-- What the loops of lib.c do to every byte of the video memory.
use mp.Prelude.{ℕ, zero, suc, ◌+◌, ◌*◌, ◌%◌, ◌≡◌, ap, fun_ext, arith}
use mp.Prelude.{Bool, ◌&&◌, ltb, leb, ◌==◌, if◌then◌else◌, Memory, update}
use mp.Screen.{Screen, num_cols, num_rows, attrib, cell, row_up, rows_up, blank_row, clean_rows}
use mp.Screen.{write_cell, clear_cells, vertical_scrolling}

-- What a blank cell holds at the offset `o`: a space, or the attribute.
abbrev pub blank : ℕ → ℕ
blank o = if o % 2 == 0 then b' ' else attrib

abbrev pub within : ℕ → ℕ → ℕ → Bool
within lo hi o = leb lo o && ltb o hi

-- One round of the inner loop.
abbrev step : ℕ → ℕ → Memory → Memory
step i j m =
    let m₁ = update m (cell i j) (m (cell (i + 1) j)) in
    update m₁ (cell i j + 1) (m₁ (cell (i + 1) j + 1))

row_up-at :
    (left i j : ℕ) (m : Memory) (o : ℕ)
    → row_up left i j m o ≡ (if within (cell i j) (cell i j + 2 * left) o then m (o + 160) else m o)
unfolding row_up
row_up-at zero i j m o = ground arith
row_up-at (suc left) i j m o = ground (arith, row_up-at left i (j + 1) (step i j m) o)

rows_up-at :
    (left i : ℕ) (m : Memory) (o : ℕ)
    → rows_up left i m o ≡ (if within (160 * i) (160 * i + 160 * left) o then m (o + 160) else m o)
unfolding rows_up
rows_up-at zero i m o = ground arith
rows_up-at (suc left) i m o = ground (
  arith,
  rows_up-at left (i + 1) (row_up num_cols i 0 m) o,
  row_up-at num_cols i 0 m o,
  row_up-at num_cols i 0 m (o + 160),
)

blank_row-at :
    (left i j : ℕ) (m : Memory) (o : ℕ)
    → blank_row left i j m o ≡ (if within (cell i j) (cell i j + 2 * left) o then blank o else m o)
unfolding blank_row
blank_row-at zero i j m o = ground arith
blank_row-at (suc left) i j m o =
    ground (arith, blank_row-at left i (j + 1) (write_cell i j b' ' m) o)

whole_row :
    (i : ℕ) (m : Memory) (o : ℕ)
    → blank_row num_cols i 0 m o ≡ (if within (160 * i) (160 * i + 160) o then blank o else m o)
whole_row i m o = ground (arith, blank_row-at num_cols i 0 m o)

-- The memory after the rows have moved up, with a blank last row.
abbrev pub scrolled : Memory → Memory
scrolled m = λ o. if ltb o 3840 then m (o + 160) else if ltb o 4000 then blank o else m o

-- `vertical_scrolling` changes nothing while the cursor is on the screen. Below it, every row moves
-- up by one, the last becomes blank, the bytes behind the screen stay, and the cursor is put on the
-- last row.
pub vertical_scrolling_lem :
    (s : Screen)
    → vertical_scrolling s ≡ (
        if leb 25 s.screen_y
        then record s { screen_y = 24; video_mem = scrolled s.video_mem }
        else s)
unfolding vertical_scrolling
vertical_scrolling_lem s =
    ap (λ (m : Memory). if leb 25 s.screen_y then record s { screen_y = 24; video_mem = m } else s)
      (fun_ext λ o.
        ground (arith, whole_row 24 (rows_up 24 0 s.video_mem) o, rows_up-at 24 0 s.video_mem o))

clean_rows-at :
    (left i : ℕ) (m : Memory) (o : ℕ)
    → clean_rows left i m o ≡ (if within (160 * i) (160 * i + 160 * left) o then blank o else m o)
unfolding clean_rows
clean_rows-at zero i m o = ground arith
clean_rows-at (suc left) i m o =
    ground (arith, clean_rows-at left (i + 1) (blank_row num_cols i 0 m) o, whole_row i m o)

clear_cells-at :
    (left i : ℕ) (m : Memory) (o : ℕ)
    → clear_cells left i m o ≡ (if within (2 * i) (2 * i + 2 * left) o then blank o else m o)
unfolding clear_cells
clear_cells-at zero i m o = ground arith
clear_cells-at (suc left) i m o =
    ground
      (arith, clear_cells-at left (i + 1) (update (update m (i * 2) b' ') (i * 2 + 1) attrib) o)

-- The blank screen: the bytes behind it stay.
abbrev pub cleared : Memory → Memory
cleared m = λ o. if ltb o 4000 then blank o else m o

-- `clear` and the loops of `clean_screen` leave the same memory: every cell blank.
pub clear_eq_clean :
    (m : Memory)
    → (clear_cells (num_rows * num_cols) 0 m ≡ cleared m) × (clean_rows num_rows 0 m ≡ cleared m)
clear_eq_clean m = (
  fun_ext (λ o. ground (arith, clear_cells-at 2000 0 m o)),
  fun_ext (λ o. ground (arith, clean_rows-at 25 0 m o)),
)
