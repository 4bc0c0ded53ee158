-- ===== src/Screen/Clearing.antt =====
-- The two ways to clear the screen, `test_interrupts`, and the unused functions of cursor.c.
use mp.Prelude.{ℕ, zero, suc, ◌+◌, ◌*◌, ◌%◌, ◌≡◌, refl, sym, ◌∙◌, ap, fun_ext, arith}
use mp.Prelude.{leb, ltb, ◌==◌, ◌&&◌, if◌then◌else◌, Memory, update, Trace, last_byte}
use mp.Screen.{Screen, clean_screen, clear}
use mp.Screen.{test_interrupts, bump_cells, disable_cursor}
use mp.Screen.Scroll.{cleared, clear_eq_clean}

-- `clean_screen` blanks every cell and puts the cursor at the origin.
pub clean_screen_lem :
    (s : Screen)
    → let t = clean_screen s in
      (t.screen_x ≡ 0) × (t.screen_y ≡ 0) × (t.video_mem ≡ cleared s.video_mem)
unfolding clean_screen
clean_screen_lem s = (refl, refl, (clear_eq_clean s.video_mem).1)

-- `clear` leaves the memory that `clean_screen` does, but the cursor where it was.
pub clear_lem : (s : Screen) → clear s ≡ record s { video_mem = (clean_screen s).video_mem }
unfolding clear clean_screen
clear_lem s =
    let (a, b) = clear_eq_clean s.video_mem in
    ap (λ (m : Memory). record s { video_mem = m }) (a ∙ sym b)

-- `test_interrupts` adds 1, modulo 256, to every character of the screen, and to nothing else.
bump_cells-at :
    (left i : ℕ) (m : Memory) (o : ℕ)
    → bump_cells left i m o
      ≡ (if leb (2 * i) o && ltb o (2 * i + 2 * left) && o % 2 == 0 then (m o + 1) % 256 else m o)
unfolding bump_cells
bump_cells-at zero i m o = ground arith
bump_cells-at (suc left) i m o =
    ground (arith, bump_cells-at left (i + 1) (update m (i * 2) ((m (i * 2) + 1) % 256)) o)

pub test_interrupts_lem :
    (s : Screen)
    → test_interrupts s ≡ record s {
      video_mem =
          λ o. if ltb o 4000 && o % 2 == 0 then (s.video_mem o + 1) % 256 else s.video_mem o;
    }
unfolding test_interrupts
test_interrupts_lem s =
    ap (λ (m : Memory). record s { video_mem = m })
      (fun_ext λ o. ground (arith, bump_cells-at 2000 0 s.video_mem o))

-- `disable_cursor` gives the port for the byte and the byte for the port: neither port of the
-- display receives anything, and what they hold stays.
pub disable_cursor_misses :
    (t : Trace)
    → (last_byte (disable_cursor t) 0x3D4 ≡ last_byte t 0x3D4)
      × (last_byte (disable_cursor t) 0x3D5 ≡ last_byte t 0x3D5)
unfolding disable_cursor
disable_cursor_misses t = (refl, refl)
