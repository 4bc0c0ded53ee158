-- ===== src/Screen/Tests.antt =====
-- The screen at concrete cells.
use mp.Prelude.{ℕ, ◌≡◌, refl, arith, [], ◌∷◌}
use mp.Screen.{puts, clean_screen}
use mp.Screen.Paper.{Shows, type_char, type_text, empty_paper, puts-Shows, clean_screen-Shows}
use mp.Screen.{Screen, putc}
use mp.Screen.Bounds.{putc_in_bounds}

abbrev video : ℕ → ℕ
video o = o

-- The last cell of the screen, and one in the middle.
abbrev corner : Screen
corner = record { screen_x = 79; screen_y = 24; video_mem = video; sent = [] }

abbrev middle : Screen
middle = record { screen_x = 79; screen_y = 3; video_mem = video; sent = [] }

putc_in_bounds_example : (putc b'a' corner).video_mem 4000 ≡ 4000
putc_in_bounds_example = putc_in_bounds b'a' corner 4000 (omega arith) (omega arith)

-- Two lines on a cleared screen.
puts-Shows_example :
    Shows
      (puts (b'h' ∷ b'i' ∷ b'\n' ∷ b'!' ∷ []) (clean_screen corner))
      (type_text (b'h' ∷ b'i' ∷ b'\n' ∷ b'!' ∷ []) empty_paper)
puts-Shows_example =
    puts-Shows (b'h' ∷ b'i' ∷ b'\n' ∷ b'!' ∷ []) (clean_screen corner) empty_paper
      (clean_screen-Shows corner)

-- What the paper holds then: the last character stands at the start of the second row.
second_row : (type_text (b'h' ∷ b'i' ∷ b'\n' ∷ b'!' ∷ []) empty_paper).ink 80 ≡ b'!'
unfolding type_text type_char
second_row = refl
