-- ===== src/Terminal.antt =====
-- terminal.c, over the keyboard's line and the screen.
pub mod Output
pub mod Reading
mod Tests
use mp.Prelude.{ℕ, zero, suc, ◌+◌, ◌==◌, ◌||◌, if◌then◌else◌, List, set, Memory, update}
use mp.Prelude.Int.{ℤ, pos, failure, pos_part, ltb_ℤ}
use mp.Screen.{clean_screen}
use mp.Keyboard.{Keyboard, clean_buffer, keyboard_read, max_buffer_size}

-- The keyboard with its screen, and `terminal_buffer`.
pub record Terminal : Type 0 where
  pub keyboard : Keyboard
  pub terminal_buffer : List ℕ

unfoldable pub terminal_open : Terminal → ℤ × Terminal
terminal_open t = (pos 1, t)

-- The loop of `clean_terminal_buffer`, from `i` on.
unfoldable pub clean_bytes : ℕ → ℕ → List ℕ → List ℕ
clean_bytes zero i b = b
clean_bytes (suc left) i b = clean_bytes left (i + 1) (set b i 0)

unfoldable pub clean_terminal_buffer : Terminal → Terminal
clean_terminal_buffer t = record t {
  terminal_buffer = clean_bytes (max_buffer_size + 1) 0 t.terminal_buffer;
}

unfoldable pub terminal_close : Terminal → ℤ × Terminal
terminal_close t = (
  pos 1,
  clean_terminal_buffer (record t {
    keyboard = clean_buffer (record t.keyboard { screen = clean_screen t.keyboard.screen });
  }),
)

-- The loop that copies the keyboard's bytes to the address `buf`.
unfoldable pub read_loop : ℕ → ℕ → ℕ → Keyboard → Memory → Memory
read_loop zero i buf k m = m
read_loop (suc left) i buf k m =
    read_loop left (i + 1) buf k (update m (buf + i) (keyboard_read i k))

-- The address 0 is the null pointer.
unfoldable pub terminal_read : ℕ → ℤ → Terminal → Memory → ℤ × Memory
terminal_read buf nbytes t m =
    if buf == 0 || ltb_ℤ nbytes (pos 0) || ltb_ℤ (pos max_buffer_size) nbytes
    then (failure, m)
    else (nbytes, read_loop (pos_part nbytes) 0 buf t.keyboard m)
