-- ===== src/Terminal/Output.antt =====
-- `terminal_write` of terminal.c, which the keyboard handler and the system call share.
use mp.Prelude.{ℕ, zero, suc, ◌+◌, Option, none, some, Memory}
use mp.Prelude.Int.{ℤ, pos, failure, pos_part}
use mp.Screen.{Screen, putc}

-- The loop from `count` on, with the rounds left. A buffer is the bytes from its address on.
unfoldable pub write_loop : ℕ → ℕ → Memory → Screen → Screen
write_loop zero count buf s = s
write_loop (suc left) count buf s = write_loop left (count + 1) buf (putc (buf count) s)

-- `none` is the null pointer; a negative `nbytes` makes no round and returns 0.
unfoldable pub terminal_write : Option Memory → ℤ → Screen → ℤ × Screen
terminal_write none nbytes s = (failure, s)
terminal_write (some buf) nbytes s = (pos (pos_part nbytes), write_loop (pos_part nbytes) 0 buf s)
