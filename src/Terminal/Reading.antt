-- ===== src/Terminal/Reading.antt =====
-- What `terminal_read` gives, and what `terminal_close` clears.
use mp.Prelude.{ℕ, zero, suc, ◌+◌, ◌-◌, ◌≤◌, ◌<◌, ◌≡◌, refl, ◌∙◌, ap, arith, Bool}
use mp.Prelude.{List, [], ◌∷◌, ◌++◌, length, set, get_or, ltb, leb, ◌==◌, ◌||◌, ◌&&◌, if◌then◌else◌}
use mp.Prelude.{not, get_elem?, some, dec_lt, get_elem?-set_self, get_elem?-set_ne}
use mp.Prelude.{Memory, update, length-set}
use mp.Prelude.Int.{ℤ, pos, negsuc, pos_part, failure, ltb_ℤ}
use mp.Prelude.{sym, get_or-take, take-suc-set}
use mp.Keyboard.{handle_keyboard_irq, handle_key, handle_special_key, special, handle_char}
use mp.Keyboard.Map.{column}
use mp.Keyboard.{Keyboard, keyboard_read, clean_buffer}
use mp.Keyboard.Refine.{view}
use mp.Keyboard.Bounds
use mp.Terminal.{
  Terminal, read_loop, terminal_read, terminal_close, clean_bytes, clean_terminal_buffer,
}

hit : (k : Keyboard) (buf i a : ℕ) → a ≡ buf + i → keyboard_read (a - buf) k ≡ keyboard_read i k
hit k buf i a e = ap (λ (j : ℕ). keyboard_read j k) (omega arith)

read_loop-at :
    (left i buf : ℕ) (k : Keyboard) (m : Memory) (a : ℕ)
    → read_loop left i buf k m a
      ≡ (if leb (buf + i) a && ltb a (buf + i + left) then keyboard_read (a - buf) k else m a)
unfolding read_loop
read_loop-at zero i buf k m a = ground arith
read_loop-at (suc left) i buf k m a = ground (
  arith,
  read_loop-at left (i + 1) buf k (update m (buf + i) (keyboard_read i k)) a,
  hit k buf i a,
)

-- The arguments that `terminal_read` does not take.
abbrev pub refuses : ℕ → ℤ → Bool
refuses buf nbytes = buf == 0 || ltb_ℤ nbytes (pos 0) || ltb_ℤ (pos 127) nbytes

-- `terminal_read` refuses a null buffer, a negative length and one above 127 with -1, and writes
-- nothing. Otherwise it returns the length, the bytes at `buf` become the first bytes of the
-- keyboard's buffer, and no other byte changes.
pub terminal_read_lem :
    (buf : ℕ) (nbytes : ℤ) (t : Terminal) (m : Memory) (a : ℕ)
    → let r = terminal_read buf nbytes t m in
      (r.0 ≡ (if refuses buf nbytes then failure else nbytes))
      × (r.1 a ≡ (
          if not (refuses buf nbytes) && leb buf a && ltb a (buf + pos_part nbytes)
          then keyboard_read (a - buf) t.keyboard
          else m a))
unfolding terminal_read
terminal_read_lem buf (pos n) t m a = ground (arith, read_loop-at n 0 buf t.keyboard m a)
terminal_read_lem buf (negsuc n) t m a = ground arith

clean_bytes-zero :
    (left i : ℕ) (b : List ℕ) (j : ℕ)
    → i + left ≤ length b
    → (length (clean_bytes left i b) ≡ length b)
      × (i ≤ j → j < i + left → get_elem? (clean_bytes left i b) j ≡ some 0)
      × (j < i → get_elem? (clean_bytes left i b) j ≡ get_elem? b j)
unfolding clean_bytes
clean_bytes-zero zero i b j h = (refl, (λ lo hi. absurd (omega arith)), (λ lt. refl))
clean_bytes-zero (suc left) i b j h =
    let (len, inside, before) =
      clean_bytes-zero left (i + 1) (set b i 0) j (omega (arith, length-set b i 0)) in
    (
      len ∙ length-set b i 0,
      (λ lo hi. elim (dec_lt i j) [
        | yes p ↦ inside (omega arith) (omega arith)
        | no p ↦ before (omega arith) ∙ at_i (omega arith)
      ]),
      (λ lt. before (omega arith) ∙ get_elem?-set_ne b i j 0 (omega arith)),
    )
  where
    at_i : j ≡ i → get_elem? (set b i 0) j ≡ some 0
    at_i e = rw e (get_elem?-set_self b i 0 (omega arith))

-- `terminal_close` returns 1; no line is left, and all of the terminal's 128 bytes are 0.
pub terminal_close_lem :
    (t : Terminal) (j : ℕ)
    → length t.terminal_buffer ≡ 128
    → j < 128
    → let r = terminal_close t in
      (r.0 ≡ pos 1) × ((view r.1.keyboard).line ≡ []) × (get_elem? r.1.terminal_buffer j ≡ some 0)
unfolding terminal_close clean_buffer clean_terminal_buffer
terminal_close_lem t j e h = (
  refl,
  refl,
  (clean_bytes-zero 128 0 t.terminal_buffer j (omega arith)).1 (omega arith) (omega arith),
)

enter_buffer :
    (k : Keyboard)
    → (handle_keyboard_irq 0x1C k).keyboard_buffer ≡ set k.keyboard_buffer k.buffer_position b'\n'
unfolding handle_keyboard_irq handle_key handle_special_key special handle_char clean_buffer column
enter_buffer k = ground arith

-- After Enter on a line of less than 127 characters, a read of one byte more than the line had, to
-- a buffer that is not null, gives the line and the new line character, and returns their number.
pub enter_then_read :
    (k : Keyboard) (t : Terminal) (m : Memory) (buf i : ℕ)
    → Bounds.IsValid k
    → t.keyboard ≡ handle_keyboard_irq 0x1C k
    → 0 < buf
    → k.buffer_position < 127
    → i ≤ k.buffer_position
    → let r = terminal_read buf (pos (suc k.buffer_position)) t m in
      (r.0 ≡ pos (suc k.buffer_position))
      × (r.1 (buf + i) ≡ get_or ((view k).line ++ (b'\n' ∷ [])) i 0)
unfolding keyboard_read
enter_then_read k t m buf i v e hb room hi =
    let (n, at) = terminal_read_lem buf (pos (suc k.buffer_position)) t m (buf + i) in
    ground (arith, n, at, byte)
  where
    b : List ℕ
    b = set k.keyboard_buffer k.buffer_position b'\n'

    stored : keyboard_read i t.keyboard ≡ get_or b i 0
    stored = rw (e, keyboard_read, enter_buffer k) refl

    line : get_or b i 0 ≡ get_or ((view k).line ++ (b'\n' ∷ [])) i 0
    line =
        sym (get_or-take (suc k.buffer_position) b i 0 (omega arith))
        ∙ ap (λ (xs : List ℕ). get_or xs i 0)
            (take-suc-set k.keyboard_buffer k.buffer_position b'\n' (omega (arith, v)))

    byte : keyboard_read (buf + i - buf) t.keyboard ≡ get_or ((view k).line ++ (b'\n' ∷ [])) i 0
    byte = hit t.keyboard buf i (buf + i) refl ∙ (stored ∙ line)
