-- ===== src/Keyboard/Map.antt =====
-- The table `scancode_map` of keyboard.c, and what its columns have to do with one another.
use mp.Prelude.{
  ℕ, ◌-◌, ◌<◌, ◌≡◌, refl, arith, Bool, true, ◌&&◌, ◌||◌, not, leb, ◌==◌, if◌then◌else◌,
}
use mp.Prelude.{List, [], ◌∷◌, get_or, holds_below, holds_below-at}

-- A key's characters: plain, with shift, with capslock, with both.
abbrev key : ℕ → ℕ → ℕ → ℕ → List ℕ
key plain shift caps both = plain ∷ shift ∷ caps ∷ both ∷ []

unfoldable pub scancode_map : List (List ℕ)
scancode_map =
    key 0 0 0 0
    ∷ key 0 0 0 0
    ∷ key b'1' b'!' b'1' b'!'
    ∷ key b'2' b'@' b'2' b'@'
    ∷ key b'3' b'#' b'3' b'#'
    ∷ key b'4' b'$' b'4' b'$'
    ∷ key b'5' b'%' b'5' b'%'
    ∷ key b'6' b'^' b'6' b'^'
    ∷ key b'7' b'&' b'7' b'&'
    ∷ key b'8' b'*' b'8' b'*'
    ∷ key b'9' b'(' b'9' b'('
    ∷ key b'0' b')' b'0' b')'
    ∷ key b'-' b'_' b'-' b'_'
    ∷ key b'=' b'+' b'=' b'+'
    ∷ key 8 8 8 8
    ∷ key 0 0 0 0
    ∷ key b'q' b'Q' b'Q' b'q'
    ∷ key b'w' b'W' b'W' b'w'
    ∷ key b'e' b'E' b'E' b'e'
    ∷ key b'r' b'R' b'R' b'r'
    ∷ key b't' b'T' b'T' b't'
    ∷ key b'y' b'Y' b'Y' b'y'
    ∷ key b'u' b'U' b'U' b'u'
    ∷ key b'i' b'I' b'I' b'i'
    ∷ key b'o' b'O' b'O' b'o'
    ∷ key b'p' b'P' b'P' b'p'
    ∷ key b'[' b'{' b'[' b'{'
    ∷ key b']' b'}' b']' b'}'
    ∷ key b'\n' b'\n' b'\n' b'\n'
    ∷ key 0 0 0 0
    ∷ key b'a' b'A' b'A' b'a'
    ∷ key b's' b'S' b'S' b's'
    ∷ key b'd' b'D' b'D' b'd'
    ∷ key b'f' b'F' b'F' b'f'
    ∷ key b'g' b'G' b'G' b'g'
    ∷ key b'h' b'H' b'H' b'h'
    ∷ key b'j' b'J' b'J' b'j'
    ∷ key b'k' b'K' b'K' b'k'
    ∷ key b'l' b'L' b'L' b'l'
    ∷ key b';' b':' b':' b':'
    ∷ key 39 34 39 34
    ∷ key b'`' b'~' b'`' b'~'
    ∷ key 0 0 0 0
    ∷ key b'\\' b'|' b'\\' b'|'
    ∷ key b'z' b'Z' b'Z' b'z'
    ∷ key b'x' b'X' b'X' b'x'
    ∷ key b'c' b'C' b'C' b'c'
    ∷ key b'v' b'V' b'V' b'v'
    ∷ key b'b' b'B' b'V' b'b'
    ∷ key b'n' b'N' b'N' b'n'
    ∷ key b'm' b'M' b'M' b'm'
    ∷ key b',' b'<' b',' b'<'
    ∷ key b'.' b'>' b'.' b'>'
    ∷ key b'/' b'?' b'/' b'?'
    ∷ key 0 0 0 0
    ∷ key 0 0 0 0
    ∷ key 0 0 0 0
    ∷ key b' ' b' ' b' ' b' '
    ∷ []

-- `scancode_map[scancode][mode]`
unfoldable pub column : ℕ → ℕ → ℕ
unfolding scancode_map
column scancode mode = get_or (get_or scancode_map scancode []) mode 0

abbrev is_lower : ℕ → Bool
is_lower c = leb b'a' c && leb c b'z'

-- Shift, capslock and both at a letter, but for capslock at the key 0x30.
letter_test : ℕ → Bool
letter_test n =
    not (is_lower (column n 0))
    || (column n 1 == column n 0 - 32
        && column n 3 == column n 0
        && (if n == 0x30 then column n 2 == b'V' else column n 2 == column n 0 - 32))

letters : holds_below 58 letter_test ≡ true
unfolding holds_below letter_test column
letters = refl

-- A key of a letter gives the capital with shift, the letter with shift and capslock, and the capital
-- with capslock, except the key 0x30: capslock turns its b into a V.
pub letter_keys :
    (n : ℕ)
    → n < 58
    → is_lower (column n 0) ≡ true
    → (column n 1 ≡ column n 0 - 32)
      × (column n 3 ≡ column n 0)
      × (column n 2 ≡ (if n == 0x30 then b'V' else column n 0 - 32))
unfolding letter_test
letter_keys n h l = ground (arith, holds_below-at 58 letter_test letters n h)
