-- ===== src/Strings.antt =====
-- The text functions of lib.c: numbers to text, `printf`, and the functions on C strings in memory.
pub mod Copies
pub mod Digits
pub mod Formats
pub mod Lengths
pub mod Padding
pub mod Hex
pub mod Sets
mod Tests
use Prim.Native.Char.{code}
use Prim.Native.String.{String}
use mp.Prelude.{
  ℕ, zero, suc, ◌+◌, ◌-◌, ◌*◌, ◌/◌, ◌%◌, ◌^◌, Bool, true, false, ◌||◌, ◌&&◌, not, leb, ltb, ◌==◌,
}
use mp.Prelude.{
  if◌then◌else◌, Option, none, some, List, [], ◌∷◌, ◌++◌, length, get_or, set, replicate, drop,
}
use mathlib.Core.Option
use mp.Prelude.{Memory, update}
use mp.Prelude.Int.{ℤ, pos, sub_ℕ}
use mp.Screen.{Screen, putc, puts}

abbrev pub codes : String → List ℕ
codes String.[] = []
codes (String.◌∷◌ c s) = code c ∷ codes s

abbrev pub lookup : List ℕ
lookup = codes "0123456789ABCDEFGHIJKLMNOPQRSTUVWXYZ"

-- The loop of `strrev` on the bytes before the NUL; the fuel bounds the swaps.
unfoldable pub rev_loop : ℕ → ℕ → ℕ → List ℕ → List ℕ
rev_loop zero beg end s = s
rev_loop (suc fuel) beg end s =
    let swapped = set (set s end (get_or s beg 0)) beg (get_or s end 0) in
    let rest = rev_loop fuel (beg + 1) (end - 1) swapped in if ltb beg end then rest else s

-- `end` starts at `strlen(s) - 1`; for the empty string no round is made either way.
unfoldable pub strrev : List ℕ → List ℕ
strrev s = rev_loop (length s) 0 (length s - 1) s

-- The characters that the loop of `itoa` writes, in order.
unfoldable pub itoa_loop : ℕ → ℕ → ℕ → List ℕ
itoa_loop zero newval radix = []
itoa_loop (suc fuel) newval radix =
    let rest = itoa_loop fuel (newval / radix) radix in
    if ltb 0 newval then get_or lookup (newval % radix) 0 ∷ rest else []

-- The text that `itoa` leaves before the NUL. The value falls in every round, so it is fuel enough.
unfoldable pub itoa : ℕ → ℕ → List ℕ
itoa value radix = if value == 0 then b'0' ∷ [] else strrev (itoa_loop value value radix)

-- An argument of `printf` on the stack: a word, or the text of a string.
pub data Arg : Type 0 where
  word : ℕ → Arg
  text : List ℕ → Arg

-- The loop `while(i < 8)` of `%#x`; eight rounds are enough.
unfoldable pub pad_loop : ℕ → ℕ → List ℕ → List ℕ
pad_loop zero i conv_buf = conv_buf
pad_loop (suc left) i conv_buf =
    let rest = pad_loop left (i + 1) (set conv_buf i b'0') in if ltb i 8 then rest else conv_buf

-- `%#x`: `itoa` has written the digits from index 8 of the buffer on. The bytes before them are not
-- initialised, and 0 here; the text starts at the index of the first that the loop writes.
unfoldable pub padded : List ℕ → List ℕ
padded digits =
    let starting_index = length digits in
    drop starting_index (pad_loop 8 starting_index (replicate 8 0 ++ digits))

-- The text for a word: `%x`, `%#x`, `%u`, `%d` and `%c`.

unfoldable pub signed_text : ℕ → List ℕ
signed_text w = if ltb w (2 ^ 31) then itoa w 10 else b'-' ∷ itoa (2 ^ 32 - w) 10

unfoldable pub word_text : ℕ → Bool → ℕ → List ℕ
word_text c alternate w =
    if c == b'x'
    then (if alternate then padded (itoa w 16) else itoa w 16)
    else if c == b'u'
    then itoa w 10
    else if c == b'd'
    then signed_text w
    else (w % 256) ∷ []

abbrev pub takes_word : ℕ → Bool
takes_word c = c == b'x' || c == b'u' || c == b'd' || c == b'c'

-- What `printf` prints. A directive without an argument, which C leaves undefined, prints nothing
-- here, and a `%` at the end of the format ends it. The modes: outside a directive, behind `%`, and
-- behind `%#`.
pub data Mode : Type 0 where
  plain percent alternate : Mode

is_alternate : Mode → Bool
is_alternate alternate = true
is_alternate _ = false

convert_word : ℕ → Bool → List Arg → List ℕ × List Arg
convert_word c alt (word w ∷ rest) = (word_text c alt w, rest)
convert_word c alt args = ([], args)

convert_text : List Arg → List ℕ × List Arg
convert_text (text t ∷ rest) = (t, rest)
convert_text args = ([], args)

-- What a conversion prints, and the arguments that it leaves.
unfoldable pub convert : ℕ → Bool → List Arg → List ℕ × List Arg
unfolding convert_word convert_text
convert c alt args =
    if c == b'%'
    then (b'%' ∷ [], args)
    else if takes_word c
    then convert_word c alt args
    else if c == b's'
    then convert_text args
    else ([], args)

unfoldable pub format : Mode → List ℕ → List Arg → List ℕ
unfolding is_alternate
format mode [] args = []
format plain (c ∷ cs) args =
    let directive = format percent cs args in
    let literal = c ∷ format plain cs args in if c == b'%' then directive else literal
format mode (c ∷ cs) args =
    let flagged = format alternate cs args in
    let (out, rest) = convert c (is_alternate mode) args in
    let converted = out ++ format plain cs rest in if c == b'#' then flagged else converted

unfoldable pub printf : String → List Arg → Screen → Screen
printf fmt args s = puts (format plain (codes fmt) args) s

-- `strlen` from an address on; `none` means that no NUL was met within the fuel.
unfoldable pub strlen : ℕ → Memory → ℕ → Option ℕ
strlen zero m s = none
strlen (suc fuel) m s =
    let rest = Option.map suc (strlen fuel m (s + 1)) in if m s == 0 then some 0 else rest

-- s1[i] - s2[i] of two int8_t, by their bytes.
abbrev pub char_difference : ℕ → ℕ → ℤ
char_difference a b = sub_ℕ (if ltb a 128 then a + 256 else a) (if ltb b 128 then b + 256 else b)

-- `strncmp`, with the rounds left.
unfoldable pub strncmp : Memory → ℕ → ℕ → ℕ → ℤ
strncmp m s1 s2 zero = pos 0
strncmp m s1 s2 (suc n) =
    let rest = strncmp m (s1 + 1) (s2 + 1) n in
    if not (m s1 == m s2) || m s1 == 0 then char_difference (m s1) (m s2) else rest

-- `strcpy`, byte by byte through the NUL; each byte is read from the memory as it is then.
unfoldable pub strcpy : ℕ → ℕ → ℕ → Memory → Option Memory
strcpy zero dest src m = none
strcpy (suc fuel) dest src m =
    let rest = strcpy fuel (dest + 1) (src + 1) (update m dest (m src)) in
    if m src == 0 then some (update m dest 0) else rest

-- The two loops of `strncpy`.
unfoldable pub fill_zeros : ℕ → ℕ → Memory → Memory
fill_zeros zero dest m = m
fill_zeros (suc n) dest m = fill_zeros n (dest + 1) (update m dest 0)

unfoldable pub strncpy : ℕ → ℕ → ℕ → Memory → Memory
unfolding fill_zeros
strncpy zero dest src m = m
strncpy (suc n) dest src m =
    let rest = strncpy n (dest + 1) (src + 1) (update m dest (m src)) in
    let zeros = fill_zeros (suc n) dest m in if m src == 0 then zeros else rest

-- The assembly loops of `memcpy`: `movsb` one at a time, and `movsl`.
unfoldable pub copy_bytes : ℕ → ℕ → ℕ → Memory → Memory
copy_bytes zero dest src m = m
copy_bytes (suc n) dest src m = copy_bytes n (dest + 1) (src + 1) (update m dest (m src))

-- Four bytes are read and then written.
abbrev pub move_long : ℕ → ℕ → Memory → Memory
move_long dest src m =
    update
      (update (update (update m dest (m src)) (dest + 1) (m (src + 1))) (dest + 2) (m (src + 2)))
      (dest + 3) (m (src + 3))

unfoldable pub copy_longs : ℕ → ℕ → ℕ → Memory → Memory
copy_longs zero dest src m = m
copy_longs (suc n) dest src m = copy_longs n (dest + 4) (src + 4) (move_long dest src m)

-- `memcpy_top`: single bytes until the destination is aligned, then the longs, then the bytes left.
unfoldable pub memcpy : ℕ → ℕ → ℕ → Memory → Memory
memcpy dest src zero m = m
memcpy dest src (suc n) m =
    let k = suc n / 4 in
    let aligned = copy_bytes (suc n % 4) (dest + 4 * k) (src + 4 * k) (copy_longs k dest src m) in
    let rest = memcpy (dest + 1) (src + 1) n (update m dest (m src)) in
    if dest % 4 == 0 then aligned else rest
