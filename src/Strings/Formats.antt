-- ===== src/Strings/Formats.antt =====
-- What `printf` prints for a format that is put together from its directives.
use mp.Prelude.{
  ℕ, ◌+◌, ◌-◌, ◌%◌, ◌^◌, ◌≡◌, ◌≢◌, ◌<◌, refl, ◌∙◌, sym, ap, arith, List, [], ◌∷◌, ◌++◌,
}
use mp.Prelude.Int.{ℤ, pos, negsuc}
use mathlib.Core.Path.{subst}
use Prim.Native.String.{String}
use mp.Screen.{Screen, puts}
use mp.Screen.Paper.{Paper, Shows, type_text, puts-Shows}
use mp.Prelude.{replicate, length}
use mp.Strings.Hex.{padded-itoa}
use mp.Strings.{
  Arg, word, text, plain, itoa, signed_text, word_text, convert, format, codes, printf,
}

-- A character, a directive with its argument, or `%%`.
pub data Piece : Type 0 where
  literal : ℕ → Piece
  percent_sign : Piece
  hex hex_padded unsigned char : ℕ → Piece
  signed : ℤ → Piece
  string : List ℕ → Piece

abbrev pub directive : Piece → List ℕ
directive (literal c) = c ∷ []
directive percent_sign = b'%' ∷ b'%' ∷ []
directive (hex w) = b'%' ∷ b'x' ∷ []
directive (hex_padded w) = b'%' ∷ b'#' ∷ b'x' ∷ []
directive (unsigned w) = b'%' ∷ b'u' ∷ []
directive (char c) = b'%' ∷ b'c' ∷ []
directive (signed z) = b'%' ∷ b'd' ∷ []
directive (string t) = b'%' ∷ b's' ∷ []

-- The 32 bits of an int32_t.
abbrev pub bits : ℤ → ℕ
bits (pos n) = n
bits (negsuc n) = 2 ^ 32 - (n + 1)

abbrev pub argument : Piece → List Arg
argument (literal c) = []
argument percent_sign = []
argument (hex w) = word w ∷ []
argument (hex_padded w) = word w ∷ []
argument (unsigned w) = word w ∷ []
argument (char c) = word c ∷ []
argument (signed z) = word (bits z) ∷ []
argument (string t) = text t ∷ []

abbrev pub decimal : ℤ → List ℕ
decimal (pos n) = itoa n 10
decimal (negsuc n) = b'-' ∷ itoa (n + 1) 10

-- The text of a piece.
abbrev pub shown : Piece → List ℕ
shown (literal c) = c ∷ []
shown percent_sign = b'%' ∷ []
shown (hex w) = itoa w 16
shown (hex_padded w) = replicate (8 - length (itoa w 16)) b'0' ++ itoa w 16
shown (unsigned w) = itoa w 10
shown (char c) = (c % 256) ∷ []
shown (signed z) = decimal z
shown (string t) = t

abbrev pub all_of {ℓ} : {A : Type ℓ} → (Piece → List A) → List Piece → List A
all_of f [] = []
all_of f (p ∷ ps) = f p ++ all_of f ps

-- A literal is no `%`, the word of `%#x` has 32 bits, and a signed number is an int32_t.
abbrev pub IsPiece : Piece → Type 0
IsPiece (literal c) = c ≢ b'%'
IsPiece (hex_padded w) = w < 2 ^ 32
IsPiece (signed (pos n)) = n < 2 ^ 31
IsPiece (signed (negsuc n)) = n < 2 ^ 31
IsPiece _ = Unit {0}

abbrev pub ArePieces : List Piece → Type 0
ArePieces [] = Unit {0}
ArePieces (p ∷ ps) = IsPiece p × ArePieces ps

signed_text-decimal : (z : ℤ) → IsPiece (signed z) → signed_text (bits z) ≡ decimal z
unfolding signed_text
signed_text-decimal (pos n) h = ground arith
signed_text-decimal (negsuc n) h = ground (arith, ap (λ (m : ℕ). itoa m 10) (back n h))
  where
    back : (n : ℕ) → n < 2 ^ 31 → 2 ^ 32 - (2 ^ 32 - (n + 1)) ≡ n + 1
    back n h = omega arith

-- One piece at the start of a format.
format-piece :
    (p : Piece) (cs : List ℕ) (args : List Arg)
    → IsPiece p
    → format plain (directive p ++ cs) (argument p ++ args) ≡ shown p ++ format plain cs args
unfolding format convert word_text
format-piece (literal c) cs args h = ground arith
format-piece percent_sign cs args h = refl
format-piece (hex w) cs args h = refl
format-piece (hex_padded w) cs args h =
    ap (λ (t : List ℕ). t ++ format plain cs args) (padded-itoa w h)
format-piece (unsigned w) cs args h = refl
format-piece (char c) cs args h = refl
format-piece (signed z) cs args h =
    ap (λ (t : List ℕ). t ++ format plain cs args) (signed_text-decimal z h)
format-piece (string t) cs args h = refl

format-pieces :
    (ps : List Piece)
    → ArePieces ps
    → format plain (all_of directive ps) (all_of argument ps) ≡ all_of shown ps
unfolding format
format-pieces [] h = refl
format-pieces (p ∷ ps) h =
    format-piece p (all_of directive ps) (all_of argument ps) h.0
    ∙ ap (λ (t : List ℕ). shown p ++ t) (format-pieces ps h.1)

-- For a format of literals and directives, with the arguments that these take, on a screen that shows
-- the last rows of a paper: after `printf` the screen shows the paper with the literals and the
-- arguments' texts typed on it, in order: what `itoa` writes in base 16, for `%#x` behind zeros that
-- make it eight characters, and in base 10, behind a sign for a negative int32_t; a character; and a
-- string.
pub printf-Shows :
    (fmt : String) (ps : List Piece) (s : Screen) (p : Paper)
    → codes fmt ≡ all_of directive ps
    → ArePieces ps
    → Shows s p
    → Shows (printf fmt (all_of argument ps) s) (type_text (all_of shown ps) p)
unfolding printf
printf-Shows fmt ps s p e h w =
    subst (λ (t : List ℕ). Shows (puts t s) (type_text (all_of shown ps) p))
      (sym (ap (λ (cs : List ℕ). format plain cs (all_of argument ps)) e ∙ format-pieces ps h))
      (puts-Shows (all_of shown ps) s p w)
