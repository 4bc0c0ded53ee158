-- ===== src/Strings/Tests.antt =====
-- The functions of lib.c on short texts.
use mp.Prelude.{◌≡◌, arith, Memory, ◌==◌, if◌then◌else◌}
use mp.Strings.{itoa, strrev, rev_loop, itoa_loop}
use mp.Prelude.{List, [], ◌∷◌, refl}
use mp.Prelude.Int.{negsuc}
use mp.Screen.{Screen, clean_screen}
use mp.Screen.Paper.{Shows, type_text, empty_paper, clean_screen-Shows}
use mp.Strings.{padded, printf, codes}
use mp.Strings.Formats.{
  Piece, literal, signed, hex_padded, percent_sign, string, all_of, argument, shown, printf-Shows,
}
use mp.Strings.Digits.{number, number-itoa}
use mp.Strings.Sets.{memmove, memmove_lem}

abbrev screen : Screen
screen = record { screen_x = 0; screen_y = 0; video_mem = λ o. o; sent = [] }

-- The text "hey" at 100.
abbrev memory : Memory
memory a = if a == 100 then b'h' else if a == 101 then b'e' else if a == 102 then b'y' else 0

-- The text moved up by one, over itself.
memmove_lem_example : memmove 101 100 3 memory 103 ≡ b'y'
memmove_lem_example = memmove_lem 3 101 100 memory 103

-- In base 16, 48879 is BEEF.
number-itoa_example : number 16 (itoa 48879 16) 4 ≡ 48879
unfolding itoa strrev rev_loop itoa_loop
number-itoa_example = number-itoa 16 48879 (omega arith) (omega arith)

-- A line that mixes the directives.
abbrev pieces : List Piece
pieces =
    literal b'n'
    ∷ literal b'='
    ∷ signed (negsuc 41)
    ∷ literal b' '
    ∷ hex_padded 48879
    ∷ percent_sign
    ∷ string (b'o' ∷ b'k' ∷ [])
    ∷ []

printf-Shows_example :
    Shows
      (printf "n=%d %#x%%%s" (all_of argument pieces) (clean_screen screen))
      (type_text (all_of shown pieces) empty_paper)
printf-Shows_example =
    printf-Shows "n=%d %#x%%%s" pieces (clean_screen screen) empty_paper refl (omega arith)
      (clean_screen-Shows screen)

mixed_line : all_of shown pieces ≡ codes "n=-42 0000BEEF%ok"
unfolding itoa strrev rev_loop itoa_loop padded
mixed_line = refl
