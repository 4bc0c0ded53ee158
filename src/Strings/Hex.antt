-- ===== src/Strings/Hex.antt =====
-- The eight places of `%#x` in `printf`.
use mp.Prelude.{ℕ, zero, suc, ◌-◌, ◌*◌, ◌/◌, ◌^◌, ◌<◌, ◌≤◌, ◌≡◌, refl, arith}
use mp.Prelude.{List, ◌++◌, length, replicate, drop}
use mp.Strings.{pad_loop, padded, itoa, itoa_loop}
use mp.Strings.Digits.{length-strrev}

-- For every number of digits up to eight, what stands from that index on.
filled :
    (n : ℕ) (digits : List ℕ)
    → n ≤ 8
    → drop n (pad_loop 8 n (replicate 8 0 ++ digits)) ≡ replicate (8 - n) b'0' ++ digits
unfolding pad_loop
filled zero digits h = refl
filled (suc zero) digits h = refl
filled (suc (suc zero)) digits h = refl
filled (suc (suc (suc zero))) digits h = refl
filled (suc (suc (suc (suc zero)))) digits h = refl
filled (suc (suc (suc (suc (suc zero))))) digits h = refl
filled (suc (suc (suc (suc (suc (suc zero)))))) digits h = refl
filled (suc (suc (suc (suc (suc (suc (suc zero))))))) digits h = refl
filled (suc (suc (suc (suc (suc (suc (suc (suc zero)))))))) digits h = refl
filled (suc (suc (suc (suc (suc (suc (suc (suc (suc n))))))))) digits h = absurd (omega arith)

-- Up to eight digits are filled up with zeros from the left.
padded_lem :
    (digits : List ℕ)
    → length digits ≤ 8
    → padded digits ≡ replicate (8 - length digits) b'0' ++ digits
unfolding padded
padded_lem digits h = filled (length digits) digits h

-- The numbers of `n` hexadecimal digits.
hex_range : ℕ → ℕ
hex_range zero = 1
hex_range (suc n) = 16 * hex_range n

length-itoa_loop : (fuel n v : ℕ) → v < hex_range n → length (itoa_loop fuel v 16) ≤ n
unfolding itoa_loop hex_range
length-itoa_loop zero n v h = omega arith
length-itoa_loop (suc fuel) zero v h = ground arith
length-itoa_loop (suc fuel) (suc n) v h =
    let rec = length-itoa_loop fuel n (v / 16) (omega arith) in ground (arith, rec)

length-itoa : (w : ℕ) → w < 2 ^ 32 → length (itoa w 16) ≤ 8
unfolding itoa hex_range
length-itoa w h =
    let short = length-itoa_loop w 8 w h in
    let same = length-strrev (itoa_loop w w 16) in ground (arith, short, same)

-- A 32-bit word has no more than eight digits, so `%#x` shows zeros in all places before them.
pub padded-itoa :
    (w : ℕ) → w < 2 ^ 32 → padded (itoa w 16) ≡ replicate (8 - length (itoa w 16)) b'0' ++ itoa w 16
padded-itoa w h = padded_lem (itoa w 16) (length-itoa w h)
