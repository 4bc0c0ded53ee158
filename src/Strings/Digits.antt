-- ===== src/Strings/Digits.antt =====
-- The text that `itoa` writes, read back: `strrev` turns the digits of its loop around.
use native.Mathlib.Nat.{div-add-mod', div-lt_self, mod-lt}
use mathlib.Core.Path.{subst}
use mp.Prelude.{
  ℕ, zero, suc, ◌+◌, ◌-◌, ◌*◌, ◌/◌, ◌%◌, ◌<◌, ◌≤◌, ◌≡◌, ◌≢◌, ◌⊎◌, inl, inr, refl, ◌∙◌, sym, ap,
  arith,
}
use mp.Prelude.{ltb, if◌then◌else◌, Bool-cases}
use mp.Prelude.{
  holds_below, eq_below, dec_lt, ℕ_discrete, List, [], ◌∷◌, length, get_or, set, length-set,
}
use mp.Strings.{lookup, rev_loop, strrev, itoa_loop, itoa}

get_or-set_self : (xs : List ℕ) (i v : ℕ) → i < length xs → get_or (set xs i v) i 0 ≡ v
get_or-set_self [] i v h = absurd (omega arith)
get_or-set_self (x ∷ xs) zero v h = refl
get_or-set_self (x ∷ xs) (suc i) v h = get_or-set_self xs i v (omega arith)

get_or-set_ne : (xs : List ℕ) (i j v : ℕ) → i ≢ j → get_or (set xs i v) j 0 ≡ get_or xs j 0
get_or-set_ne [] i j v h = refl
get_or-set_ne (x ∷ xs) zero zero v h = absurd (h refl)
get_or-set_ne (x ∷ xs) zero (suc j) v h = refl
get_or-set_ne (x ∷ xs) (suc i) zero v h = refl
get_or-set_ne (x ∷ xs) (suc i) (suc j) v h = get_or-set_ne xs i j v (λ e. h (ap suc e))

-- One round of `strrev`.
abbrev swapped : List ℕ → ℕ → ℕ → List ℕ
swapped s beg end = set (set s end (get_or s beg 0)) beg (get_or s end 0)

length-swapped : (s : List ℕ) (beg end : ℕ) → length (swapped s beg end) ≡ length s
length-swapped s beg end =
    length-set (set s end (get_or s beg 0)) beg (get_or s end 0) ∙ length-set s end (get_or s beg 0)

swapped-beg :
    (s : List ℕ) (beg end : ℕ) → beg < length s → get_or (swapped s beg end) beg 0 ≡ get_or s end 0
swapped-beg s beg end h =
    get_or-set_self (set s end (get_or s beg 0)) beg (get_or s end 0)
      (omega (arith, length-set s end (get_or s beg 0)))

swapped-end :
    (s : List ℕ) (beg end : ℕ)
    → beg < end
    → end < length s
    → get_or (swapped s beg end) end 0 ≡ get_or s beg 0
swapped-end s beg end lt h =
    get_or-set_ne (set s end (get_or s beg 0)) beg end (get_or s end 0) (omega arith)
    ∙ get_or-set_self s end (get_or s beg 0) h

swapped-other :
    (s : List ℕ) (beg end j : ℕ) → beg ≢ j → end ≢ j → get_or (swapped s beg end) j 0 ≡ get_or s j 0
swapped-other s beg end j n m =
    get_or-set_ne (set s end (get_or s beg 0)) beg j (get_or s end 0) n
    ∙ get_or-set_ne s end j (get_or s beg 0) m

rev_loop-step :
    (fuel beg end : ℕ) (s : List ℕ)
    → beg < end
    → rev_loop (suc fuel) beg end s ≡ rev_loop fuel (beg + 1) (end - 1) (swapped s beg end)
unfolding rev_loop
rev_loop-step fuel beg end s h = ground arith

rev_loop-stop : (fuel beg end : ℕ) (s : List ℕ) → end ≤ beg → rev_loop fuel beg end s ≡ s
unfolding rev_loop
rev_loop-stop zero beg end s h = refl
rev_loop-stop (suc fuel) beg end s h = ground arith

length-rev_loop : (fuel beg end : ℕ) (s : List ℕ) → length (rev_loop fuel beg end s) ≡ length s
unfolding rev_loop
length-rev_loop zero beg end s = refl
length-rev_loop (suc fuel) beg end s = elim (Bool-cases (ltb beg end)) [
  | inl go ↦
      rw go
        (length-rev_loop fuel (beg + 1) (end - 1) (swapped s beg end) ∙ length-swapped s beg end)
  | inr stop ↦ rw stop refl
]

rev_loop-outside :
    (fuel beg end : ℕ) (s : List ℕ) (j : ℕ)
    → (j < beg) ⊎ (end < j)
    → get_or (rev_loop fuel beg end s) j 0 ≡ get_or s j 0
unfolding rev_loop
rev_loop-outside zero beg end s j out = refl
rev_loop-outside (suc fuel) beg end s j out = elim (dec_lt beg end) [
  | no stop ↦ ap (λ t. get_or t j 0) (rev_loop-stop (suc fuel) beg end s (omega arith))
  | yes go ↦
      ap (λ t. get_or t j 0) (rev_loop-step fuel beg end s go)
      ∙ rev_loop-outside fuel (beg + 1) (end - 1) (swapped s beg end) j (omega arith)
      ∙ swapped-other s beg end j (omega arith) (omega arith)
]

-- Between `beg` and `end` the loop turns the characters around, and it leaves the others.
rev_loop-inside :
    (fuel beg end : ℕ) (s : List ℕ) (j : ℕ)
    → end ≤ beg + fuel
    → end < length s
    → beg ≤ j
    → j ≤ end
    → get_or (rev_loop fuel beg end s) j 0 ≡ get_or s (beg + end - j) 0
unfolding rev_loop
rev_loop-inside zero beg end s j enough h low high = ap (λ i. get_or s i 0) (omega arith)
rev_loop-inside (suc fuel) beg end s j enough h low high = elim (dec_lt beg end) [
  | no stop ↦
      ap (λ t. get_or t j 0) (rev_loop-stop (suc fuel) beg end s (omega arith))
      ∙ ap (λ i. get_or s i 0) (omega arith)
  | yes go ↦ ap (λ t. get_or t j 0) (rev_loop-step fuel beg end s go) ∙ elim (ℕ_discrete beg j) [
    | yes e ↦
        rev_loop-outside fuel (beg + 1) (end - 1) (swapped s beg end) j (inl (omega arith))
        ∙ ap (λ i. get_or (swapped s beg end) i 0) (sym e)
        ∙ swapped-beg s beg end (omega arith)
        ∙ ap (λ i. get_or s i 0) (omega arith)
    | no n ↦ elim (ℕ_discrete end j) [
      | yes e ↦
          rev_loop-outside fuel (beg + 1) (end - 1) (swapped s beg end) j (inr (omega arith))
          ∙ ap (λ i. get_or (swapped s beg end) i 0) (sym e)
          ∙ swapped-end s beg end go h
          ∙ ap (λ i. get_or s i 0) (omega arith)
      | no m ↦
          rev_loop-inside fuel (beg + 1) (end - 1) (swapped s beg end) j (omega arith)
            (omega (arith, length-swapped s beg end)) (omega arith) (omega arith)
          ∙ swapped-other s beg end (beg + 1 + (end - 1) - j) (omega arith) (omega arith)
          ∙ ap (λ i. get_or s i 0) (omega arith)
    ]
  ]
]

-- `strrev` on the characters: the first becomes the last.
strrev-at :
    (s : List ℕ) (j : ℕ)
    → j < length s
    → get_or (strrev s) j 0 ≡ get_or s (0 + (length s - 1) - j) 0
unfolding strrev
strrev-at s j h =
    rev_loop-inside (length s) 0 (length s - 1) s j (omega arith) (omega arith) (omega arith)
      (omega arith)

-- The value of a digit, `0` to `9` and `A` to `Z`.
abbrev pub digit_value : ℕ → ℕ
digit_value c = if ltb c b'A' then c - b'0' else c - b'A' + 10

-- The number that the first `n` characters of a text read as, from left to right.
unfoldable pub number : ℕ → List ℕ → ℕ → ℕ
number radix s zero = 0
number radix s (suc n) = number radix s n * radix + digit_value (get_or s n 0)

digit_value-lookup : (i : ℕ) → i < 36 → digit_value (get_or lookup i 0) ≡ i
unfolding holds_below
digit_value-lookup i h = eq_below 36 (λ i. digit_value (get_or lookup i 0)) (λ i. i) refl i h

itoa_loop-step :
    (fuel v radix : ℕ)
    → itoa_loop (suc fuel) (suc v) radix
      ≡ get_or lookup (suc v % radix) 0 ∷ itoa_loop fuel (suc v / radix) radix
unfolding itoa_loop
itoa_loop-step fuel v radix = ground arith

div_below : (v radix fuel : ℕ) → 2 ≤ radix → v ≤ fuel → suc v / radix ≤ fuel
div_below v radix fuel two h =
    let small = div-lt_self {n = suc v} {k = radix} (omega arith) (omega arith) in
    omega (arith, small)

-- A text that holds the loop's characters from the right to the left reads as the loop's number.
abbrev IsTurned : List ℕ → List ℕ → Type 0
IsTurned s t = (j : ℕ) → j < length t → get_or s j 0 ≡ get_or t (0 + (length t - 1) - j) 0

number-last :
    (radix q c : ℕ) (s rest : List ℕ)
    → IsTurned s (c ∷ rest)
    → number radix s (length rest) ≡ q
    → number radix s (suc (length rest)) ≡ q * radix + digit_value c
unfolding number
number-last radix q c s rest turned e =
    let last =
      turned (length rest) (omega arith) ∙ ap (λ i. get_or (c ∷ rest) i 0) (first (length rest)) in
    rw e (rw last refl)
  where
    first : (n : ℕ) → 0 + (suc n - 1) - n ≡ 0
    first n = omega arith

IsTurned-tail : (c : ℕ) (s rest : List ℕ) → IsTurned s (c ∷ rest) → IsTurned s rest
IsTurned-tail c s rest turned j h =
    turned j (omega arith) ∙ ap (λ i. get_or (c ∷ rest) i 0) (next (length rest) j h)
  where
    next : (n j : ℕ) → j < n → 0 + (suc n - 1) - j ≡ suc (0 + (n - 1) - j)
    next n j h = omega arith

number-itoa_loop :
    (radix fuel newval : ℕ) (s : List ℕ)
    → 2 ≤ radix
    → radix ≤ 36
    → newval ≤ fuel
    → IsTurned s (itoa_loop fuel newval radix)
    → number radix s (length (itoa_loop fuel newval radix)) ≡ newval
unfolding number itoa_loop
number-itoa_loop radix zero newval s two most h turned = omega arith
number-itoa_loop radix (suc fuel) zero s two most h turned = refl
number-itoa_loop radix (suc fuel) (suc v) s two most h turned =
    subst (λ t. IsTurned s t → number radix s (length t) ≡ suc v)
      (sym (itoa_loop-step fuel v radix))
      (λ turned.
        number-last radix (suc v / radix) (get_or lookup (suc v % radix) 0) s
          (itoa_loop fuel (suc v / radix) radix) turned
          (number-itoa_loop radix fuel (suc v / radix) s two most
            (div_below v radix fuel two (omega arith)) (IsTurned-tail _ s _ turned))
        ∙ ap (λ d. suc v / radix * radix + d)
            (digit_value-lookup (suc v % radix) (digit v radix two most))
        ∙ div-add-mod' (suc v) radix)
      turned
  where
    digit : (v radix : ℕ) → 2 ≤ radix → radix ≤ 36 → suc v % radix < 36
    digit v radix two most =
        let small = mod-lt (suc v) {m = radix} (omega arith) in omega (arith, small)

pub length-strrev : (s : List ℕ) → length (strrev s) ≡ length s
unfolding strrev
length-strrev s = length-rev_loop (length s) 0 (length s - 1) s

itoa-turned : (v radix : ℕ) → itoa (suc v) radix ≡ strrev (itoa_loop (suc v) (suc v) radix)
unfolding itoa
itoa-turned v radix = ground arith

-- In every base from 2 to 36, the characters that `itoa` leaves before the NUL, read from left to
-- right, are the value again.
pub number-itoa :
    (radix value : ℕ)
    → 2 ≤ radix
    → radix ≤ 36
    → number radix (itoa value radix) (length (itoa value radix)) ≡ value
unfolding itoa number
number-itoa radix zero two most = omega arith
number-itoa radix (suc v) two most =
    ap (λ s. number radix s (length s)) (itoa-turned v radix)
    ∙ ap (number radix (strrev (itoa_loop (suc v) (suc v) radix)))
        (length-strrev (itoa_loop (suc v) (suc v) radix))
    ∙ number-itoa_loop radix (suc v) (suc v) (strrev (itoa_loop (suc v) (suc v) radix)) two most
        (omega arith) (λ j h. strrev-at (itoa_loop (suc v) (suc v) radix) j h)
