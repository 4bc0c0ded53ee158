-- ===== src/Rtc/Rate.antt =====
-- The rate that `getRate` finds for a frequency, and the frequencies on which its loop never ends.
use native.Mathlib.Nat.{div-div-eq-div-mul, pow-succ', div-mul-le_self, pow-le-pow_right}
use mp.Prelude.{
  ℕ, zero, suc, ◌-◌, ◌*◌, ◌/◌, ◌^◌, ◌≤◌, ◌<◌, ◌≡◌, refl, ◌≢◌, ◌∙◌, sym, ap, ◌⊎◌, arith,
}
use mp.Prelude.{true, ◌||◌, none, some, holds_below, eq_below, dec_lt}
use mp.Prelude.Int.{ℤ, pos, failure, pred_ℤ, ltb_ℤ}
use mp.Rtc.{rate_loop, get_rate}

half-div : (n k : ℕ) → n / 2 / 2 ^ k ≡ n / 2 ^ suc k
half-div n k = div-div-eq-div-mul n 2 (2 ^ k) ∙ ap (λ (t : ℕ). n / t) (sym (pow-succ' 2 k))

div-le : (x j : ℕ) → x / 2 ^ j ≤ x
div-le x zero = omega arith
div-le x (suc j) = omega (arith, half-div x j, div-le (x / 2) j)

-- Below 2 the loop halves for ever.
stuck : (fuel x : ℕ) (ret : ℤ) → x < 2 → rate_loop fuel x ret ≡ none
unfolding rate_loop
stuck zero x ret h = refl
stuck (suc fuel) x ret h = ground (arith, stuck fuel (x / 2) (pred_ℤ ret))

past_two : (n k : ℕ) → 2 ≤ n / 2 ^ suc k → n ≢ 2
past_two n k h e = omega (arith, half-div 2 k, div-le 1 k, ap (λ (t : ℕ). t / 2 ^ suc k) e)

loop_diverges : (k fuel n : ℕ) (ret : ℤ) → n / 2 ^ k ≡ 3 → rate_loop fuel n ret ≡ none
unfolding rate_loop
loop_diverges k zero n ret h = refl
loop_diverges zero (suc fuel) n ret h = ground (arith, stuck fuel (n / 2) (pred_ℤ ret))
loop_diverges (suc k) (suc fuel) n ret h =
    ground (arith, past_two n k, half-div n k, loop_diverges k fuel (n / 2) (pred_ℤ ret))

loop_ends :
    (k fuel n m : ℕ)
    → n / 2 ^ k ≡ 2
    → k < fuel
    → k ≤ m
    → rate_loop fuel n (pos m) ≡ some (pos (m - k))
unfolding rate_loop
loop_ends k zero n m h lt le = elim lt [ ]
loop_ends zero (suc fuel) n m h lt le = ground arith
loop_ends (suc k) (suc fuel) n zero h lt le = elim le [ ]
loop_ends (suc k) (suc fuel) n (suc m) h lt le =
    ground (arith, past_two n k, half-div n k, loop_ends k fuel (n / 2) m)

-- The quotient fits, so at most nine halvings are made.
halvings-le : (n k : ℕ) → n ≤ 1024 → 2 ≤ n / 2 ^ k → k ≤ 9
halvings-le n k h q = elim (dec_lt 9 k) [
  | yes p ↦
      absurd
        (omega (arith, div-mul-le_self n (2 ^ k), pow-le-pow_right {n = 2} (omega arith) p, twice))
  | no p ↦ omega arith
]
  where
    twice : 2 * 2 ^ k ≤ n / 2 ^ k * 2 ^ k
    twice = grind arith

-- For a frequency `n` from 2 to 1024 whose halving reaches 2, in `k` rounds, more fuel than that
-- gives the rate 15 - k, and the clock's frequency at that rate, 32768 / 2 ^ (rate - 1), is the
-- power of two 2 ^ (k + 1), at most `n`.
pub get_rate_lem :
    (fuel n k : ℕ)
    → 2 ≤ n
    → n ≤ 1024
    → n / 2 ^ k ≡ 2
    → k < fuel
    → (get_rate fuel (pos n) ≡ some (pos (15 - k)))
      × (32768 / 2 ^ (15 - k - 1) ≡ 2 ^ suc k)
      × (2 ^ suc k ≤ n)
unfolding get_rate
get_rate_lem fuel n k lo hi q lt = (
  ground (arith, halvings-le n k, loop_ends k fuel n 15),
  eq_below 10 (λ j. 32768 / 2 ^ (15 - j - 1)) (λ j. 2 ^ suc j) (unfold holds_below in refl) k
      (omega (arith, halvings-le n k)),
  omega (arith, pow-succ' 2 k, div-mul-le_self n (2 ^ k), ap (λ (t : ℕ). t * 2 ^ k) q),
)

-- For a frequency from 2 to 1024 whose halving reaches 3, the loop goes past 2 and never ends,
-- whatever the fuel.
pub get_rate_diverges :
    (n k : ℕ) → 2 ≤ n → n ≤ 1024 → n / 2 ^ k ≡ 3 → (fuel : ℕ) → get_rate fuel (pos n) ≡ none
unfolding get_rate
get_rate_diverges n k lo hi q fuel = ground (arith, loop_diverges k fuel n (pos 15))

-- Every frequency in range is of one of the two kinds.
pub rate_kinds : (fuel n : ℕ) → n < fuel → 2 ≤ n → (k : ℕ) × ((n / 2 ^ k ≡ 2) ⊎ (n / 2 ^ k ≡ 3))
rate_kinds zero n h lo = elim h [ ]
rate_kinds (suc fuel) n h lo = elim (dec_lt n 4) [
  | yes p ↦ (0, omega arith)
  | no p ↦ go (rate_kinds fuel (n / 2) (omega arith) (omega arith))
]
  where
    go :
        (k : ℕ) × ((n / 2 / 2 ^ k ≡ 2) ⊎ (n / 2 / 2 ^ k ≡ 3))
        → (k : ℕ) × ((n / 2 ^ k ≡ 2) ⊎ (n / 2 ^ k ≡ 3))
    go r = (suc r.0, omega (arith, r.1, half-div n r.0))

-- Out of range, `getRate` answers -1 at once.
pub get_rate_range :
    (fuel : ℕ) (freq : ℤ)
    → (ltb_ℤ freq (pos 2) || ltb_ℤ (pos 1024) freq) ≡ true
    → get_rate fuel freq ≡ some failure
unfolding get_rate
get_rate_range fuel freq h = ground arith
