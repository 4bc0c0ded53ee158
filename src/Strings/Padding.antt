-- ===== src/Strings/Padding.antt =====
-- What `strncpy` does to every byte.
use mp.Prelude.{ℕ, zero, suc, ◌+◌, ◌-◌, ◌≤◌, ◌≡◌, ◌≢◌, ◌∙◌, ◌⊎◌, ap, ℕ_discrete, arith}
use mp.Prelude.{◌&&◌, leb, ltb, if◌then◌else◌, Memory, update}
use mp.Strings.{strncpy, fill_zeros}
use mp.Strings.Lengths.{IsText, IsText-same, IsText-tail}

fill_zeros-at :
    (n dest : ℕ) (m : Memory) (a : ℕ)
    → fill_zeros n dest m a ≡ (if leb dest a && ltb a (dest + n) then 0 else m a)
unfolding fill_zeros
fill_zeros-at zero dest m a = ground arith
fill_zeros-at (suc n) dest m a = ground (arith, fill_zeros-at n (dest + 1) (update m dest 0) a)

strncpy-go :
    (n dest src : ℕ) (m : Memory) (a : ℕ)
    → m src ≢ 0
    → strncpy (suc n) dest src m a ≡ strncpy n (dest + 1) (src + 1) (update m dest (m src)) a
unfolding strncpy
strncpy-go n dest src m a z = ground arith

-- The byte at `a` of a range of `n` bytes.
abbrev padded_byte : ℕ → ℕ → ℕ → ℕ → Memory → Memory
padded_byte n k dest src m a =
    if leb dest a && ltb a (dest + n)
    then (if ltb (a - dest) k then m (src + (a - dest)) else 0)
    else m a

shifted :
    (n k dest src : ℕ) (m : Memory) (a : ℕ)
    → (dest + suc n ≤ src) ⊎ (src + suc (suc k) ≤ dest)
    → padded_byte n k (dest + 1) (src + 1) (update m dest (m src)) a
      ≡ padded_byte (suc n) (suc k) dest src m a
shifted n k dest src m a d = elim (ℕ_discrete a dest) [
  | yes e ↦ ground (arith, ap m {x = src} {y = src + (a - dest)})
  | no ne ↦ ground (arith, ap m {x = src + 1 + (a - (dest + 1))} {y = src + (a - dest)})
]

-- `strncpy` of a text of `k` bytes, into a range of `n` bytes apart from the text, copies the first
-- bytes of the text, fills the range up to its end with zeros, and changes no other byte.
pub strncpy_lem :
    (n k dest src : ℕ) (m : Memory) (a : ℕ)
    → IsText m src k
    → (dest + n ≤ src) ⊎ (src + suc k ≤ dest)
    → strncpy n dest src m a ≡ (
        if leb dest a && ltb a (dest + n)
        then (if ltb (a - dest) k then m (src + (a - dest)) else 0)
        else m a)
unfolding strncpy
strncpy_lem zero k dest src m a t d = ground arith
strncpy_lem (suc n) zero dest src m a t d =
    ground (arith, t.ends, ap m {x = src + 0} {y = src}, fill_zeros-at (suc n) dest m a)
strncpy_lem (suc n) (suc k) dest src m a t d =
    let m₁ = update m dest (m src) in
    let same : (b : ℕ) → src + 1 ≤ b → b ≤ src + 1 + k → m₁ b ≡ m b = λ b lo hi. ground arith in
    let t₁ = IsText-same m m₁ (src + 1) k same (IsText-tail m src k t) in
    strncpy-go n dest src m a (λ z. t.inside 0 (omega arith) (ap m (omega arith) ∙ z))
    ∙ (strncpy_lem n k (dest + 1) (src + 1) m₁ a t₁ (omega arith) ∙ shifted n k dest src m a d)
