-- ===== src/Prelude/Ranges.antt =====
-- Facts about every number of a small range, by evaluation.
use Prim.Native.Nat.{ℕ, zero, suc, ◌<◌}
use mathlib.Core.Path.{◌≡◌}
use mathlib.Core.Bool.{Bool, true, ◌&&◌}
use native.Mathlib.Omega.{arith}
use mp.Prelude.Tests.{◌==◌, ==_iff}

-- `holds_below n p`: the test `p` passes at 0, …, n - 1.
unfoldable pub holds_below : ℕ → (ℕ → Bool) → Bool
holds_below zero p = true
holds_below (suc n) p = holds_below n p && p n

&&_parts : (a b : Bool) → (a && b) ≡ true → (a ≡ true) × (b ≡ true)
&&_parts a b h = ground arith

pub holds_below-at : (n : ℕ) (p : ℕ → Bool) → holds_below n p ≡ true → (x : ℕ) → x < n → p x ≡ true
unfolding holds_below
holds_below-at zero p h x lt = absurd (omega arith)
holds_below-at (suc n) p h x lt =
    let both = &&_parts (holds_below n p) (p n) h in
    ground (arith, both, holds_below-at n p both.0 x)

-- Two functions that agree by evaluation on a range.
pub eq_below :
    (n : ℕ) (f g : ℕ → ℕ) → holds_below n (λ x. f x == g x) ≡ true → (x : ℕ) → x < n → f x ≡ g x
eq_below n f g h x lt = (==_iff (f x) (g x)).0 (holds_below-at n (λ x. f x == g x) h x lt)

-- The same over pairs.
pub eq_below₂ :
    (n m : ℕ) (f g : ℕ → ℕ → ℕ)
    → holds_below n (λ x. holds_below m (λ y. f x y == g x y)) ≡ true
    → (x y : ℕ) → x < n
    → y < m
    → f x y ≡ g x y
eq_below₂ n m f g h x y lx ly =
    eq_below m (f x) (g x) (holds_below-at n (λ x. holds_below m (λ y. f x y == g x y)) h x lx) y ly
