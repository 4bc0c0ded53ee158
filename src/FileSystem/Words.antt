-- ===== src/FileSystem/Words.antt =====
-- The 32-bit words of the image, little end first.
use mp.Prelude.{ℕ, ◌+◌, ◌*◌, ◌/◌, ◌%◌, ◌^◌, ◌≤◌, ◌<◌, ◌≡◌, ◌⊎◌, ap, arith, Memory, update}

unfoldable pub load32 : Memory → ℕ → ℕ
load32 m a = m a + 256 * m (a + 1) + 65536 * m (a + 2) + 16777216 * m (a + 3)

unfoldable pub store32 : Memory → ℕ → ℕ → Memory
store32 m a v =
    update
      (update (update (update m a (v % 256)) (a + 1) (v / 256 % 256)) (a + 2) (v / 65536 % 256))
      (a + 3) (v / 16777216 % 256)

pub load32-store32 : (m : Memory) (a v : ℕ) → v < 2 ^ 32 → load32 (store32 m a v) a ≡ v
unfolding load32 store32
load32-store32 m a v h = ground arith

-- A word depends on its four bytes.
pub load32-same :
    (m m' : Memory) (a : ℕ) → ((b : ℕ) → a ≤ b → b < a + 4 → m b ≡ m' b) → load32 m a ≡ load32 m' a
unfolding load32
load32-same m m' a h = ground (
  arith,
  h a (omega arith) (omega arith),
  h (a + 1) (omega arith) (omega arith),
  h (a + 2) (omega arith) (omega arith),
  h (a + 3) (omega arith) (omega arith),
)

pub store32-other : (m : Memory) (a v b : ℕ) → (b < a) ⊎ (a + 4 ≤ b) → store32 m a v b ≡ m b
unfolding store32
store32-other m a v b h = ground arith

pub load32-lt : (m : Memory) (a : ℕ) → ((b : ℕ) → m b < 256) → load32 m a < 2 ^ 32
unfolding load32
load32-lt m a h = omega (arith, h a, h (a + 1), h (a + 2), h (a + 3))

-- Equal bytes at two places make equal words.
pub load32-moved :
    (m m' : Memory) (a b : ℕ)
    → ((j : ℕ) → j < 4 → m' (a + j) ≡ m (b + j))
    → load32 m' a ≡ load32 m b
unfolding load32
load32-moved m m' a b h = ground (
  arith,
  h 0 (omega arith),
  h 1 (omega arith),
  h 2 (omega arith),
  h 3 (omega arith),
  ap m {x = b + 0} {y = b} (omega arith),
  ap m' {x = a + 0} {y = a} (omega arith),
)
