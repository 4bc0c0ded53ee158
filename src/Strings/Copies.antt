-- ===== src/Strings/Copies.antt =====
-- What the copying functions of lib.c do to every byte.
use mp.Prelude.{ℕ, zero, suc, ◌+◌, ◌-◌, ◌*◌, ◌/◌, ◌%◌, ◌≤◌, ◌≡◌, ◌⊎◌, inl, inr, ap, arith}
use mp.Prelude.{◌&&◌, leb, ltb, ◌==◌, if◌then◌else◌, Memory, update, Bool-cases}
use mp.Strings.{copy_bytes, copy_longs, move_long, memcpy}

-- The memory with `n` bytes of `src` put at `dest`.
abbrev pub copied : ℕ → ℕ → ℕ → Memory → Memory
copied dest src n m = λ a. if leb dest a && ltb a (dest + n) then m (src + (a - dest)) else m a

-- The two ranges have no byte in common.
abbrev pub Disjoint : ℕ → ℕ → ℕ → Type 0
Disjoint dest src n = (dest + n ≤ src) ⊎ (src + n ≤ dest)

pub same : (m : Memory) (a b : ℕ) → a ≡ b → m a ≡ m b
same m a b e = ap m e

copy_bytes-at :
    (n dest src : ℕ) (m : Memory) (a : ℕ)
    → Disjoint dest src n
    → copy_bytes n dest src m a ≡ copied dest src n m a
unfolding copy_bytes
copy_bytes-at zero dest src m a d = ground arith
copy_bytes-at (suc n) dest src m a d = ground (
  arith,
  copy_bytes-at n (dest + 1) (src + 1) (update m dest (m src)) a,
  same m (src + 1 + (a - (dest + 1))) (src + (a - dest)),
  same m src (src + (a - dest)),
)

copy_longs-at :
    (n dest src : ℕ) (m : Memory) (a : ℕ)
    → Disjoint dest src (4 * n)
    → copy_longs n dest src m a ≡ copied dest src (4 * n) m a
unfolding copy_longs
copy_longs-at zero dest src m a d = ground arith
copy_longs-at (suc n) dest src m a d = ground (
  arith,
  copy_longs-at n (dest + 4) (src + 4) (move_long dest src m) a,
  same m (src + 4 + (a - (dest + 4))) (src + (a - dest)),
  same m src (src + (a - dest)),
  same m (src + 1) (src + (a - dest)),
  same m (src + 2) (src + (a - dest)),
  same m (src + 3) (src + (a - dest)),
)

-- The part of `memcpy` behind the alignment: longs, then the bytes that are left.
aligned_part :
    (n dest src : ℕ) (m : Memory) (a : ℕ)
    → Disjoint dest src n
    → copy_bytes (n % 4) (dest + 4 * (n / 4)) (src + 4 * (n / 4)) (copy_longs (n / 4) dest src m) a
      ≡ copied dest src n m a
aligned_part n dest src m a d =
    let k = n / 4 in
    let x = src + 4 * k + (a - (dest + 4 * k)) in
    ground (
      arith,
      copy_bytes-at (n % 4) (dest + 4 * k) (src + 4 * k) (copy_longs k dest src m) a,
      copy_longs-at k dest src m a,
      copy_longs-at k dest src m x,
      same m x (src + (a - dest)),
    )

-- Where source and destination have no byte in common, `memcpy` puts the `n` bytes at the
-- destination, however it is aligned, and changes no other.
pub memcpy_lem :
    (n dest src : ℕ) (m : Memory) (a : ℕ)
    → Disjoint dest src n
    → memcpy dest src n m a ≡ copied dest src n m a
unfolding memcpy
memcpy_lem zero dest src m a d = ground arith
memcpy_lem (suc n) dest src m a d = elim (Bool-cases (dest % 4 == 0)) [
  | inl t ↦ rw t (aligned_part (suc n) dest src m a d)
  | inr t ↦ rw t (
      ground (
        arith,
        memcpy_lem n (dest + 1) (src + 1) (update m dest (m src)) a,
        same m (src + 1 + (a - (dest + 1))) (src + (a - dest)),
        same m src (src + (a - dest)),
      ))
]
