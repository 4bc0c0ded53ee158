-- ===== src/Strings/Sets.antt =====
-- `memset`, `memset_word`, `memset_dword` and `memmove` of lib.c.
use mp.Prelude.{ℕ, zero, suc, ◌+◌, ◌-◌, ◌*◌, ◌/◌, ◌%◌, ◌^◌, ◌≤◌, ◌<◌, ◌≡◌, refl, ◌∙◌, ap, arith}
use mp.Prelude.{Bool-cases, inl, inr, ◌&&◌, leb, ltb, ◌==◌, if◌then◌else◌, Memory, update}
use mp.FileSystem.Words.{load32, store32, load32-store32, load32-same, store32-other}
use mp.Strings.{copy_bytes}
use mp.Strings.Copies.{copied, same}

-- The loops of single bytes, and `stosl`.
unfoldable pub set_bytes : ℕ → ℕ → ℕ → Memory → Memory
set_bytes zero s c m = m
set_bytes (suc n) s c m = set_bytes n (s + 1) c (update m s c)

unfoldable pub set_longs : ℕ → ℕ → ℕ → Memory → Memory
set_longs zero s w m = m
set_longs (suc n) s w m = set_longs n (s + 4) w (store32 m s w)

-- `rep stosw`.
unfoldable pub set_words : ℕ → ℕ → ℕ → Memory → Memory
set_words zero s w m = m
set_words (suc n) s w m =
    set_words n (s + 2) w (update (update m s (w % 256)) (s + 1) (w / 256 % 256))

-- `memset_top`: single bytes until the address is aligned, then the longs, then the bytes left. `c` is
-- the byte, and the long has it four times.
abbrev pub four_times : ℕ → ℕ
four_times c = c * 0x1000000 + c * 0x10000 + c * 0x100 + c

unfoldable pub memset_top : ℕ → ℕ → ℕ → Memory → Memory
memset_top s c zero m = m
memset_top s c (suc n) m =
    let k = suc n / 4 in
    let aligned = set_bytes (suc n % 4) (s + 4 * k) c (set_longs k s (four_times c) m) in
    let rest = memset_top (s + 1) c n (update m s c) in if s % 4 == 0 then aligned else rest

-- The word `c` stands for the int32_t.
unfoldable pub memset : ℕ → ℕ → ℕ → Memory → Memory
memset s c n m = memset_top s (c % 256) n m

unfoldable pub memset_word : ℕ → ℕ → ℕ → Memory → Memory
memset_word s c n m = set_words n s (c % 2 ^ 16) m

unfoldable pub memset_dword : ℕ → ℕ → ℕ → Memory → Memory
memset_dword s c n m = set_longs n s c m

-- `movsb` from the last byte down.
unfoldable pub move_down : ℕ → ℕ → ℕ → Memory → Memory
move_down zero dest src m = m
move_down (suc n) dest src m = move_down n dest src (update m (dest + n) (m (src + n)))

unfoldable pub memmove : ℕ → ℕ → ℕ → Memory → Memory
memmove dest src n m = if leb dest src then copy_bytes n dest src m else move_down n dest src m

-- The memory with `n` times the byte `c` at `s`.
abbrev pub filled : ℕ → ℕ → ℕ → Memory → Memory
filled s c n m = λ a. if leb s a && ltb a (s + n) then c else m a

set_bytes-at : (n s c : ℕ) (m : Memory) (a : ℕ) → set_bytes n s c m a ≡ filled s c n m a
unfolding set_bytes
set_bytes-at zero s c m a = ground arith
set_bytes-at (suc n) s c m a = ground (arith, set_bytes-at n (s + 1) c (update m s c) a)

set_longs-at :
    (n s c : ℕ) (m : Memory) (a : ℕ)
    → c < 256
    → set_longs n s (four_times c) m a ≡ filled s c (4 * n) m a
unfolding set_longs store32
set_longs-at zero s c m a h = ground arith
set_longs-at (suc n) s c m a h =
    set_longs-at n (s + 4) c (store32 m s (four_times c)) a h ∙ ground arith

memset_top-at : (n s c : ℕ) (m : Memory) (a : ℕ) → c < 256 → memset_top s c n m a ≡ filled s c n m a
unfolding memset_top
memset_top-at zero s c m a h = ground arith
memset_top-at (suc n) s c m a h = elim (Bool-cases (s % 4 == 0)) [
  | inl t ↦ rw t (
      ground (
        arith,
        set_bytes-at (suc n % 4) (s + 4 * (suc n / 4)) c (set_longs (suc n / 4) s (four_times c) m)
            a,
        set_longs-at (suc n / 4) s c m a h,
      ))
  | inr t ↦ rw t (ground (arith, memset_top-at n (s + 1) c (update m s c) a h))
]

-- `memset` puts the lowest byte of `c` at each of the `n` addresses from `s` on, however `s` is
-- aligned, and changes no other byte.
pub memset_lem : (n s c : ℕ) (m : Memory) (a : ℕ) → memset s c n m a ≡ filled s (c % 256) n m a
unfolding memset
memset_lem n s c m a = memset_top-at n s (c % 256) m a (omega arith)

copy_up :
    (n dest src : ℕ) (m : Memory) (a : ℕ)
    → dest ≤ src
    → copy_bytes n dest src m a ≡ copied dest src n m a
unfolding copy_bytes
copy_up zero dest src m a d = ground arith
copy_up (suc n) dest src m a d = ground (
  arith,
  copy_up n (dest + 1) (src + 1) (update m dest (m src)) a (omega arith),
  same m (src + 1 + (a - (dest + 1))) (src + (a - dest)),
  same m src (src + (a - dest)),
)

copy_down :
    (n dest src : ℕ) (m : Memory) (a : ℕ)
    → src < dest
    → move_down n dest src m a ≡ copied dest src n m a
unfolding move_down
copy_down zero dest src m a d = ground arith
copy_down (suc n) dest src m a d = ground (
  arith,
  copy_down n dest src (update m (dest + n) (m (src + n))) a d,
  same m (src + n) (src + (a - dest)),
)

-- `memmove` puts the `n` bytes that the source had before at the destination, and changes no other,
-- also where the two have bytes in common.
pub memmove_lem :
    (n dest src : ℕ) (m : Memory) (a : ℕ) → memmove dest src n m a ≡ copied dest src n m a
unfolding memmove
memmove_lem n dest src m a = ground (arith, copy_up n dest src m a, copy_down n dest src m a)

set_longs-before : (n s c : ℕ) (m : Memory) (a : ℕ) → a < s → set_longs n s c m a ≡ m a
unfolding set_longs
set_longs-before zero s c m a lt = refl
set_longs-before (suc n) s c m a lt =
    set_longs-before n (s + 4) c (store32 m s c) a (omega arith)
    ∙ store32-other m s c a (omega arith)

-- `memset_dword` puts the word `c` at each of the `n` places of four bytes from `s` on.
pub memset_dword_lem :
    (n s c i : ℕ) (m : Memory) → c < 2 ^ 32 → i < n → load32 (memset_dword s c n m) (s + 4 * i) ≡ c
unfolding memset_dword set_longs
memset_dword_lem zero s c i m h hi = elim hi [ ]
memset_dword_lem (suc n) s c zero m h hi =
    load32-same (set_longs n (s + 4) c (store32 m s c)) (store32 m s c) (s + 4 * 0)
      (λ b lo up. set_longs-before n (s + 4) c (store32 m s c) b (omega arith))
    ∙ (ap (load32 (store32 m s c)) (omega arith) ∙ load32-store32 m s c h)
memset_dword_lem (suc n) s c (suc i) m h hi =
    ap (load32 (set_longs n (s + 4) c (store32 m s c))) {x = s + 4 * suc i} {y = s + 4 + 4 * i}
      (omega arith)
    ∙ memset_dword_lem n (s + 4) c i (store32 m s c) h (omega arith)
