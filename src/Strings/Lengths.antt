-- ===== src/Strings/Lengths.antt =====
-- What `strlen`, `strncmp` and `strcpy` find and write.
use mp.Prelude.{ℕ, zero, suc, ◌+◌, ◌-◌, ◌≤◌, ◌<◌, ◌≡◌, refl, ◌≢◌, ◌⊎◌, ◌↔◌, ◌∙◌, sym, ap, arith}
use mp.Prelude.{◌&&◌, leb, ltb, if◌then◌else◌, Memory, update, some, ℕ_discrete}
use mp.Prelude.Int.{pos}
use mp.Strings.{strlen, strncmp, strcpy, char_difference}

-- A C string: `n` bytes that are not 0, and a 0.
pub record IsText (m : Memory) (s n : ℕ) : Type 0 where
  pub ends : m (s + n) ≡ 0
  pub inside : (j : ℕ) → j < n → m (s + j) ≢ 0

at_next : (m : Memory) (s j : ℕ) → m (s + 1 + j) ≡ m (s + suc j)
at_next m s j = ap m (omega arith)

pub IsText-tail : (m : Memory) (s n : ℕ) → IsText m s (suc n) → IsText m (s + 1) n
IsText-tail m s n t = record {
  ends = at_next m s n ∙ t.ends;
  inside = λ j h e. t.inside (suc j) (omega arith) (sym (at_next m s j) ∙ e);
}

-- With more fuel than the string is long, `strlen` finds its length.
pub strlen-IsText :
    (fuel n : ℕ) (m : Memory) (s : ℕ) → IsText m s n → n < fuel → strlen fuel m s ≡ some n
unfolding strlen
strlen-IsText zero n m s t h = elim h [ ]
strlen-IsText (suc fuel) zero m s t h = ground (arith, t.ends, ap m {x = s + 0} {y = s})
strlen-IsText (suc fuel) (suc n) m s t h =
    let rec = strlen-IsText fuel n m (s + 1) (IsText-tail m s n t) (omega arith) in
    rw rec (ground (arith, t.inside 0 (omega arith), ap m {x = s + 0} {y = s}))

-- The sign of a difference of two bytes is 0 only if they are equal.
difference_zero : (a b : ℕ) → a < 256 → b < 256 → char_difference a b ≡ pos 0 → a ≡ b
difference_zero a b ha hb h = ground arith

abbrev pub IsBytes : Memory → Type 0
IsBytes m = (a : ℕ) → m a < 256

step-same :
    (m : Memory) (s1 s2 n : ℕ)
    → m s1 ≡ m s2
    → m s2 ≢ 0
    → strncmp m s1 s2 (suc n) ≡ strncmp m (s1 + 1) (s2 + 1) n
unfolding strncmp
step-same m s1 s2 n e z = ground arith

step-differ :
    (m : Memory) (s1 s2 n : ℕ)
    → m s1 ≢ m s2
    → strncmp m s1 s2 (suc n) ≡ char_difference (m s1) (m s2)
unfolding strncmp
step-differ m s1 s2 n e = ground arith

at_start : (m : Memory) (s : ℕ) → m (s + 0) ≡ m s
at_start m s = ap m (omega arith)

-- In a memory of bytes, over the length of the second string, `strncmp` answers 0 exactly when the
-- first has the same bytes there: the second is a prefix of the first.
pub strncmp-prefix :
    (n : ℕ) (m : Memory) (s1 s2 : ℕ)
    → IsBytes m
    → IsText m s2 n
    → (strncmp m s1 s2 n ≡ pos 0) ↔ ((j : ℕ) → j < n → m (s1 + j) ≡ m (s2 + j))
strncmp-prefix zero m s1 s2 b t = ((λ e j h. elim h [ ]), (λ h. unfold strncmp in refl))
strncmp-prefix (suc n) m s1 s2 b t = elim (ℕ_discrete (m s1) (m s2)) [
  | yes e ↦
      let (there, back) = strncmp-prefix n m (s1 + 1) (s2 + 1) b (IsText-tail m s2 n t) in
      (
        (λ z. bytes e (there (sym (step-same m s1 s2 n e first) ∙ z))),
        (λ h.
            step-same m s1 s2 n e first
            ∙ back (λ j lt. at_next m s1 j ∙ (h (suc j) (omega arith) ∙ sym (at_next m s2 j)))),
      )
  | no ne ↦ (
    (λ z j h.
        absurd
          (ne (difference_zero (m s1) (m s2) (b s1) (b s2) (sym (step-differ m s1 s2 n ne) ∙ z)))),
    (λ h. absurd (ne (sym (at_start m s1) ∙ (h 0 (omega arith) ∙ at_start m s2)))),
  )
]
  where
    first : m s2 ≢ 0
    first e = t.inside 0 (omega arith) (at_start m s2 ∙ e)

    bytes :
        m s1 ≡ m s2
        → ((j : ℕ) → j < n → m (s1 + 1 + j) ≡ m (s2 + 1 + j))
        → (j : ℕ) → j < suc n
        → m (s1 + j) ≡ m (s2 + j)
    bytes e h zero lt = at_start m s1 ∙ (e ∙ sym (at_start m s2))
    bytes e h (suc j) lt = sym (at_next m s1 j) ∙ (h j (omega arith) ∙ at_next m s2 j)

-- The memory with a string of `n` bytes and its end put at `dest`.
abbrev pub string_copied : ℕ → ℕ → ℕ → Memory → Memory
string_copied dest src n m =
    λ a. if leb dest a && ltb a (dest + suc n) then m (src + (a - dest)) else m a

pub IsText-same :
    (m m' : Memory) (s n : ℕ)
    → ((a : ℕ) → s ≤ a → a ≤ s + n → m' a ≡ m a)
    → IsText m s n
    → IsText m' s n
IsText-same m m' s n same t = record {
  ends = same (s + n) (omega arith) (omega arith) ∙ t.ends;
  inside = λ j h e. t.inside j h (sym (same (s + j) (omega arith) (omega arith)) ∙ e);
}

strcpy-end :
    (fuel dest src : ℕ) (m : Memory)
    → m src ≡ 0
    → strcpy (suc fuel) dest src m ≡ some (update m dest 0)
unfolding strcpy
strcpy-end fuel dest src m z = rw z

strcpy-go :
    (fuel dest src : ℕ) (m : Memory)
    → m src ≢ 0
    → strcpy (suc fuel) dest src m ≡ strcpy fuel (dest + 1) (src + 1) (update m dest (m src))
unfolding strcpy
strcpy-go fuel dest src m z = ground arith

-- For a string of `n` bytes, a destination apart from it and more fuel than `n`, `strcpy` ends,
-- copies the string with its end, and changes no other byte.
pub strcpy-IsText :
    (fuel n dest src : ℕ) (m : Memory)
    → IsText m src n
    → n < fuel
    → (dest + suc n ≤ src) ⊎ (src + suc n ≤ dest)
    → (m' : Memory) × (strcpy fuel dest src m ≡ some m')
      × ((a : ℕ) → m' a ≡ string_copied dest src n m a)
strcpy-IsText zero n dest src m t h d = elim h [ ]
strcpy-IsText (suc fuel) zero dest src m t h d =
    let z : m src ≡ 0 = sym (at_start m src) ∙ t.ends in
    (
      update m dest 0,
      strcpy-end fuel dest src m z,
      λ a. ground (arith, z, ap m {x = src + (a - dest)} {y = src}),
    )
strcpy-IsText (suc fuel) (suc n) dest src m t h d =
    let m₁ = update m dest (m src) in
    let same : (a : ℕ) → src + 1 ≤ a → a ≤ src + 1 + n → m₁ a ≡ m a = λ a lo hi. ground arith in
    let t₁ = IsText-same m m₁ (src + 1) n same (IsText-tail m src n t) in
    let (m', e, bytes) =
      strcpy-IsText fuel n (dest + 1) (src + 1) m₁ t₁ (omega arith) (omega arith) in
    (
      m',
      strcpy-go fuel dest src m (λ z. t.inside 0 (omega arith) (at_start m src ∙ z)) ∙ e,
      λ a.
          bytes a
          ∙ ground (
            arith,
            ap m {x = src + 1 + (a - (dest + 1))} {y = src + (a - dest)},
            ap m {x = src} {y = src + (a - dest)},
          ),
    )
