-- ===== src/FileSystem/Lookup.antt =====
-- Which entry `read_dentry_by_name` finds.
use mp.Prelude.{
  ℕ, zero, suc, ◌+◌, ◌≤◌, ◌<◌, ◌≡◌, refl, ◌≢◌, ◌⊎◌, inl, inr, ◌↔◌, ◌∙◌, sym, ap, arith,
}
use mp.Prelude.{true, false, some, ℕ_discrete}
use mp.Prelude.Int.{ℤ, pos, negsuc, failure, success}
use mathlib.Core.Option.{some-injective}
use mp.Strings.Lengths.{IsText, IsBytes, strlen-IsText, strncmp-prefix}
use mp.FileSystem.{FileSystem, dentry, dentry_num, rounds, is_zero, name_matches, scan, ◌>>=◌}
use mp.FileSystem.{read_dentry_by_index, read_dentry_by_name}

-- The entry's name, as a C string of `n` bytes, begins the name asked for.
abbrev pub Begins : FileSystem → ℕ → ℕ → ℕ → Type 0
Begins fs index n fname = (j : ℕ) → j < n → fs.mem (fname + j) ≡ fs.mem (dentry fs index + j)

is_zero-true : (z : ℤ) → is_zero z ≡ true → z ≡ pos 0
is_zero-true (pos n) h = ground arith
is_zero-true (negsuc n) h = cc

-- In a memory of bytes, with fuel for an entry's name, the entry matches exactly when its name is
-- a prefix of the name asked for: `shell` matches `shellx`.
pub name_matches_iff :
    (fuel fname index n : ℕ) (fs : FileSystem)
    → IsBytes fs.mem
    → IsText fs.mem (dentry fs index) n
    → n < fuel
    → (name_matches fuel fname index fs ≡ some true) ↔ Begins fs index n fname
unfolding name_matches
name_matches_iff fuel fname index n fs b t h =
    let (there, back) = strncmp-prefix n fs.mem fname (dentry fs index) b t in
    rw (strlen-IsText fuel n fs.mem (dentry fs index) t h)
      ((λ e. there (is_zero-true _ (some-injective _ _ e))), (λ p. rw (back p)))

-- The entry gives an answer, and it is no.
abbrev pub Misses : ℕ → ℕ → FileSystem → ℕ → Type 0
Misses fuel fname fs index = name_matches fuel fname index fs ≡ some false

scan-skips :
    (left i : ℕ) (fuel fname mydentry : ℕ) (fs : FileSystem)
    → Misses fuel fname fs i
    → scan fuel (suc left) i fname mydentry fs ≡ scan fuel left (i + 1) fname mydentry fs
unfolding scan
scan-skips left i fuel fname mydentry fs h = rw h

scan-hits :
    (left i : ℕ) (fuel fname mydentry : ℕ) (fs : FileSystem)
    → name_matches fuel fname i fs ≡ some true
    → scan fuel (suc left) i fname mydentry fs
      ≡ (read_dentry_by_index fuel i mydentry fs >>= λ r. some (success, r.1))
unfolding scan
scan-hits left i fuel fname mydentry fs h = rw h

scan-first :
    (left i k : ℕ) (fuel fname mydentry : ℕ) (fs : FileSystem)
    → i ≤ k
    → k < i + left
    → ((j : ℕ) → i ≤ j → j < k → Misses fuel fname fs j)
    → name_matches fuel fname k fs ≡ some true
    → scan fuel left i fname mydentry fs
      ≡ (read_dentry_by_index fuel k mydentry fs >>= λ r. some (success, r.1))
scan-first zero i k fuel fname mydentry fs lo hi miss hit = absurd (omega arith)
scan-first (suc left) i k fuel fname mydentry fs lo hi miss hit = elim (ℕ_discrete i k) [
  | yes e ↦
      scan-hits left i fuel fname mydentry fs (ap (λ (x : ℕ). name_matches fuel fname x fs) e ∙ hit)
      ∙ ap (λ (x : ℕ). read_dentry_by_index fuel x mydentry fs >>= λ r. some (success, r.1)) e
  | no ne ↦
      scan-skips left i fuel fname mydentry fs (miss i (omega arith) (omega arith))
      ∙ scan-first left (i + 1) k fuel fname mydentry fs (omega arith) (omega arith)
          (λ j a b. miss j (omega arith) b) hit
]

scan-none :
    (left i : ℕ) (fuel fname mydentry : ℕ) (fs : FileSystem)
    → ((j : ℕ) → i ≤ j → j < i + left → Misses fuel fname fs j)
    → scan fuel left i fname mydentry fs ≡ some (failure, fs)
scan-none zero i fuel fname mydentry fs miss = unfold scan in refl
scan-none (suc left) i fuel fname mydentry fs miss =
    scan-skips left i fuel fname mydentry fs (miss i (omega arith) (omega arith))
    ∙ scan-none left (i + 1) fuel fname mydentry fs (λ j a b. miss j (omega arith) (omega arith))

-- For a name that is not null, where entry `k` of the directory matches and each entry before it
-- has an end and does not, the lookup is the copy of entry `k`, with the answer 0.
pub read_dentry_by_name-first :
    (fuel fname mydentry k : ℕ) (fs : FileSystem)
    → fname ≢ 0
    → k < rounds (dentry_num fs)
    → ((j : ℕ) → j < k → Misses fuel fname fs j)
    → name_matches fuel fname k fs ≡ some true
    → read_dentry_by_name fuel fname mydentry fs
      ≡ (read_dentry_by_index fuel k mydentry fs >>= λ r. some (success, r.1))
unfolding read_dentry_by_name
read_dentry_by_name-first fuel fname mydentry k fs h lt miss hit = ground (
  arith,
  scan-first (rounds (dentry_num fs)) 0 k fuel fname mydentry fs (omega arith) (omega arith)
      (λ j a b. miss j b) hit,
)

-- Where no entry of the directory matches, or the name is the null pointer, the answer is -1 and
-- nothing changes.
pub read_dentry_by_name-none :
    (fuel fname mydentry : ℕ) (fs : FileSystem)
    → (fname ≡ 0) ⊎ ((j : ℕ) → j < rounds (dentry_num fs) → Misses fuel fname fs j)
    → read_dentry_by_name fuel fname mydentry fs ≡ some (failure, fs)
unfolding read_dentry_by_name
read_dentry_by_name-none fuel fname mydentry fs (inl z) = ground arith
read_dentry_by_name-none fuel fname mydentry fs (inr miss) = ground (
  arith,
  scan-none (rounds (dentry_num fs)) 0 fuel fname mydentry fs (λ j a b. miss j (omega arith)),
)

-- A file whose name fills all 32 bytes is never found by that name: its name has no end, so the type
-- behind it, if its first byte is not 0, is compared with the end of the name asked for.
pub full_name_missed :
    (fuel fname index n : ℕ) (fs : FileSystem)
    → IsBytes fs.mem
    → IsText fs.mem (dentry fs index) n
    → n < fuel
    → 32 < n
    → fs.mem (fname + 32) ≡ 0
    → name_matches fuel fname index fs ≢ some true
full_name_missed fuel fname index n fs b t h len z e =
    t.inside 32 len (sym ((name_matches_iff fuel fname index n fs b t h).0 e 32 len) ∙ z)
