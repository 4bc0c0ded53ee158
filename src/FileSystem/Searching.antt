-- ===== src/FileSystem/Searching.antt =====
-- The lookup by name ends.
use mp.Prelude.{ℕ, zero, suc, ◌+◌, ◌≤◌, ◌≡◌, refl, arith, some, Bool, ◌==◌}
use mp.Prelude.{inl, inr, Bool-cases}
use mp.Prelude.Int.{ℤ, success, failure}
use mp.Strings.{strncmp}
use mp.Strings.Lengths.{strlen-IsText}
use mp.FileSystem.{FileSystem, dentry, dentry_num, rounds, is_zero, name_matches, scan}
use mp.FileSystem.{read_dentry_by_name}
use mp.FileSystem.Directory.{IsDirectory, read_dentry_by_index-IsDirectory}

name_answered :
    (fuel fname index mydentry : ℕ) (fs : FileSystem)
    → 32 ≤ fuel
    → index ≤ dentry_num fs
    → IsDirectory mydentry fs
    → (b : Bool) × (name_matches fuel fname index fs ≡ some b)
unfolding name_matches
name_answered fuel fname index mydentry fs h le d =
    let (n, r, e) = d.entry index le in
    let short = e.name_fits in
    (
      is_zero (strncmp fs.mem fname (dentry fs index) n),
      rw (strlen-IsText fuel n fs.mem (dentry fs index) e.name (omega arith)) refl,
    )

scan_returns :
    (fuel left index fname mydentry : ℕ) (fs : FileSystem)
    → 32 ≤ fuel
    → index + left ≤ dentry_num fs
    → IsDirectory mydentry fs
    → (z : ℤ) × (fs' : FileSystem) × (scan fuel left index fname mydentry fs ≡ some (z, fs'))
unfolding scan
scan_returns fuel zero index fname mydentry fs h le d = (failure, fs, refl)
scan_returns fuel (suc left) index fname mydentry fs h le d =
    let (b, e) = name_answered fuel fname index mydentry fs h (omega arith) d in
    let (z, fs₁, e₁, _, _, _) = read_dentry_by_index-IsDirectory fuel index mydentry fs h d in
    let (z₂, fs₂, e₂) = scan_returns fuel left (index + 1) fname mydentry fs h (omega arith) d in
    elim (Bool-cases b) [
      | inl t ↦ (success, fs₁, rw (e, t) (rw e₁ refl))
      | inr t ↦ (z₂, fs₂, rw (e, t) e₂)
    ]

-- On a directory whose entries can all be read, with fuel for a name, the lookup by name ends, for
-- every name.
pub read_dentry_by_name_returns :
    (fuel fname mydentry : ℕ) (fs : FileSystem)
    → 32 ≤ fuel
    → IsDirectory mydentry fs
    → (z : ℤ) × (fs' : FileSystem) × (read_dentry_by_name fuel fname mydentry fs ≡ some (z, fs'))
unfolding read_dentry_by_name
read_dentry_by_name_returns fuel fname mydentry fs h d = elim (Bool-cases (fname == 0)) [
  | inl t ↦ (failure, fs, rw t refl)
  | inr t ↦ rw t (scan_returns fuel (rounds (dentry_num fs)) 0 fname mydentry fs h (ground arith) d)
]
