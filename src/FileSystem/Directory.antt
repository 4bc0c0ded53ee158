-- ===== src/FileSystem/Directory.antt =====
-- A directory whose entries can all be read, and that the reads leave so.
use mp.Prelude.{ℕ, ◌+◌, ◌*◌, ◌≤◌, ◌<◌, ◌≡◌, refl, ◌⊎◌, inl, inr, ◌∙◌, ap, arith, dec_lt}
use mp.Prelude.{Memory, some}
use mp.Prelude.Int.{ℤ, success, failure}
use mp.Strings.Lengths.{IsBytes, IsText-same}
use mp.FileSystem.{file_type, inode_index, FileSystem, dentry, dentry_num, read_dentry_by_index}
use mp.FileSystem.{print_dentry}
use mp.FileSystem.Words.{load32, load32-same}
use mp.FileSystem.Header.{IsEntry, read_dentry_by_index-copies}

-- The entry behind the last counts too, since the guard lets its index pass. `mydentry` stands apart
-- from all of them.
pub record IsDirectory (mydentry : ℕ) (fs : FileSystem) : Type 0 where
  pub bytes : IsBytes fs.mem
  pub entry :
      (index : ℕ) → index ≤ dentry_num fs → (n : ℕ) × (r : ℕ) × IsEntry fs.mem (dentry fs index) n r
  pub apart :
      (mydentry + 64 ≤ fs.bootblock_head)
      ⊎ (fs.bootblock_head + 128 + 64 * dentry_num fs ≤ mydentry)

pub IsEntry-same :
    (m m' : Memory) (d d' n r : ℕ)
    → d' ≡ d
    → ((a : ℕ) → d ≤ a → a < d + 64 → m' a ≡ m a)
    → IsEntry m d n r
    → IsEntry m' d' n r
IsEntry-same m m' d d' n r eq same e =
    let n32 = e.name_fits in
    let r24 = e.reserved_fits in
    rw eq (record {
      name = IsText-same m m' d n (λ a lo hi. same a (omega arith) (omega arith)) e.name;
      name_fits = n32;
      reserved =
          IsText-same m m' (d + 40) r (λ a lo hi. same a (omega arith) (omega arith)) e.reserved;
      reserved_fits = r24;
    })

-- The directory of `fs'` is that of `fs`.
pub record IsSame (fs fs' : FileSystem) : Type 0 where
  pub bytes : IsBytes fs'.mem
  pub head : fs'.bootblock_head ≡ fs.bootblock_head
  pub inside :
      (a : ℕ)
      → fs.bootblock_head ≤ a
      → a < fs.bootblock_head + 128 + 64 * dentry_num fs
      → fs'.mem a ≡ fs.mem a

pub dentry_num-same : (fs fs' : FileSystem) → IsSame fs fs' → dentry_num fs' ≡ dentry_num fs
dentry_num-same fs fs' k =
    ap (load32 fs'.mem) k.head
    ∙ load32-same fs'.mem fs.mem fs.bootblock_head (λ a lo hi. k.inside a lo (omega arith))

pub IsDirectory-same :
    (mydentry : ℕ) (fs fs' : FileSystem)
    → IsDirectory mydentry fs
    → IsSame fs fs'
    → IsDirectory mydentry fs'
IsDirectory-same mydentry fs fs' d k =
    let far = d.apart in
    let head = k.head in
    let count = dentry_num-same fs fs' k in
    record {
      bytes = k.bytes;
      entry = λ index le.
          let (n, r, e) = d.entry index (omega arith) in
          (
            n,
            r,
            IsEntry-same fs.mem fs'.mem (dentry fs index) (dentry fs' index) n r
                (ap (λ (b : ℕ). b + 64 + 64 * index) head)
                (λ a lo hi. k.inside a (omega arith) (omega arith)) e,
          );
      apart = omega arith;
    }

-- Nothing outside of `mydentry` has changed.
abbrev pub IsKept : ℕ → FileSystem → FileSystem → Type 0
IsKept mydentry fs fs' =
    (fs'.bootblock_head ≡ fs.bootblock_head)
    × ((a : ℕ) → (a < mydentry) ⊎ (mydentry + 64 ≤ a) → fs'.mem a ≡ fs.mem a)

IsDirectory-kept :
    (mydentry : ℕ) (fs fs' : FileSystem)
    → IsDirectory mydentry fs
    → IsBytes fs'.mem
    → IsKept mydentry fs fs'
    → IsDirectory mydentry fs'
IsDirectory-kept mydentry fs fs' d b k =
    let far = d.apart in
    let same : IsSame fs fs' = record {
      bytes = b;
      head = k.0;
      inside = λ a lo hi. k.1 a (omega arith);
    } in
    IsDirectory-same mydentry fs fs' d same

-- What the lookup by index answers, and what stands at `mydentry` then.
abbrev pub IsAnswered : ℕ → ℕ → FileSystem → ℤ → FileSystem → Type 0
IsAnswered index mydentry fs z fs' =
    ((index ≤ dentry_num fs)
      × (z ≡ success)
      × (inode_index fs'.mem mydentry ≡ inode_index fs.mem (dentry fs index))
      × (file_type fs'.mem mydentry ≡ file_type fs.mem (dentry fs index)))
    ⊎ ((dentry_num fs < index) × (z ≡ failure))

-- An index past the count.
too_large :
    (fuel index mydentry : ℕ) (fs : FileSystem)
    → dentry_num fs < index
    → read_dentry_by_index fuel index mydentry fs ≡ some (failure, print_dentry index fs)
unfolding read_dentry_by_index
too_large fuel index mydentry fs h = ground arith

pub read_dentry_by_index-IsDirectory :
    (fuel index mydentry : ℕ) (fs : FileSystem)
    → 32 ≤ fuel
    → IsDirectory mydentry fs
    → (z : ℤ) × (fs' : FileSystem) × (read_dentry_by_index fuel index mydentry fs ≡ some (z, fs'))
      × IsDirectory mydentry fs'
      × IsKept mydentry fs fs'
      × IsAnswered index mydentry fs z fs'
unfolding print_dentry
read_dentry_by_index-IsDirectory fuel index mydentry fs h d = elim (dec_lt (dentry_num fs) index) [
  | yes past ↦ (
    failure,
    print_dentry index fs,
    too_large fuel index mydentry fs past,
    record { bytes = d.bytes; entry = d.entry; apart = d.apart },
    (refl, λ a out. refl),
    inr (past, refl),
  )
  | no within ↦
      let (n, r, e) = d.entry index (omega arith) in
      let far = d.apart in
      let (fs', eq, c, head, _) =
        read_dentry_by_index-copies fuel index mydentry n r fs d.bytes e h (omega arith)
          (omega arith) in
      (
        success,
        fs',
        eq,
        IsDirectory-kept mydentry fs fs' d c.bytes (head, c.rest),
        (head, c.rest),
        inl (omega arith, refl, c.same_inode, c.same_type),
      )
]
