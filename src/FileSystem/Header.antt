-- ===== src/FileSystem/Header.antt =====
-- What `read_dentry_by_index` writes, and what that does to the boot block when the entry is put where
-- `curdentry` points.
use mp.Prelude.{ℕ, ◌+◌, ◌-◌, ◌≤◌, ◌<◌, ◌≡◌, refl, ◌≢◌, ◌⊎◌, inl, ◌∙◌, sym, ap, arith}
use mp.Prelude.{true, false, ltb, Memory, Option, some}
use mp.Prelude.Int.{ℤ, success}
use mp.Strings.{strcpy}
use mp.Strings.Lengths.{IsText, IsBytes, IsText-same, strcpy-IsText, string_copied}
use mp.FileSystem.{
  FileSystem, dentry, dentry_num, rounds, file_type, inode_index, copy_dentry, ◌>>=◌,
}
use mp.FileSystem.{
  print_dentry, print_index, read_dentry_by_index, read_dentry_by_name, file_open, name_matches,
}
use mp.FileSystem.Words.{
  load32, store32, load32-store32, load32-same, load32-lt, load32-moved, store32-other,
}
use mp.FileSystem.Lookup.{Misses, read_dentry_by_name-first}

-- A directory entry as the image has them: a name with its end, and a reserved part with one.
pub record IsEntry (m : Memory) (d n r : ℕ) : Type 0 where
  pub name : IsText m d n
  pub name_fits : n < 32
  pub reserved : IsText m (d + 40) r
  pub reserved_fits : r < 24

-- What is copied to `mydentry`, and what stays.
pub record IsCopied (m m' : Memory) (d mydentry n : ℕ) : Type 0 where
  pub same_name : (j : ℕ) → j ≤ n → m' (mydentry + j) ≡ m (d + j)
  pub same_type : file_type m' mydentry ≡ file_type m d
  pub same_inode : inode_index m' mydentry ≡ inode_index m d
  pub rest : (a : ℕ) → (a < mydentry) ⊎ (mydentry + 64 ≤ a) → m' a ≡ m a
  pub bytes : IsBytes m'

store32-IsBytes : (m : Memory) (a v : ℕ) → IsBytes m → IsBytes (store32 m a v)
unfolding store32
store32-IsBytes m a v b i = ground (arith, b i)

-- A memory that has a copied string has bytes.
copied-IsBytes :
    (m m' : Memory) (dest src n : ℕ)
    → IsBytes m
    → ((a : ℕ) → m' a ≡ string_copied dest src n m a)
    → IsBytes m'
copied-IsBytes m m' dest src n b e a = ground (arith, e a, b a, b (src + (a - dest)))

module _ (m : Memory) (d mydentry : ℕ) (apart : (mydentry + 64 ≤ d) ⊎ (d + 64 ≤ mydentry)) where
  -- The memory after the two assignments.
  abbrev typed : Memory
  typed = store32 m (mydentry + 32) (file_type m d)

  abbrev indexed : Memory
  indexed = store32 typed (mydentry + 36) (inode_index typed d)

  indexed-other : (a : ℕ) → (a < mydentry + 32) ⊎ (mydentry + 40 ≤ a) → indexed a ≡ m a
  indexed-other a h =
      store32-other typed (mydentry + 36) (inode_index typed d) a (omega arith)
      ∙ store32-other m (mydentry + 32) (file_type m d) a (omega arith)

  indexed-type : IsBytes m → file_type indexed mydentry ≡ file_type m d
  indexed-type b =
      load32-same indexed typed (mydentry + 32)
        (λ a lo hi. store32-other typed (mydentry + 36) (inode_index typed d) a (omega arith))
      ∙ load32-store32 m (mydentry + 32) (file_type m d) (load32-lt m (d + 32) b)

  typed-inode : inode_index typed d ≡ inode_index m d
  typed-inode =
      load32-same typed m (d + 36)
        (λ a lo hi. store32-other m (mydentry + 32) (file_type m d) a (omega arith))

  indexed-inode : IsBytes m → inode_index indexed mydentry ≡ inode_index m d
  indexed-inode b =
      load32-store32 typed (mydentry + 36) (inode_index typed d)
        (rw typed-inode (load32-lt m (d + 36) b))
      ∙ typed-inode

  copies :
      (fuel : ℕ) (m₃ m₄ : Memory)
      → strcpy fuel mydentry d indexed ≡ some m₃
      → strcpy fuel (mydentry + 40) (d + 40) m₃ ≡ some m₄
      → copy_dentry fuel d mydentry m ≡ some m₄
  unfolding copy_dentry
  copies fuel m₃ m₄ e f = rw e f

  -- With fuel for the strings, the copy ends, and the name, the type and the inode are those of the
  -- entry; nothing outside of the 64 bytes of `mydentry` changes.
  pub copy_dentry_lem :
      (fuel n r : ℕ)
      → IsBytes m
      → IsEntry m d n r
      → 32 ≤ fuel
      → (m' : Memory) × (copy_dentry fuel d mydentry m ≡ some m') × IsCopied m m' d mydentry n
  copy_dentry_lem fuel n r b e h =
      let t₂ : IsText indexed d n =
        IsText-same m indexed d n (λ a lo hi. indexed-other a (omega arith)) e.name in
      let (m₃, e₃, at₃) = strcpy-IsText fuel n mydentry d indexed t₂ (omega arith) (omega arith) in
      let keep₃ : (a : ℕ) → (a < mydentry) ⊎ (mydentry + 32 ≤ a) → m₃ a ≡ indexed a =
        λ a out. at₃ a ∙ ground arith in
      let t₄ : IsText m₃ (d + 40) r =
        IsText-same m m₃ (d + 40) r
          (λ a lo hi. keep₃ a (omega arith) ∙ indexed-other a (omega arith)) e.reserved in
      let (m₄, e₄, at₄) =
        strcpy-IsText fuel r (mydentry + 40) (d + 40) m₃ t₄ (omega arith) (omega arith) in
      let keep₄ : (a : ℕ) → (a < mydentry + 40) ⊎ (mydentry + 64 ≤ a) → m₄ a ≡ m₃ a =
        λ a out. at₄ a ∙ ground arith in
      (
        m₄,
        copies fuel m₃ m₄ e₃ e₄,
        record {
          same_name = λ j hj.
              keep₄ (mydentry + j) (omega arith)
              ∙ (at₃ (mydentry + j) ∙ (first_part j hj ∙ indexed-other (d + j) (omega arith)));
          same_type =
              load32-same m₄ indexed (mydentry + 32)
                (λ a lo hi. keep₄ a (omega arith) ∙ keep₃ a (omega arith))
              ∙ indexed-type b;
          same_inode =
              load32-same m₄ indexed (mydentry + 36)
                (λ a lo hi. keep₄ a (omega arith) ∙ keep₃ a (omega arith))
              ∙ indexed-inode b;
          rest = λ a out.
              keep₄ a (omega arith) ∙ (keep₃ a (omega arith) ∙ indexed-other a (omega arith));
          bytes =
              copied-IsBytes m₃ m₄ _ _ r
                (copied-IsBytes indexed m₃ _ _ n
                  (store32-IsBytes typed _ _ (store32-IsBytes m _ _ b)) at₃)
                at₄;
        },
      )
    where
      first_part :
          (j : ℕ) → j ≤ n → string_copied mydentry d n indexed (mydentry + j) ≡ indexed (d + j)
      first_part j hj = ground (arith, ap indexed {x = d + (mydentry + j - mydentry)} {y = d + j})

-- For an index up to the count of entries, an entry whose name and reserved part have ends inside
-- it, a destination apart from it, and fuel for both strings, the lookup ends with 0, has copied
-- name, type and inode, and has changed nothing outside the destination's 64 bytes.
pub read_dentry_by_index-copies :
    (fuel index mydentry n r : ℕ) (fs : FileSystem)
    → IsBytes fs.mem
    → IsEntry fs.mem (dentry fs index) n r
    → 32 ≤ fuel
    → (mydentry + 64 ≤ dentry fs index) ⊎ (dentry fs index + 64 ≤ mydentry)
    → index ≤ dentry_num fs
    → (fs' : FileSystem) × (read_dentry_by_index fuel index mydentry fs ≡ some (success, fs'))
      × IsCopied fs.mem fs'.mem (dentry fs index) mydentry n
      × (fs'.bootblock_head ≡ fs.bootblock_head)
      × (fs'.curdentry ≡ fs.curdentry)
unfolding read_dentry_by_index print_dentry print_index
read_dentry_by_index-copies fuel index mydentry n r fs b e h apart le =
    let (m', eq, c) = copy_dentry_lem fs.mem (dentry fs index) mydentry apart fuel n r b e h in
    let fs' = print_index mydentry (record (print_dentry index fs) { mem = m' }) in
    (fs', rw (in_range, eq) refl, c, refl, refl)
  where
    in_range : ltb (dentry_num fs) index ≡ false
    in_range = ground arith

-- With `curdentry` at the boot block, where `filesystem_init` puts it: opening a file that is
-- found, as the first match, at an entry whose name has from 3 to 31 characters and whose reserved
-- part has an end, with fuel for both, answers 0 and overwrites the count of entries with the
-- first four bytes of the file's name.
pub file_open-header :
    (fuel fname k n r : ℕ) (fs : FileSystem)
    → IsBytes fs.mem
    → IsEntry fs.mem (dentry fs k) n r
    → 32 ≤ fuel
    → 3 ≤ n
    → fs.curdentry ≡ fs.bootblock_head
    → fname ≢ 0
    → k < rounds (dentry_num fs)
    → ((j : ℕ) → j < k → Misses fuel fname fs j)
    → name_matches fuel fname k fs ≡ some true
    → (fs' : FileSystem) × (file_open fuel fname fs ≡ some (success, fs'))
      × (dentry_num fs' ≡ load32 fs.mem (dentry fs k))
unfolding file_open
file_open-header fuel fname k n r fs b e h three cur fn lt miss hit =
    let (fs', eq, c, head, _) =
      read_dentry_by_index-copies fuel k fs.curdentry n r fs b e h (inl (omega arith))
        (ground arith) in
    (
      fs',
      opens
          ∙ (read_dentry_by_name-first fuel fname fs.curdentry k fs fn lt miss hit
              ∙ ap (λ (o : Option (ℤ × FileSystem)). o >>= λ q. some (success, q.1)) eq),
      ap (load32 fs'.mem) (head ∙ sym cur)
          ∙ load32-moved fs.mem fs'.mem fs.curdentry (dentry fs k)
              (λ j hj. c.same_name j (omega arith)),
    )
  where
    opens : file_open fuel fname fs ≡ read_dentry_by_name fuel fname fs.curdentry fs
    opens = ground arith
