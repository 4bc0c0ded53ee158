-- ===== src/FileSystem/Names.antt =====
-- What a read of the directory gives.
use mp.Prelude.{ℕ, ◌+◌, ◌-◌, ◌≤◌, ◌<◌, ◌≡◌, refl, ◌≢◌, ◌⊎◌, ◌∙◌, ap, arith, min}
use mp.Prelude.{true, false, ◌==◌, Memory, Option, some}
use mp.Prelude.Int.{ℤ, pos, success}
use mp.Strings.{memcpy}
use mp.Strings.Copies.{copied, memcpy_lem}
use mp.Strings.Lengths.{IsText, IsBytes, strlen-IsText}
use mp.FileSystem.{
  FileSystem, dentry, dentry_num, rounds, ◌>>=◌, name_length, directory_read, read_dentry_by_name,
  read_dentry_by_index, name_matches,
}
use mp.FileSystem.Header.{IsEntry, read_dentry_by_index-copies}
use mp.FileSystem.Lookup.{Misses, read_dentry_by_name-first}

copied-inside :
    (dest src n j : ℕ) (m : Memory) → j < n → copied dest src n m (dest + j) ≡ m (src + j)
copied-inside dest src n j m h =
    ground (arith, ap m {x = src + (dest + j - dest)} {y = src + j} (omega arith))

name_length_lem : (length old : ℕ) → name_length (pos length) old ≡ min length (min 32 old)
name_length_lem length old = ground arith

-- For a name whose first match is entry `k`, which has ends for its name and its reserved part and is
-- apart from `curdentry`, with a name of `old` bytes at `curdentry`, a buffer that is not null and
-- apart from the whole of `curdentry`, and fuel for the names: `directory_read` returns the least of
-- `length`, 32 and `old`, and fills that much of the buffer with the name of entry `k` and its
-- end. So the name that was looked up before limits the one that is read.
pub directory_read-first :
    (fuel fname buf length k n r old j : ℕ) (fs : FileSystem)
    → IsBytes fs.mem
    → IsEntry fs.mem (dentry fs k) n r
    → IsText fs.mem fs.curdentry old
    → 32 ≤ fuel
    → old < fuel
    → buf ≢ 0
    → fname ≢ 0
    → (fs.curdentry + 64 ≤ dentry fs k) ⊎ (dentry fs k + 64 ≤ fs.curdentry)
    → (buf + 32 ≤ fs.curdentry) ⊎ (fs.curdentry + 64 ≤ buf)
    → k < rounds (dentry_num fs)
    → ((i : ℕ) → i < k → Misses fuel fname fs i)
    → name_matches fuel fname k fs ≡ some true
    → let count = min length (min 32 old) in
      (fs' : FileSystem) × (directory_read fuel fname buf (pos length) fs ≡ some (pos count, fs'))
      × (j < count → j ≤ n → fs'.mem (buf + j) ≡ fs.mem (dentry fs k + j))
unfolding directory_read
directory_read-first fuel fname buf length k n r old j fs b e t enough lo hb hf apart far lt miss
      hit =
    let count = min length (min 32 old) in
    let (q, eq, c, _, cur) =
      read_dentry_by_index-copies fuel k fs.curdentry n r fs b e enough apart (ground arith) in
    let small : count ≤ 32 = ground arith in
    (
      record q { mem = memcpy buf q.curdentry count q.mem },
      returned q eq
          ∙ ap (λ (c : ℕ). some (pos c, record q { mem = memcpy buf q.curdentry c q.mem }))
              (name_length_lem length old),
      λ h hn.
          memcpy_lem count buf q.curdentry q.mem (buf + j) (rw cur (ground (arith, far)))
          ∙ copied-inside buf q.curdentry count j q.mem h
          ∙ ap (λ (d : ℕ). q.mem (d + j)) cur
          ∙ c.same_name j hn,
    )
  where
    buf_zero : (buf == 0) ≡ false
    buf_zero = ground arith

    found :
        {q : FileSystem}
        → read_dentry_by_index fuel k fs.curdentry fs ≡ some (success, q)
        → read_dentry_by_name fuel fname fs.curdentry fs ≡ some (success, q)
    found eq =
        read_dentry_by_name-first fuel fname fs.curdentry k fs hf lt miss hit
        ∙ ap (λ (o : Option (ℤ × FileSystem)). o >>= λ q. some (success, q.1)) eq

    returned :
        (q : FileSystem)
        → read_dentry_by_index fuel k fs.curdentry fs ≡ some (success, q)
        → directory_read fuel fname buf (pos length) fs
          ≡ some (
            pos (name_length (pos length) old),
            record q { mem = memcpy buf q.curdentry (name_length (pos length) old) q.mem },
          )
    returned q eq = rw (buf_zero, strlen-IsText fuel old fs.mem fs.curdentry t lo, found eq) refl
