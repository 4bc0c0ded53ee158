-- ===== src/FileSystem.antt =====
-- filesystem.c over the bytes of memory: the boot block, the directory entries, the index nodes and
-- the data blocks of the image, and the file operations.
pub mod Words
pub mod Lookup
pub mod Data
pub mod Offsets
pub mod Header
pub mod Directory
pub mod Searching
pub mod Names
mod Tests
use mp.Prelude.{ℕ, zero, suc, ◌+◌, ◌-◌, ◌*◌, ◌/◌, ◌%◌, ◌^◌, Bool, ◌||◌, ltb, ◌==◌, if◌then◌else◌}
use mp.Prelude.{Option, none, some, [], ◌∷◌, Memory, update}
use mp.Prelude.Int.{ℤ, pos, negsuc, failure, success, pos_part, ltb_ℤ}
use mp.Screen.{Screen}
use mp.Strings.{printf, word, text, strlen, strncmp, strcpy, memcpy}
use Words.{load32, store32}

-- Sizes and offsets of the structures of filesystem.h.
abbrev pub file_name_length : ℕ
file_name_length = 32

abbrev pub data_block_size : ℕ
data_block_size = 4096

-- The memory, the four globals that point into it, and the screen that the functions print on.
pub record FileSystem : Type 0 where
  pub mem : Memory
  pub bootblock_head : ℕ
  pub indexnode_head : ℕ
  pub datablock_ptr : ℕ
  pub curdentry : ℕ
  pub screen : Screen

abbrev pub dentry_num : FileSystem → ℕ
dentry_num fs = load32 fs.mem fs.bootblock_head

abbrev pub inodes_num : FileSystem → ℕ
inodes_num fs = load32 fs.mem (fs.bootblock_head + 4)

-- The address of `bootblock_head->dentry[index]`; the fields of a `dentry_t` at 0, 32, 36 and 40.
abbrev pub dentry : FileSystem → ℕ → ℕ
dentry fs index = fs.bootblock_head + 64 + 64 * index

abbrev pub file_type : Memory → ℕ → ℕ
file_type m d = load32 m (d + 32)

abbrev pub inode_index : Memory → ℕ → ℕ
inode_index m d = load32 m (d + 36)

-- The address of `indexnode_head[inode]`, whose first word is the file's length.
abbrev pub indexnode : FileSystem → ℕ → ℕ
indexnode fs inode = fs.indexnode_head + 4096 * inode

abbrev pub file_length : FileSystem → ℕ → ℕ
file_length fs inode = load32 fs.mem (indexnode fs inode)

-- A value or no end within the fuel of a string function.
infixl 5 ◌>>=◌
abbrev pub ◌>>=◌ {ℓ κ} : {A : Type ℓ} {B : Type κ} → Option A → (A → Option B) → Option B
none >>= k = none
some a >>= k = k a

unfoldable pub filesystem_init : ℕ → FileSystem → ℤ × FileSystem
filesystem_init modstart fs = (
  success,
  record fs {
    bootblock_head = modstart;
    indexnode_head = modstart + 4096;
    datablock_ptr = modstart + 4096 + 4096 * load32 fs.mem (modstart + 4);
    curdentry = modstart;
  },
)

-- The lines that `read_dentry_by_index` prints first, and the one that it prints last.
print_dentry : ℕ → FileSystem → FileSystem
print_dentry index fs = record fs {
  screen =
      printf "boot block-> dentry[index].inode_index is %d\n"
        (word (inode_index fs.mem (dentry fs index)) ∷ [])
        (printf "boot block-> dentry[index].file type is %d\n"
          (word (file_type fs.mem (dentry fs index)) ∷ []) fs.screen);
}

print_index : ℕ → FileSystem → FileSystem
print_index mydentry fs = record fs {
  screen = printf "%d\n" (word (inode_index fs.mem mydentry) ∷ []) fs.screen;
}

-- The assignments and copies into `mydentry`.
unfoldable pub copy_dentry : ℕ → ℕ → ℕ → Memory → Option Memory
copy_dentry fuel d mydentry m = do
  let m₁ = store32 m (mydentry + 32) (file_type m d)
  let m₂ = store32 m₁ (mydentry + 36) (inode_index m₁ d)
  m₃ ← strcpy fuel mydentry d m₂
  strcpy fuel (mydentry + 40) (d + 40) m₃

-- The guard compares as unsigned, and lets the index `dentry_num` itself pass.
unfoldable pub read_dentry_by_index : ℕ → ℕ → ℕ → FileSystem → Option (ℤ × FileSystem)
unfolding print_dentry print_index
read_dentry_by_index fuel index mydentry fs =
    let fs₁ = print_dentry index fs in
    let found = copy_dentry fuel (dentry fs index) mydentry fs.mem >>= λ m.
    some (success, print_index mydentry (record fs₁ { mem = m })) in
    if ltb (dentry_num fs) index then some (failure, fs₁) else found

abbrev pub is_zero : ℤ → Bool
is_zero (pos n) = n == 0
is_zero (negsuc n) = Bool.false

-- Whether the name at `fname` agrees with the entry's name over the length of the entry's name.
unfoldable pub name_matches : ℕ → ℕ → ℕ → FileSystem → Option Bool
name_matches fuel fname index fs = strlen fuel fs.mem (dentry fs index) >>= λ n.
    some (is_zero (strncmp fs.mem fname (dentry fs index) n))

-- The loop of `read_dentry_by_name`, with the rounds left. What the copy returns is not looked at.
unfoldable pub scan : ℕ → ℕ → ℕ → ℕ → ℕ → FileSystem → Option (ℤ × FileSystem)
scan fuel zero index fname mydentry fs = some (failure, fs)
scan fuel (suc left) index fname mydentry fs =
    let next = scan fuel left (index + 1) fname mydentry fs in
    let copied = read_dentry_by_index fuel index mydentry fs >>= λ r. some (success, r.1) in
    name_matches fuel fname index fs >>= λ b. if b then copied else next

-- The loop's bound is an int32_t: a count with the sign bit makes no round.
abbrev pub rounds : ℕ → ℕ
rounds count = if ltb count (2 ^ 31) then count else 0

unfoldable pub read_dentry_by_name : ℕ → ℕ → ℕ → FileSystem → Option (ℤ × FileSystem)
read_dentry_by_name fuel fname mydentry fs =
    if fname == 0
    then some (failure, fs)
    else scan fuel (rounds (dentry_num fs)) 0 fname mydentry fs

-- The loop of `read_data` over the blocks, from block `i` and `buf_offset` on, with the rounds left.
-- `buf_offset` never passes `length`, so the subtraction does not wrap.
unfoldable pub read_blocks : ℕ → ℕ → ℕ → ℕ → ℕ → ℕ → ℕ → Memory → ℕ × Memory
read_blocks node blocks buf length zero i buf_offset m = (buf_offset, m)
read_blocks node blocks buf length (suc left) i buf_offset m =
    let data_id = load32 m (node + 4 + 4 * i) in
    let memcpy_len =
      if ltb (length - buf_offset) data_block_size then length - buf_offset else data_block_size in
    read_blocks node blocks buf length left (i + 1) (buf_offset + memcpy_len)
      (memcpy (buf + buf_offset) (blocks + 4096 * data_id) memcpy_len m)

-- The length after the correction for the end of the file; the sum is of uint32_t.
abbrev pub clipped : ℕ → ℕ → ℕ → ℕ
clipped length offset size = if ltb size ((length + offset) % 2 ^ 32) then size - offset else length

-- `int32_t` from its 32 bits, as where `read_data` returns its uint32_t.
abbrev pub as_signed : ℕ → ℤ
as_signed n = if ltb n (2 ^ 31) then pos n else negsuc (2 ^ 32 - n - 1)

unfoldable pub read_data : ℕ → ℕ → ℕ → ℕ → FileSystem → ℤ × FileSystem
read_data inode offset buf length fs =
    if fs.bootblock_head == 0
    then (failure, fs)
    else if ltb (inodes_num fs) inode || ltb (file_length fs inode) offset
    then (failure, fs)
    else let n = clipped length offset (file_length fs inode) in
      let starting = offset / data_block_size in
      let ending = (offset + n) % 2 ^ 32 / data_block_size in
      let (count, m) =
        read_blocks (indexnode fs inode) fs.datablock_ptr buf n (ending + 1 - starting) starting 0
          fs.mem in
      (as_signed count, record fs { mem = m })

unfoldable pub file_open : ℕ → ℕ → FileSystem → Option (ℤ × FileSystem)
file_open fuel fname fs =
    if fname == 0 then some (failure, fs) else read_dentry_by_name fuel fname fs.curdentry fs

unfoldable pub file_close : FileSystem → ℤ × FileSystem
file_close fs = (success, fs)

unfoldable pub file_write : FileSystem → ℤ × FileSystem
file_write fs = (failure, fs)

-- A negative `length` becomes a large uint32_t at the call of `read_data`.
abbrev pub as_unsigned : ℤ → ℕ
as_unsigned (pos n) = n
as_unsigned (negsuc n) = 2 ^ 32 - (n + 1)

unfoldable pub file_read : ℕ → ℕ → ℕ → ℕ → ℤ → FileSystem → Option (ℤ × FileSystem)
file_read fuel fname offset buf length fs =
    if fs.bootblock_head == 0
    then some (failure, fs)
    else (read_dentry_by_name fuel fname fs.curdentry fs >>= λ r.
        if is_zero r.0
        then some
            (read_data (inode_index r.1.mem r.1.curdentry) offset buf (as_unsigned length) r.1)
        else some (failure, r.1))

-- Any result but 0 of the lookup is a failure.
unfoldable pub directory_open : ℕ → ℕ → FileSystem → Option (ℤ × FileSystem)
directory_open fuel fname fs =
    if fname == 0
    then some (failure, fs)
    else (read_dentry_by_name fuel fname fs.curdentry fs >>= λ r.
        some (if is_zero r.0 then success else failure, r.1))

unfoldable pub directory_close : FileSystem → ℤ × FileSystem
directory_close fs = (success, fs)

unfoldable pub directory_write : FileSystem → ℤ × FileSystem
directory_write fs = (failure, fs)

-- The two corrections of `length`: the first compares signed, the second as uint32_t.
abbrev pub name_length : ℤ → ℕ → ℕ
name_length length n =
    let l =
      as_unsigned (if ltb_ℤ (pos file_name_length) length then pos file_name_length else length) in
    if ltb n l then n else l

unfoldable pub directory_read : ℕ → ℕ → ℕ → ℤ → FileSystem → Option (ℤ × FileSystem)
directory_read fuel fname buf length fs =
    if buf == 0
    then some (failure, fs)
    else (strlen fuel fs.mem fs.curdentry >>= λ n.
        read_dentry_by_name fuel fname fs.curdentry fs >>= λ r. some (
          pos (name_length length n),
          record r.1 { mem = memcpy buf r.1.curdentry (name_length length n) r.1.mem },
        ))
