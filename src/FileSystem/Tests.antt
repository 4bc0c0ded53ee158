-- ===== src/FileSystem/Tests.antt =====
-- A small image: one entry with the name "ab" and one file of six bytes.
use mp.Prelude.{ℕ, zero, suc, ◌+◌, ◌*◌, ◌<◌, ◌≡◌, refl, ◌↔◌, arith, true, some, ◌==◌}
use mp.Prelude.{if◌then◌else◌, Memory, []}
use mp.Prelude.Int.{pos, success}
use mp.Screen.{Screen}
use mp.Strings.{strlen, strncmp}
use mp.Strings.Lengths.{IsText, IsBytes}
use mp.FileSystem.{FileSystem, dentry_num, read_data, read_dentry_by_name, read_dentry_by_index}
use mp.FileSystem.{◌>>=◌, name_matches, file_open}
use mp.FileSystem.Words.{load32}
use mp.FileSystem.Lookup.{Begins, Misses, name_matches_iff, read_dentry_by_name-first}
use mp.FileSystem.Data.{IsBelowBuffer, read_data_lem}
use mp.FileSystem.Header.{IsEntry, file_open-header}

-- The boot block at 4096, the index nodes from 8192 on, the data from 16384 on; the command line's
-- word "ab" at 100, and "xy" at 110.
abbrev image : Memory
image a =
    if a == 4096
    then 1
    else if a == 4100
    then 2
    else if a == 4160
    then b'a'
    else if a == 4161
    then b'b'
    else if a == 4162
    then b'.'
    else if a == 4192
    then 2
    else if a == 4196
    then 1
    else if a == 12288
    then 6
    else if a == 16384
    then b'h'
    else if a == 16385
    then b'i'
    else if a == 100
    then b'a'
    else if a == 101
    then b'b'
    else if a == 102
    then b'.'
    else if a == 110
    then b'x'
    else 0

abbrev screen : Screen
screen = record { screen_x = 0; screen_y = 0; video_mem = λ o. 0; sent = [] }

abbrev fs : FileSystem
fs = record {
  mem = image;
  bootblock_head = 4096;
  indexnode_head = 8192;
  datablock_ptr = 16384;
  curdentry = 4096;
  screen = screen;
}

image-IsBytes : IsBytes image
image-IsBytes a = ground arith

name-IsText : IsText image 4160 3
name-IsText = record { ends = refl; inside = λ j h. ground arith }

only_block : (i : ℕ) → i < 1 → load32 image (12288 + 4 + 4 * i) ≡ 0
unfolding load32
only_block i h = ground arith

below : IsBelowBuffer fs 1 6 40000
below = record { node_below = omega arith; block_below = λ i h. ground (arith, only_block i h) }

read_data_lem_example :
    ((read_data 1 0 40000 10 fs).0 ≡ pos 6) × ((read_data 1 0 40000 10 fs).1.mem 40001 ≡ b'i')
unfolding load32
read_data_lem_example =
    read_data_lem 1 0 40000 10 40001 fs (omega arith) (omega arith) (omega arith) (omega arith)
      below

matches : name_matches 40 100 0 fs ≡ some true
unfolding name_matches strlen strncmp
matches = refl

name_matches_iff_example : (name_matches 40 100 0 fs ≡ some true) ↔ Begins fs 0 3 100
name_matches_iff_example = name_matches_iff 40 100 0 3 fs image-IsBytes name-IsText (omega arith)

read_dentry_by_name-first_example :
    read_dentry_by_name 40 100 200 fs
    ≡ (read_dentry_by_index 40 0 200 fs >>= λ r. some (success, r.1))
unfolding load32
read_dentry_by_name-first_example =
    read_dentry_by_name-first 40 100 200 0 fs (omega arith) (omega arith) (λ j h. elim h [ ])
      matches

misses : (j : ℕ) → j < 1 → Misses 40 110 fs j
unfolding name_matches strlen strncmp
misses zero h = refl
misses (suc j) h = absurd (omega arith)

ab-IsEntry : IsEntry image 4160 3 0
ab-IsEntry = record {
  name = name-IsText;
  name_fits = omega arith;
  reserved = record { ends = refl; inside = λ j h. elim h [ ] };
  reserved_fits = omega arith;
}

-- The count of entries is 1 before, and "ab." after.
file_open-header_example :
    (fs' : FileSystem) × (file_open 40 100 fs ≡ some (success, fs'))
    × (dentry_num fs' ≡ b'a' + 256 * b'b' + 65536 * b'.')
unfolding load32
file_open-header_example =
    file_open-header 40 100 0 3 0 fs image-IsBytes ab-IsEntry (omega arith) (omega arith) refl
      (omega arith) (omega arith) (λ j h. elim h [ ]) matches
