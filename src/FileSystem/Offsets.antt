-- ===== src/FileSystem/Offsets.antt =====
-- Where `read_data` starts to read, and when it refuses to.
use mp.Prelude.{ℕ, ◌+◌, ◌-◌, ◌*◌, ◌/◌, ◌%◌, ◌^◌, ◌≤◌, ◌<◌, ◌≡◌, ◌≢◌, ◌⊎◌, ◌∙◌, ap, arith, min}
use mp.Prelude.Int.{failure}
use mp.FileSystem.{FileSystem, read_data, file_length, inodes_num}
use mp.FileSystem.Data.{IsBelowBuffer, byte_of, read_data_lem}

-- At an offset on a block boundary, so at 0 where `execute` reads, byte `j` of the buffer is byte
-- `offset + j` of the file.
pub read_data_aligned :
    (inode offset buf length j : ℕ) (fs : FileSystem)
    → fs.bootblock_head ≢ 0
    → inode ≤ inodes_num fs
    → offset ≤ file_length fs inode
    → length + offset < 2 ^ 32
    → IsBelowBuffer fs inode (file_length fs inode) buf
    → offset % 4096 ≡ 0
    → j < min length (file_length fs inode - offset)
    → (read_data inode offset buf length fs).1.mem (buf + j) ≡ byte_of fs inode (offset + j)
read_data_aligned inode offset buf length j fs hb hi ho hl w al hj =
    (read_data_lem inode offset buf length (buf + j) fs hb hi ho hl w).1 ∙ ground (arith, place)
  where
    place :
        byte_of fs inode (offset / 4096 * 4096 + (buf + j - buf)) ≡ byte_of fs inode (offset + j)
    place = ap (byte_of fs inode) (omega arith)

-- Where `read_data` succeeds on a file below the buffer, byte `j` of those that it gives is the
-- file's byte `offset + j - offset % 4096`: the position in the block is dropped, so the first
-- byte read is that of the block's start.
pub read_data_unaligned :
    (inode offset buf length j : ℕ) (fs : FileSystem)
    → fs.bootblock_head ≢ 0
    → inode ≤ inodes_num fs
    → offset ≤ file_length fs inode
    → length + offset < 2 ^ 32
    → IsBelowBuffer fs inode (file_length fs inode) buf
    → j < min length (file_length fs inode - offset)
    → (read_data inode offset buf length fs).1.mem (buf + j)
      ≡ byte_of fs inode (offset + j - offset % 4096)
read_data_unaligned inode offset buf length j fs hb hi ho hl w hj =
    (read_data_lem inode offset buf length (buf + j) fs hb hi ho hl w).1 ∙ ground (arith, place)
  where
    place :
        byte_of fs inode (offset / 4096 * 4096 + (buf + j - buf))
        ≡ byte_of fs inode (offset + j - offset % 4096)
    place = ap (byte_of fs inode) (omega arith)

-- An inode behind the last, or an offset behind the end of the file, is refused with -1, and nothing
-- is written.
pub read_data_refuses :
    (inode offset buf length : ℕ) (fs : FileSystem)
    → (inodes_num fs < inode) ⊎ (file_length fs inode < offset)
    → read_data inode offset buf length fs ≡ (failure, fs)
unfolding read_data
read_data_refuses inode offset buf length fs h = ground arith
