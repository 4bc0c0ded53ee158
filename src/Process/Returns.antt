-- ===== src/Process/Returns.antt =====
-- `execute` comes to an end.
use mp.Prelude.{ℕ, ◌-◌, ◌≤◌}
use mp.FileSystem.{inodes_num, file_length, FileSystem}
use mp.Process.{user_end, user_paddr}

-- No file of the image is longer than the page from 0x08048000 to its end.
abbrev pub AreShort : FileSystem → Type 0
AreShort fs = (inode : ℕ) → inode ≤ inodes_num fs → file_length fs inode ≤ user_end - user_paddr
