-- ===== src/Entry/Enters.antt =====
-- Where and how a new program starts to run.
use mp.Prelude.{ℕ, ◌+◌, ◌^◌, ◌≡◌, ◌≤◌}
use mp.FileSystem.{FileSystem}
use mp.FileSystem.Data.{byte_of}
use mp.FileSystem.Words.{load32}
use mp.Entry.{Cpu}

-- The little-endian word of a file, from a position on.
abbrev pub word_of : FileSystem → ℕ → ℕ → ℕ
word_of fs inode p = load32 (byte_of fs inode) p

-- What `iret` takes from the stack to go to the user level.
record IsFrame (d : Cpu) (place code flags stack segment : ℕ) : Type 0 where
  room : d.esp + 20 ≤ 2 ^ 32
  eip : d.words d.esp ≡ place
  cs : d.words (d.esp + 4) ≡ code
  eflags : d.words (d.esp + 8) ≡ flags
  esp : d.words (d.esp + 12) ≡ stack
  ss : d.words (d.esp + 16) ≡ segment

-- The processor at the user level.
pub record IsAt (d : Cpu) (place code flags stack segment : ℕ) : Type 0 where
  pub eip : d.eip ≡ place
  pub cs : d.cs ≡ code
  pub eflags : d.eflags ≡ flags
  pub esp : d.esp ≡ stack
  pub ss : d.ss ≡ segment
