-- ===== src/Process/ReturnTests.antt =====
-- Starting the program "a".
use mp.Prelude.{ℕ, ◌+◌, ◌*◌, ◌≤◌, arith, inl, refl, ℕ_discrete, ◌==◌, if◌then◌else◌, Memory}
use mp.FileSystem.{FileSystem}
use mp.FileSystem.Words.{load32}
use mp.FileSystem.Header.{IsEntry}
use mp.FileSystem.Directory.{IsDirectory}
use mp.Strings.Lengths.{IsText}
use mp.Process.DiskTests.{drive}
use mp.Process.CallTests.{program_disk}

abbrev pub files : FileSystem
files = record drive { mem = program_disk }

program-entry :
    (index : ℕ) → index ≤ 1 → (n : ℕ) × (r : ℕ) × IsEntry program_disk (0x500040 + 64 * index) n r
program-entry index le = elim (ℕ_discrete index 0) [
  | yes e ↦ (
    1,
    0,
    rw e (record {
      name = record { ends = refl; inside = λ j h. ground arith };
      name_fits = omega arith;
      reserved = record { ends = refl; inside = λ j h. elim h [ ] };
      reserved_fits = omega arith;
    }),
  )
  | no ne ↦ (
    0,
    0,
    record {
      name = record { ends = ground arith; inside = λ j h. elim h [ ] };
      name_fits = omega arith;
      reserved = record { ends = ground arith; inside = λ j h. elim h [ ] };
      reserved_fits = omega arith;
    },
  )
]

pub files-IsDirectory : IsDirectory 280 files
unfolding load32
files-IsDirectory = record {
  bytes = λ a. ground arith;
  entry = λ index le. program-entry index le;
  apart = inl (omega arith);
}

pub command-IsText : IsText program_disk 100 1
command-IsText = record { ends = refl; inside = λ j h. ground arith }

-- What the program's addresses show has the inodes 0 and 1.
abbrev shown : Memory
shown a = if a == 0x500004 then 1 else program_disk a
