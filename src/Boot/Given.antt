-- ===== src/Boot/Given.antt =====
-- What `entry` needs to find: the boot information, and the shell's name on the disk.
use mp.Prelude.{ℕ, suc, ◌+◌, ◌-◌, ◌*◌, ◌%◌, ◌^◌, ◌≤◌, ◌<◌, ◌≡◌, ◌≢◌, ◌⊎◌, inl, inr, Memory}
use mp.Prelude.{false, ◌&&◌, if◌then◌else◌, Bool-cases}
use mp.Screen.{Screen}
use mp.Strings.Lengths.{IsText}
use mp.FileSystem.{FileSystem, dentry_num, filesystem_init}
use mp.FileSystem.Directory.{IsDirectory}
use mp.FileSystem.Words.{load32}
use mp.Process.Returns.{AreShort}
use mp.Boot.Ready.{IsMap}
use mp.Boot.{Setting}
use mp.Boot.Info.{has_flag}

-- The name of the shell can be looked up, and no file is too long for a program's page.
pub record IsShell (fuel : ℕ) (s : Setting) (fs : FileSystem) : Type 0 where
  pub length : ℕ
  pub first : ℕ
  pub text : IsText fs.mem s.shell length
  pub not_null : s.shell ≢ 0
  pub fits : length < fuel
  pub inside : first < length
  pub short : length - first < 32
  pub spaces : (j : ℕ) → j < first → fs.mem (s.shell + j) ≡ b' '
  pub stop : fs.mem (s.shell + first) ≢ b' '
  pub apart :
      (s.frame.file_command + (length + 1) ≤ s.shell)
      ⊎ (s.shell + (length + 1) ≤ s.frame.file_command)
  pub directory : IsDirectory s.frame.check_dentry fs
  pub far :
      (s.frame.file_command + (length + 1) ≤ fs.bootblock_head)
      ⊎ (fs.bootblock_head + 128 + 64 * dentry_num fs ≤ s.frame.file_command)
  pub files : AreShort (record fs { mem = s.seen })

pub IsShell-screen :
    (fuel : ℕ) (s : Setting) (fs : FileSystem) (x : Screen)
    → IsShell fuel s fs
    → IsShell fuel s (record fs { screen = x })
IsShell-screen fuel s fs x h = record {
  length = h.length;
  first = h.first;
  text = h.text;
  not_null = h.not_null;
  fits = h.fits;
  inside = h.inside;
  short = h.short;
  spaces = h.spaces;
  stop = h.stop;
  apart = h.apart;
  directory = record {
    bytes = h.directory.bytes;
    entry = h.directory.entry;
    apart = h.directory.apart;
  };
  far = h.far;
  files = h.files;
}

-- The boot information at `addr`: the command line, if there is one, is a text; bits 4 and 5 are not
-- both set; and the memory map, if there is one, is one of at most `fuel` entries.
pub record IsInfo (fuel addr : ℕ) (m : Memory) : Type 0 where
  pub command_line :
      (has_flag (load32 m addr) 2 ≡ false)
      ⊎ ((n : ℕ) × IsText m (load32 m (addr + 16)) n × (n < suc fuel))
  pub exclusive : (has_flag (load32 m addr) 4 && has_flag (load32 m addr) 5) ≡ false
  pub map_inside :
      (has_flag (load32 m (addr + 0)) 6 ≡ false)
      ⊎ IsMap fuel (load32 m (addr + 48)) ((load32 m (addr + 48) + load32 m (addr + 44)) % 2 ^ 32) m

-- The file system once the first module, if there is one, has been taken for its image.
abbrev pub found : ℕ → FileSystem → FileSystem
found addr fs =
    if has_flag (load32 fs.mem addr) 3
    then (filesystem_init (load32 fs.mem (load32 fs.mem (addr + 24))) fs).1
    else fs

pub found-screen :
    (fuel addr : ℕ) (s : Setting) (fs : FileSystem) (x : Screen)
    → IsShell fuel s (found addr fs)
    → IsShell fuel s (found addr (record fs { screen = x }))
unfolding filesystem_init
found-screen fuel addr s fs x h = elim (Bool-cases (has_flag (load32 fs.mem addr) 3)) [
  | inr off ↦ rw off (IsShell-screen fuel s fs x (rw off at h))
  | inl on ↦ rw on (IsShell-screen fuel s _ x (rw on at h))
]
