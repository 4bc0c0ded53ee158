-- ===== src/Process/LineReads.antt =====
-- `read` on the terminal's descriptor.
use mp.Prelude.{ℕ, ◌+◌, ◌-◌, ◌*◌, ◌≤◌, ◌<◌, ◌≡◌, ◌≢◌, ◌⊎◌, ◌∙◌, sym, ap, arith, some, List, refl}
use mp.Prelude.{Memory, true, [], ◌∷◌}
use mp.Prelude.Int.{pos}
use mp.Prelude.Runs.{Run}
use mp.Rtc.{Event}
use mp.Keyboard.{keyboard_read}
use mp.Terminal.{Terminal, terminal_read}
use mp.Terminal.Reading.{terminal_read_lem}
use mp.Screen.{Screen, putc}
use mp.Strings.{printf, word}
use mp.Strings.Lengths.{IsText, IsBytes, strlen-IsText}
use mp.FileSystem.{FileSystem, dentry, dentry_num, inode_index, as_unsigned}
use mp.FileSystem.Words.{load32-same}
use mp.FileSystem.Header.{read_dentry_by_index-copies}
use mp.FileSystem.Directory.{IsDirectory, IsSame, IsDirectory-same}
use mp.FileOps.{terminal_fot, read_of}
use mp.Process.{Kernel, user_mem, user_end, FdEntry, mem_of, set_files, set_mem}
use mp.Process.Calls.{fds_of}
use mp.Process.Reading.{read_file, read_open, read_named, find_inode, print_chars, print_name}
use mp.Process.ClockReads.{read_file-goes}

-- The bytes of a line put at `buf`.
module _ (buf n : ℕ) (t : Terminal) (small : n ≤ 127) (b0 : 0 < buf) where
  line_put : (m : Memory) → (terminal_read buf (pos n) t m).0 ≡ pos n
  line_put m = (terminal_read_lem buf (pos n) t m 0).0 ∙ ground arith

  put_inside :
      (m : Memory) (j : ℕ)
      → j < n
      → (terminal_read buf (pos n) t m).1 (buf + j) ≡ keyboard_read j t.keyboard
  put_inside m j h =
      (terminal_read_lem buf (pos n) t m (buf + j)).1
      ∙ ground (arith, ap (λ (i : ℕ). keyboard_read i t.keyboard) {x = buf + j - buf} {y = j})

  put_outside :
      (m : Memory) (a : ℕ) → (a < buf) ⊎ (buf + n ≤ a) → (terminal_read buf (pos n) t m).1 a ≡ m a
  put_outside m a h = (terminal_read_lem buf (pos n) t m a).1 ∙ ground arith

  put-IsBytes :
      (m : Memory)
      → IsBytes m
      → ((j : ℕ) → keyboard_read j t.keyboard < 256)
      → IsBytes (terminal_read buf (pos n) t m).1
  put-IsBytes m b kb a = ground (arith, (terminal_read_lem buf (pos n) t m a).1, b a, kb (a - buf))

-- The search for the inode ends at the first entry.
first_inode :
    (fuel tem : ℕ) (fs : FileSystem)
    → 32 ≤ fuel
    → IsDirectory tem fs
    → (fs' : FileSystem) × (n : ℕ) × (find_inode fuel 63 0 tem (inode_index fs.mem (dentry fs 0)) fs
        ≡ some (true, fs'))
      × IsText fs'.mem tem n
      × (n < 32)
      × ((a : ℕ) → (a < tem) ⊎ (tem + 64 ≤ a) → fs'.mem a ≡ fs.mem a)
unfolding find_inode
first_inode fuel tem fs h d =
    let (n, r, e) = d.entry 0 (omega arith) in
    let far = d.apart in
    let (fs', eq, c, head, _) =
      read_dentry_by_index-copies fuel 0 tem n r fs d.bytes e h (omega arith) (omega arith) in
    (
      fs',
      n,
      rw eq (ground (arith, c.same_inode)),
      record {
        ends = c.same_name n (omega arith) ∙ e.name.ends;
        inside = λ j hj z. e.name.inside j hj (sym (c.same_name j (omega arith)) ∙ z);
      },
      e.name_fits,
      c.rest,
    )

name_printed :
    (fuel name n : ℕ) (fs : FileSystem)
    → IsText fs.mem name n
    → n < fuel
    → (s : Screen) × (print_name fuel name fs ≡ some (record fs { screen = s }))
unfolding print_name
name_printed fuel name n fs t h = (
  print_chars n 0 name fs.mem
      (printf "strlen is %d\n" (word n ∷ []) (putc (fs.mem name) fs.screen)),
  rw (strlen-IsText fuel n fs.mem name t h) refl,
)

-- The two reads that `read` makes.
first_read :
    (fuel tem filename fd buf n : ℕ) (k : Kernel) (es : List Event) (e : FdEntry)
    → e.fileot_pointer ≡ terminal_fot
    → n ≢ 0
    → (terminal_read buf (pos n) k.devices.terminal (mem_of k)).0 ≡ pos n
    → read_open fuel tem filename e fd buf (pos n) k es
      ≡ read_named fuel tem e buf
          (pos n)
          (set_mem (terminal_read buf (pos n) k.devices.terminal (mem_of k)).1 k)
          es
unfolding read_open read_of
first_read fuel tem filename fd buf n k es e o n0 r = ground (arith, o, r)

second_read :
    (fuel tem buf n : ℕ) (k : Kernel) (es : List Event) (e : FdEntry) (fs fs' : FileSystem)
    → e.fileot_pointer ≡ terminal_fot
    → find_inode fuel 63 0 tem (as_unsigned e.inode) k.devices.files ≡ some (true, fs)
    → print_name fuel tem fs ≡ some fs'
    → (terminal_read buf (pos n) k.devices.terminal fs'.mem).0 ≡ pos n
    → read_named fuel tem e buf (pos n) k es
      ≡ Run.ok (
        pos n,
        set_files (record fs' { mem = (terminal_read buf (pos n) k.devices.terminal fs'.mem).1 }) k,
        es,
      )
unfolding read_named read_of
second_read fuel tem buf n k es e fs fs' o f p r = ground (arith, o, f, p, r)

-- The first entry's inode in a memory that agrees on the directory.
inode-same :
    (fs fs' : FileSystem)
    → IsSame fs fs'
    → inode_index fs'.mem (dentry fs' 0) ≡ inode_index fs.mem (dentry fs 0)
inode-same fs fs' k =
    ap (λ (b : ℕ). inode_index fs'.mem (b + 64 + 64 * 0)) k.head
    ∙ load32-same fs'.mem fs.mem (dentry fs 0 + 36)
        (λ a lo hi. k.inside a (omega arith) (omega arith))

-- `read` of 1 to 127 bytes on the terminal's descriptor, one of 0 and 2 to 6 that is in use, into the
-- program's page, on a disk below that page whose entries can all be read, with the first one's inode
-- the descriptor's: it returns the number, and the bytes of the buffer are the first of the line.
pub read_file-terminal :
    (fuel tem filename fd buf n p : ℕ) (k : Kernel) (es : List Event)
    → k.filed_array ≡ some p
    → user_mem ≤ buf
    → buf + n ≤ user_end
    → fd < 7
    → fd ≢ 1
    → (fds_of p k fd).flags ≢ 0
    → (fds_of p k fd).fileot_pointer ≡ terminal_fot
    → 0 < n
    → n ≤ 127
    → 32 ≤ fuel
    → ((j : ℕ) → keyboard_read j k.devices.terminal.keyboard < 256)
    → IsDirectory tem k.devices.files
    → k.devices.files.bootblock_head + 128 + 64 * dentry_num k.devices.files ≤ user_mem
    → as_unsigned (fds_of p k fd).inode ≡ inode_index (mem_of k) (dentry k.devices.files 0)
    → (k' : Kernel) × (read_file fuel tem filename fd buf (pos n) k es ≡ Run.ok (pos n, k', es))
      × ((j : ℕ) → j < n → mem_of k' (buf + j) ≡ keyboard_read j k.devices.terminal.keyboard)
read_file-terminal fuel tem filename fd buf n p k es e lo hi f7 f1 fl o n0 n127 h kb d below ino =
    let t = k.devices.terminal in
    let fs₀ = k.devices.files in
    let e₀ = fds_of p k fd in
    let fs₁ : FileSystem = record fs₀ { mem = (terminal_read buf (pos n) t fs₀.mem).1 } in
    let same : IsSame fs₀ fs₁ = record {
      bytes = put-IsBytes buf n t n127 (omega arith) fs₀.mem d.bytes kb;
      head = refl;
      inside = λ a l u. put_outside buf n t n127 (omega arith) fs₀.mem a (omega arith);
    } in
    let (fs₂, len, found, text, short, _) =
      first_inode fuel tem fs₁ h (IsDirectory-same tem fs₀ fs₁ d same) in
    let (s, printed) = name_printed fuel tem len fs₂ text (omega arith) in
    (
      _,
      read_file-goes fuel tem filename fd buf n p k es e lo hi f7 f1 fl
          ∙ (first_read fuel tem filename fd buf n k es e₀ o (omega arith)
                (line_put buf n t n127 (omega arith) fs₀.mem)
              ∙ second_read fuel tem buf n (set_mem fs₁.mem k) es e₀ fs₂ (record fs₂ { screen = s })
                  o
                  (ap (λ (i : ℕ). find_inode fuel 63 0 tem i fs₁)
                      (ino ∙ sym (inode-same fs₀ fs₁ same))
                    ∙ found)
                  printed (line_put buf n t n127 (omega arith) fs₂.mem)),
      λ j hj. put_inside buf n t n127 (omega arith) fs₂.mem j hj,
    )
