-- ===== src/Process/Reading.antt =====
-- `read` of process.c.
use mp.Prelude.{ℕ, zero, suc, ◌+◌, Bool, true, false, ◌||◌, leb, ◌==◌, if◌then◌else◌}
use mp.Prelude.{Option, none, some, List, [], ◌∷◌, Memory}
use mp.Prelude.Int.{ℤ, pos, failure, ltb_ℤ}
use mp.Prelude.Runs.{Run, exception, unknown, from_option, page_fault, ◌>>=◌}
use mp.Screen.{Screen, putc}
use mp.Strings.{printf, word, strlen}
use mp.Rtc.{Event}
use mp.FileOps.{Devices, read_of}
use mp.FileSystem.{FileSystem, inode_index, read_dentry_by_index, as_unsigned}
use mp.FileSystem
use mp.Paging.Access.{translate}
use mp.Process.{user_mem, user_end, set_files, FdEntry, Kernel}
use mp.Process.Calls.{fds_of, as_signed, end_of}

-- The use of a pointer that points to no object: a page fault if the address is not mapped.
unfoldable pub stray_access {ℓ} : {A : Type ℓ} → ℕ → Kernel → Run A
stray_access address k = elim (translate k.tables address) [
  | none ↦ exception page_fault
  | some a ↦ unknown
]

-- The loop over the indices from `index` on, with the rounds left: whether it has met an entry with
-- the inode. What `read_dentry_by_index` returns is not looked at.
unfoldable pub find_inode : ℕ → ℕ → ℕ → ℕ → ℕ → FileSystem → Option (Bool × FileSystem)
find_inode fuel zero index tem inode fs = some (false, fs)
find_inode fuel (suc left) index tem inode fs =
    FileSystem.◌>>=◌ (read_dentry_by_index fuel index tem fs) (λ r.
      let rest = find_inode fuel left (index + 1) tem inode r.1 in
      if inode_index r.1.mem tem == inode then some (true, r.1) else rest)

-- The loop over the characters of the name, from `i` on.
unfoldable pub print_chars : ℕ → ℕ → ℕ → Memory → Screen → Screen
print_chars zero i name m s = s
print_chars (suc left) i name m s =
    print_chars left (i + 1) name m (putc (m (name + i)) (printf "%d\n" (word i ∷ []) s))

-- The first character, the length, and the loop.
unfoldable pub print_name : ℕ → ℕ → FileSystem → Option FileSystem
print_name fuel name fs = FileSystem.◌>>=◌ (strlen fuel fs.mem name) (λ n. some (record fs {
  screen =
      print_chars n 0 name fs.mem
        (printf "strlen is %d\n" (word n ∷ []) (putc (fs.mem name) fs.screen));
}))

with_devices : Kernel → ℤ × Devices × List Event → ℤ × Kernel × List Event
with_devices k r = (r.0, record k { devices = r.1 }, r.2)

-- From the loop on. `tem` is the address of `tem_dentry`, and `e` the descriptor. If no entry has the
-- inode, `tem_name` is null when its first character is read.
unfoldable pub read_named :
    ℕ → ℕ → FdEntry → ℕ → ℤ → Kernel → List Event → Run (ℤ × Kernel × List Event)
unfolding with_devices
read_named fuel tem e buf n k es =
    from_option (find_inode fuel 63 0 tem (as_unsigned e.inode) k.devices.files) >>= λ f.
    let found = from_option (print_name fuel tem f.1) >>= λ fs.
    read_of e.fileot_pointer fuel tem e.position buf n (record k.devices { files = fs }) es >>= λ r.
    Run.ok (with_devices k r) in
    if f.0 then found else stray_access 0 (set_files f.1 k)

-- Behind the tests. `filename` is not initialised when it is first passed on: its value is an
-- argument.
unfoldable pub read_open :
    ℕ → ℕ → ℕ → FdEntry → ℕ → ℕ → ℤ → Kernel → List Event → Run (ℤ × Kernel × List Event)
unfolding with_devices
read_open fuel tem filename e fd buf n k es =
    read_of e.fileot_pointer fuel filename fd buf n k.devices es >>= λ r.
    let named = read_named fuel tem e buf n (record k { devices = r.1 }) r.2 in
    if FileSystem.is_zero r.0 then Run.ok (failure, record k { devices = r.1 }, r.2) else named

-- Behind the tests on the arguments; a null `filed_array` is outside of the model.
unfoldable pub read_through :
    ℕ → ℕ → ℕ → ℕ → ℕ → ℤ → Kernel → List Event → Option ℕ → Run (ℤ × Kernel × List Event)
read_through fuel tem filename fd buf n k es none = unknown
read_through fuel tem filename fd buf n k es (some p) =
    let opened = read_open fuel tem filename (fds_of p k fd) fd buf n k es in
    if (fds_of p k fd).flags == 0 then Run.ok (failure, k, es) else opened

-- `fd` is the parameter `offset`.
unfoldable pub read_file :
    ℕ → ℕ → ℕ → ℕ → ℕ → ℤ → Kernel → List Event → Run (ℤ × Kernel × List Event)
read_file fuel tem filename fd buf n k es =
    if ltb_ℤ (as_signed buf) (pos user_mem)
    then Run.ok (failure, k, es)
    else if ltb_ℤ (pos user_end) (end_of buf n)
    then Run.ok (failure, k, es)
    else if leb 7 fd || fd == 1
    then Run.ok (failure, k, es)
    else read_through fuel tem filename fd buf n k es k.filed_array
