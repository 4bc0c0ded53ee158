-- ===== src/Process/Faults.antt =====
-- How `close`, and with it `halt`, end.
use mp.Prelude.{ℕ, zero, suc, ◌+◌, ◌≤◌, ◌<◌, ◌≡◌, refl, ◌∙◌, arith}
use mp.Prelude.{◌==◌, if◌then◌else◌, some, none, Memory, Option}
use mp.Prelude.Runs.{exception, page_fault}
use mp.FileSystem.{FileSystem, inode_index, as_unsigned}
use mp.FileSystem.Directory.{IsDirectory, read_dentry_by_index-IsDirectory}
use mp.Paging.{map_user}
use mp.Paging.Access.{translate, map_user-translate}
use mp.Process.{kernel_ds, Kernel, Frame, FdEntry, no_pid}
use mp.Process.Calls.{fds_of}
use mp.Process.Reading.{stray_access}
use mp.Process.Closing.{
  close_entries, close_fds, close_file, close_all, halt_to, halt_process, halt_of, freed,
}

-- The loops end, and leave a directory.
abbrev Ends : ℕ → Option (ℕ × FileSystem) → Type 0
Ends current o = (name : ℕ) × (fs : FileSystem) × (o ≡ some (name, fs)) × IsDirectory current fs

close_entries-Ends :
    (fuel left index current filename inode : ℕ) (fs : FileSystem)
    → 32 ≤ fuel
    → IsDirectory current fs
    → Ends current (close_entries fuel left index current filename inode fs)
unfolding close_entries
close_entries-Ends fuel zero index current filename inode fs h d = (filename, fs, refl, d)
close_entries-Ends fuel (suc left) index current filename inode fs h d =
    let (z, fs₁, e, d₁, _, _) = read_dentry_by_index-IsDirectory fuel index current fs h d in
    let name = if inode_index fs₁.mem current == inode then current else filename in
    let (n, fs₂, e₂, d₂) = close_entries-Ends fuel left (index + 1) current name inode fs₁ h d₁ in
    (n, fs₂, rw e e₂, d₂)

close_fds-Ends :
    (fuel left fd current filename : ℕ) (fds : ℕ → FdEntry) (fs : FileSystem)
    → 32 ≤ fuel
    → IsDirectory current fs
    → Ends current (close_fds fuel left fd current filename fds fs)
unfolding close_fds
close_fds-Ends fuel zero fd current filename fds fs h d = (filename, fs, refl, d)
close_fds-Ends fuel (suc left) fd current filename fds fs h d =
    let (n₁, fs₁, e, d₁) =
      close_entries-Ends fuel 63 0 current filename (as_unsigned (fds fd).inode) fs h d in
    let (n, fs₂, e₂, d₂) = close_fds-Ends fuel left (fd + 1) current n₁ fds fs₁ h d₁ in
    (n, fs₂, rw e e₂, d₂)

-- On a directory whose entries can all be read, with fuel for a name: if the address that the
-- process's number makes, and that of the field behind it, is not mapped, `close` ends in a page
-- fault, for every descriptor.
pub close_file-faults :
    (fuel current filename i p : ℕ) (k : Kernel)
    → 32 ≤ fuel
    → k.filed_array ≡ some p
    → IsDirectory current k.devices.files
    → translate k.tables ((k.pcbs p).pid + 4) ≡ none
    → close_file fuel current filename i k ≡ exception page_fault
unfolding close_file stray_access
close_file-faults fuel current filename i p k h e d t =
    let (n, fs, ends, _) =
      close_fds-Ends fuel 8 0 current filename (fds_of p k) k.devices.files h d in
    ground (arith, e, ends, t)

halt_to-faults :
    (fuel current filename status parent q : ℕ) (k : Kernel)
    → 32 ≤ fuel
    → parent < 6
    → k.filed_array ≡ some q
    → (k.pcbs q).pid < 6
    → IsDirectory current k.devices.files
    → translate k.tables ((k.pcbs q).pid + 4) ≡ none
    → halt_to fuel current filename status parent k ≡ exception page_fault
unfolding halt_to close_all
halt_to-faults fuel current filename status parent q k h par eq pid d t =
    let faults =
      close_file-faults fuel current filename 2 q
        (record k {
          ss0 = kernel_ds;
          esp0 = (k.pcbs parent).tss_esp0;
          tables = map_user parent k.tables;
        })
        h eq d (map_user-translate k.tables parent ((k.pcbs q).pid + 4) par ∙ ground (arith, t)) in
    rw faults refl

halt_process-child :
    (fuel : ℕ) (f : Frame) (seen : Memory) (shell current filename status p : ℕ) (k : Kernel)
    → k.cur_process ≡ some p
    → (k.pcbs p).parent_pid < no_pid
    → halt_process fuel f seen shell current filename status k
      ≡ halt_to fuel current filename status (k.pcbs p).parent_pid (freed k)
unfolding halt_process halt_of
halt_process-child fuel f seen shell current filename status p k e h = ground (arith, e)

-- A child's `halt` closes its descriptors first: under the same conditions, with a process number
-- below the program's page, it ends in a page fault, and so never gives the parent its result.
pub halt_process-faults :
    (fuel : ℕ) (f : Frame) (seen : Memory) (shell current filename status p q : ℕ) (k : Kernel)
    → 32 ≤ fuel
    → k.cur_process ≡ some p
    → (k.pcbs p).parent_pid < 6
    → k.filed_array ≡ some q
    → (k.pcbs q).pid < 6
    → IsDirectory current k.devices.files
    → translate k.tables ((k.pcbs q).pid + 4) ≡ none
    → halt_process fuel f seen shell current filename status k ≡ exception page_fault
halt_process-faults fuel f seen shell current filename status p q k h e par eq pid d t =
    halt_process-child fuel f seen shell current filename status p k e (omega arith)
    ∙ halt_to-faults fuel current filename status (k.pcbs p).parent_pid q _ h par eq pid
        (record { bytes = d.bytes; entry = d.entry; apart = d.apart }) t
