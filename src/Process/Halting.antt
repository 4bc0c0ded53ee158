-- ===== src/Process/Halting.antt =====
-- The only `halt` that comes back is that of a process without a parent.
use mp.Prelude.{ℕ, ◌+◌, ◌≡◌, ◌≢◌, ◌∙◌, sym, inl, inr, ap, arith, Memory}
use mp.Prelude.{◌==◌, Bool, Bool-cases, true, false, if◌then◌else◌, some}
use mp.Prelude.Int.{ℤ, success, failure}
use mp.Prelude.Runs.{Run, from_option, >>=-eq-ok, ok-injective, from_option-eq-ok}
use mathlib.Core.Path.{subst}
use mp.FileSystem.{is_zero}
use mp.Process.{kernel_ds, Kernel, Frame, no_pid, end_of_kernel, fdarray_max}
use mp.Process.Globals.{IsRunning, IsLaunched}
use mp.Process.Outcome.{execute-Ends}
use mp.Process.Keeping.{stray_access-ne-ok}
use mp.Process.Execute.{execute}
use mp.Process.Calls.{fds_of}
use mp.Process.Reading.{stray_access}
use mp.Paging.{map_user}
use mp.Process.Closing.{
  close_fds, close_file, close_all, halt_to, halt_root, halt_process, halt_of, freed, print_line,
}

-- With descriptors to close, `close` does not come back.
pub close_file-ne-ok :
    (fuel current filename i p : ℕ) (k : Kernel) (r : ℤ × Kernel)
    → k.filed_array ≡ some p
    → close_file fuel current filename i k ≢ Run.ok r
unfolding close_file
close_file-ne-ok fuel current filename i p k r z e =
    let (q, _, e₁) =
      >>=-eq-ok
        (from_option (close_fds fuel fdarray_max 0 current filename (fds_of p k) k.devices.files)) _
        r (rw (z, close_file) at e) in
    stray_access-ne-ok ((k.pcbs p).pid + 4) _ r e₁

halt_to-ne-ok :
    (fuel current filename status parent p : ℕ) (k : Kernel) (r : ℤ × Kernel)
    → k.filed_array ≡ some p
    → halt_to fuel current filename status parent k ≢ Run.ok r
unfolding halt_to close_all
halt_to-ne-ok fuel current filename status parent p k r z e =
    let k₁ : Kernel = record k {
      ss0 = kernel_ds;
      esp0 = (k.pcbs parent).tss_esp0;
      tables = map_user parent k.tables;
    } in
    let (k₂, e₁, _) = >>=-eq-ok (close_all fuel current filename 6 2 k₁) _ r e in
    let (q, e₂, _) = >>=-eq-ok (close_file fuel current filename 2 k₁) _ k₂ e₁ in
    close_file-ne-ok fuel current filename 2 p k₁ q z e₂

-- The answer -1 leads to the other branch.
failed {ℓ} :
    {A : Type ℓ} (z : ℤ) (x g y : A) → z ≡ failure → (if is_zero z then x else g) ≡ y → g ≡ y
failed z x g y eq e = sym (ap (λ (w : ℤ). if is_zero w then x else g) eq) ∙ e

-- The kernel for which `halt` starts another shell.
abbrev pub orphaned : Kernel → Kernel
orphaned k = record (print_line "can't halt from this process\n" k) { cur_pid = no_pid }

halt_root-IsLaunched :
    (fuel : ℕ) (f : Frame) (seen : Memory) (shell : ℕ) (k : Kernel) (r : ℤ × Kernel)
    → halt_root fuel f seen shell k ≡ Run.ok r
    → (pid : ℕ) × IsLaunched (orphaned k) r.1 pid
unfolding halt_root
halt_root-IsLaunched fuel f seen shell k r e =
    let (q, e₁, e₂) = >>=-eq-ok (from_option (execute fuel f seen shell (orphaned k))) _ r e in
    elim (execute-Ends fuel f seen shell (orphaned k) q (from_option-eq-ok _ q e₁)) [
      | inl (z, (_, (pid, l))) ↦ (
        pid,
        subst (λ (x : ℤ × Kernel). IsLaunched (orphaned k) x.1 pid)
            (ok-injective _ _ (came_back q z e₂)) l,
      )
      | inr (z, _) ↦
          absurd (stray_access-ne-ok (end_of_kernel + 140) q.1 r (failed q.0 (Run.ok q) _ _ z e₂))
    ]
  where
    came_back :
        (q : ℤ × Kernel)
        → q.0 ≡ success
        → (if is_zero q.0 then Run.ok q else stray_access (end_of_kernel + 140) q.1) ≡ Run.ok r
        → Run.ok q ≡ Run.ok r
    came_back q z e =
        sym
          (ap (λ (w : ℤ). if is_zero w then Run.ok q else stray_access (end_of_kernel + 140) q.1) z)
        ∙ e

-- A `halt` that comes back, which only that of a process without a parent can do, has started another
-- shell.
pub halt_process-IsLaunched :
    (fuel : ℕ) (f : Frame) (seen : Memory) (shell current filename status : ℕ) (k : Kernel)
    (r : ℤ × Kernel)
    → IsRunning k
    → halt_process fuel f seen shell current filename status k ≡ Run.ok r
    → ((k.pcbs k.cur_pid).parent_pid ≡ no_pid)
      × ((pid : ℕ) × IsLaunched (orphaned (freed k)) r.1 pid)
unfolding halt_process halt_of
halt_process-IsLaunched fuel f seen shell current filename status k r run e =
    let parent = (k.pcbs k.cur_pid).parent_pid in
    elim (Bool-cases (parent == no_pid)) [
      | inl root ↦ (
        ground (arith, root),
        halt_root-IsLaunched fuel f seen shell (freed k) r (sym (branch_of true root) ∙ came),
      )
      | inr child ↦ absurd (
          halt_to-ne-ok fuel current filename status parent k.cur_pid (freed k) r run.filed_array
            (sym (branch_of false child) ∙ came))
    ]
  where
    branch : Bool → Run (ℤ × Kernel)
    branch b =
        if b
        then halt_root fuel f seen shell (freed k)
        else halt_to fuel current filename status (k.pcbs k.cur_pid).parent_pid (freed k)

    branch_of :
        (b : Bool)
        → ((k.pcbs k.cur_pid).parent_pid == no_pid) ≡ b
        → branch ((k.pcbs k.cur_pid).parent_pid == no_pid) ≡ branch b
    branch_of b q = ap branch q

    came : branch ((k.pcbs k.cur_pid).parent_pid == no_pid) ≡ Run.ok r
    came =
        sym (ap (halt_of fuel f seen shell current filename status (freed k)) run.cur_process) ∙ e
