-- ===== src/Process/Running.antt =====
-- The system calls as steps, and what stays true along them.
use mp.Prelude.{ℕ, ◌<◌, ◌≡◌, inl, inr, arith, List, Memory}
use mp.Prelude.{some}
use mp.Prelude.Int.{ℤ, success, failure}
use mp.Prelude.Runs.{Run}
use mp.Rtc.{Event}
use mp.FileOps.{Devices}
use mp.Process.{Kernel, Frame, no_pid}
use mp.Process.Globals.{IsRunning, SameRun-IsRunning, IsLaunched-IsRunning}
use mp.Process.Outcome.{Ends, execute-Ends}
use mp.Process.Keeping.{same_devices, open_file-SameRun, write_file-SameRun, read_file-SameRun}
use mp.Process.Execute.{execute}
use mp.Process.Calls.{open_file, write_file}
use mp.Process.Reading.{read_file}
use mp.Process.Closing.{halt_process, freed}
use mp.Process.Halting.{orphaned, halt_process-IsLaunched}

halt_process-IsRunning :
    (fuel : ℕ) (f : Frame) (seen : Memory) (shell current filename status : ℕ) (k : Kernel)
    (r : ℤ × Kernel)
    → IsRunning k
    → halt_process fuel f seen shell current filename status k ≡ Run.ok r
    → IsRunning r.1
halt_process-IsRunning fuel f seen shell current filename status k r run e =
    let (_, (pid, l)) =
      halt_process-IsLaunched fuel f seen shell current filename status k r run e in
    IsLaunched-IsRunning (orphaned (freed k)) r.1 pid l (λ h. absurd (omega arith))
      (λ j h b. run.numbered j h (λ z. b (ground (arith, z))))

-- What happens to the kernel: a system call that comes back, or an interrupt, whose handler changes
-- nothing but the devices.
pub data Step : Kernel → Kernel → Type 0 where
  executes :
      {k : Kernel} (fuel : ℕ) (f : Frame) (seen : Memory) (command : ℕ) (r : ℤ × Kernel)
      → execute fuel f seen command k ≡ some r
      → Step k r.1
  halts :
      {k : Kernel} (fuel : ℕ) (f : Frame) (seen : Memory) (shell current filename status : ℕ)
      (r : ℤ × Kernel)
      → halt_process fuel f seen shell current filename status k ≡ Run.ok r
      → Step k r.1
  opens :
      {k : Kernel} (fuel current filename : ℕ) (r : ℤ × Kernel)
      → open_file fuel current filename k ≡ some r
      → Step k r.1
  writes :
      {k : Kernel} (fd buf : ℕ) (n : ℤ) (r : ℤ × Kernel)
      → write_file fd buf n k ≡ some r
      → Step k r.1
  reads :
      {k : Kernel} (fuel tem filename fd buf : ℕ) (n : ℤ) (es : List Event)
      (r : ℤ × Kernel × List Event)
      → read_file fuel tem filename fd buf n k es ≡ Run.ok r
      → Step k r.1
  interrupted : {k : Kernel} (d : Devices) → Step k (record k { devices = d })

pub data Steps : Kernel → Kernel → Type 0 where
  here : {k : Kernel} → Steps k k
  and_then : {k k' k'' : Kernel} → Step k k' → Steps k' k'' → Steps k k''

execute-IsRunning :
    (fuel : ℕ) (f : Frame) (seen : Memory) (command : ℕ) (k : Kernel) (r : ℤ × Kernel)
    → IsRunning k
    → execute fuel f seen command k ≡ some r
    → IsRunning r.1
execute-IsRunning fuel f seen command k r run e = elim (execute-Ends fuel f seen command k r e) [
  | inl (_, (_, (pid, l))) ↦ IsLaunched-IsRunning k r.1 pid l (λ h. run.busy) run.numbered
  | inr (_, (_, same)) ↦ SameRun-IsRunning k r.1 same run
]

pub Step-IsRunning : (k k' : Kernel) → Step k k' → IsRunning k → IsRunning k'
Step-IsRunning k _ (executes fuel f seen command r e) run =
    execute-IsRunning fuel f seen command k r run e
Step-IsRunning k _ (halts fuel f seen shell current filename status r e) run =
    halt_process-IsRunning fuel f seen shell current filename status k r run e
Step-IsRunning k _ (opens fuel current filename r e) run =
    SameRun-IsRunning k r.1 (open_file-SameRun fuel current filename k r e) run
Step-IsRunning k _ (writes fd buf n r e) run =
    SameRun-IsRunning k r.1 (write_file-SameRun fd buf n k r e) run
Step-IsRunning k _ (reads fuel tem filename fd buf n es r e) run =
    SameRun-IsRunning k r.1 (read_file-SameRun fuel tem filename fd buf n k es r e) run
Step-IsRunning k _ (interrupted d) run =
    SameRun-IsRunning k (record k { devices = d }) (same_devices k d) run

-- However system calls that come back and interrupts follow each other, a kernel whose process runs
-- stays one: the pointers, the slot, the number, the page and the kernel stack of the current process
-- agree.
pub Steps-IsRunning : (k k' : Kernel) → Steps k k' → IsRunning k → IsRunning k'
Steps-IsRunning k _ here run = run
Steps-IsRunning k k' (and_then {k' = k₁} s ss) run =
    Steps-IsRunning k₁ k' ss (Step-IsRunning k k₁ s run)

pub success-ne-failure : success ≡ failure → ⊥
success-ne-failure q = cc

-- Where no slot is taken and no process runs, the first `execute` that answers 0 leads to a kernel
-- whose process runs, and so do all steps after it.
pub first_program-IsRunning :
    (fuel : ℕ) (f : Frame) (seen : Memory) (command : ℕ) (k k₁ k' : Kernel)
    → k.cur_pid ≡ no_pid
    → ((j : ℕ) → j < 6 → k.pid_check j ≡ 0)
    → execute fuel f seen command k ≡ some (success, k₁)
    → Steps k₁ k'
    → IsRunning k'
first_program-IsRunning fuel f seen command k k₁ k' none_runs free e steps =
    Steps-IsRunning k₁ k' steps (started (execute-Ends fuel f seen command k (success, k₁) e))
  where
    started : Ends k (success, k₁) → IsRunning k₁
    started (inl (_, (_, (pid, l)))) =
        IsLaunched-IsRunning k k₁ pid l (λ h. absurd (omega arith)) (λ j h b. absurd (b (free j h)))
    started (inr (z, _)) = absurd (success-ne-failure z)
