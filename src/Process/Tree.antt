-- ===== src/Process/Tree.antt =====
-- The chain of parents along the system calls.
use mp.Prelude.{ℕ, ◌<◌, ◌≡◌, ◌∙◌, sym, inl, inr, ap, arith, refl, List, [], ◌∷◌, Memory}
use mp.Prelude.{some, ℕ_discrete}
use mp.Prelude.Int.{ℤ, success}
use mathlib.Core.Path.{subst}
use mp.Process.{Kernel, Frame, no_pid}
use mp.Process.Globals.{IsRunning, SameRun}
use mp.Process.Chain.{HasChain, SameRun-HasChain, IsLaunched-HasChain, IsLaunched-first}
use mp.Process.Outcome.{Ends, execute-Ends}
use mp.Process.Keeping.{same_devices, open_file-SameRun, write_file-SameRun, read_file-SameRun}
use mp.Process.Closing.{freed}
use mp.Process.Halting.{orphaned, halt_process-IsLaunched}
use mp.Process.Execute.{execute}
use mp.Process.Running.{
  Step, executes, halts, opens, writes, reads, interrupted, Steps, here, and_then, Step-IsRunning,
  first_program-IsRunning, success-ne-failure,
}

abbrev pub Chained : Kernel → Type 0
Chained k = (p : ℕ) × (ancestors : List ℕ) × HasChain k p ancestors

-- A process without a parent has no ancestors.
no_ancestors :
    (k : Kernel) (p : ℕ) (qs : List ℕ) → HasChain k p qs → (k.pcbs p).parent_pid ≡ no_pid → qs ≡ []
no_ancestors k p [] h e = refl
no_ancestors k p (q ∷ qs) h e =
    let (small, _, _) = h.distinct.2 in absurd (omega (arith, e, h.parents.0))

-- When such a process has given up its slot, none is taken.
freed-free : (k : Kernel) (p : ℕ) → HasChain k p [] → (j : ℕ) → j < 6 → (freed k).pid_check j ≡ 0
freed-free k p h j small = elim (ℕ_discrete (k.pid_check j) 0) [
  | yes e ↦ ground (arith, e)
  | no busy ↦ elim (h.taken j small busy) [
    | inl e ↦ ground (arith, e, h.runs)
    | inr none ↦ absurd none
  ]
]

execute-Chained :
    (fuel : ℕ) (f : Frame) (seen : Memory) (command : ℕ) (k : Kernel) (r : ℤ × Kernel)
    → Chained k
    → execute fuel f seen command k ≡ some r
    → Chained r.1
execute-Chained fuel f seen command k r (p, qs, h) e =
    elim (execute-Ends fuel f seen command k r e) [
      | inl (_, (_, (pid, l))) ↦ (pid, p ∷ qs, IsLaunched-HasChain k r.1 pid p qs l h)
      | inr (_, (_, same)) ↦ (p, qs, SameRun-HasChain k r.1 p qs same h)
    ]

kept : (k k' : Kernel) → SameRun k k' → Chained k → Chained k'
kept k k' same (p, qs, h) = (p, qs, SameRun-HasChain k k' p qs same h)

Step-Chained : (k k' : Kernel) → Step k k' → IsRunning k → Chained k → Chained k'
Step-Chained k _ (executes fuel f seen command r e) run h =
    execute-Chained fuel f seen command k r h e
Step-Chained k _ (halts fuel f seen shell current filename status r e) run (p, qs, h) =
    let (root, (pid, l)) =
      halt_process-IsLaunched fuel f seen shell current filename status k r run e in
    let alone = no_ancestors k p qs h (ap (λ (q : ℕ). (k.pcbs q).parent_pid) (sym h.runs) ∙ root) in
    (
      pid,
      [],
      IsLaunched-first (orphaned (freed k)) r.1 pid l refl
          (freed-free k p (subst (HasChain k p) alone h)),
    )
Step-Chained k _ (opens fuel current filename r e) run h =
    kept k r.1 (open_file-SameRun fuel current filename k r e) h
Step-Chained k _ (writes fd buf n r e) run h = kept k r.1 (write_file-SameRun fd buf n k r e) h
Step-Chained k _ (reads fuel tem filename fd buf n es r e) run h =
    kept k r.1 (read_file-SameRun fuel tem filename fd buf n k es r e) h
Step-Chained k _ (interrupted d) run h = kept k (record k { devices = d }) (same_devices k d) h

pub Steps-Chained : (k k' : Kernel) → Steps k k' → IsRunning k → Chained k → Chained k'
Steps-Chained k _ here run h = h
Steps-Chained k k' (and_then {k' = k₁} s ss) run h =
    Steps-Chained k₁ k' ss (Step-IsRunning k k₁ s run) (Step-Chained k k₁ s run h)

-- Where no slot is taken and no process runs, the first `execute` that answers 0 leads to a kernel with
-- one process, and along all steps after it the taken slots are those of the process that runs and of
-- its ancestors: each is the child of the next one, no two are the same, and the last has no parent.
pub first_program-HasChain :
    (fuel : ℕ) (f : Frame) (seen : Memory) (command : ℕ) (k k₁ k' : Kernel)
    → k.cur_pid ≡ no_pid
    → ((j : ℕ) → j < 6 → k.pid_check j ≡ 0)
    → execute fuel f seen command k ≡ some (success, k₁)
    → Steps k₁ k'
    → (p : ℕ) × (ancestors : List ℕ) × HasChain k' p ancestors
first_program-HasChain fuel f seen command k k₁ k' none_runs free e steps =
    Steps-Chained k₁ k' steps
      (first_program-IsRunning fuel f seen command k k₁ k₁ none_runs free e here)
      (started (execute-Ends fuel f seen command k (success, k₁) e))
  where
    started : Ends k (success, k₁) → Chained k₁
    started (inl (_, (_, (pid, l)))) = (pid, [], IsLaunched-first k k₁ pid l none_runs free)
    started (inr (z, _)) = absurd (success-ne-failure z)
