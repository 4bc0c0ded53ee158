-- ===== src/Process/Outcome.antt =====
-- How `execute` ends.
use mp.Prelude.{
  ℕ, ◌≡◌, refl, ◌⊎◌, inl, inr, ◌∙◌, sym, true, false, ◌==◌, Memory, Bool, Option, none, some,
  Option-cases, Bool-cases,
}
use mp.Prelude.Int.{ℤ, success, failure}
use mathlib.Core.Option.{some-injective, none-ne-some}
use mp.FileSystem.{file_name_length, ◌>>=◌}
use mp.Prelude.{[]}
use mathlib.Core.Path.{subst}
use mp.Process.Globals.{SameRun, IsLaunched, IsLaunched-same}
use mp.Process.Launch.{launch-IsLaunched}
use mp.Process.Slots.{allocate_pid-Found}
use mp.Strings.{strlen, printf}
use mp.Process.{Kernel, Frame, mem_of, set_files}
use mp.Process.Execute.{
  Checked, program, refused, allocate_pid, start, launch, initialize_pcb, check_file, parse,
  loads_inside, command_length, run_checked, run_parsed, run_command, execute,
}

-- Either the program runs in a slot that was free, with interrupts on, or the answer is -1,
-- interrupts are off, and the processes are as before.
abbrev pub Refused : Kernel → Kernel → Type 0
Refused k k' = (k'.interrupts ≡ false) × SameRun k k'

abbrev pub Launched : Kernel → Kernel → Type 0
Launched k k' = (k'.interrupts ≡ true) × ((pid : ℕ) × IsLaunched k k' pid)

abbrev pub Ends : Kernel → ℤ × Kernel → Type 0
Ends k r = ((r.0 ≡ success) × Launched k r.1) ⊎ ((r.0 ≡ failure) × Refused k r.1)

start-Ends :
    (f : Frame) (seen : Memory) (inode : ℕ) (fits : Bool) (k k₁ : Kernel) (r : ℤ × Kernel)
    → Refused k k₁
    → start f seen inode fits k₁ ≡ some r
    → Ends k r
unfolding start launch initialize_pcb
start-Ends f seen inode fits k k₁ r kept e = elim (Option-cases (allocate_pid k₁.pid_check)) [
  | inl a ↦ subst (Ends k) (some-injective _ _ (rw (start, a) at e)) (inr (refl, kept))
  | inr (q, a) ↦
      let (small, free, slots) = allocate_pid-Found k₁.pid_check q a in
      let launched = launch-IsLaunched f inode seen q.0 k₁ small free in
      elim (Bool-cases fits) [
        | inr f ↦ absurd (none-ne-some r (rw (start, a, f) at e))
        | inl t ↦ subst (Ends k) (some-injective _ _ (rw (start, a, t) at e)) (
            inl (
              refl,
              (
                refl,
                (
                  q.0,
                  IsLaunched-same k k₁ _ q.0 kept.1 (
                      subst
                        (λ (c : ℕ → ℕ).
                          IsLaunched k₁ (launch f inode seen q.0 (record k₁ { pid_check = c })) q.0)
                        (sym slots) launched),
                ),
              ),
            ))
      ]
]

run_checked-Ends :
    (f : Frame) (seen : Memory) (k k₁ : Kernel) (c : Checked) (r : ℤ × Kernel)
    → Refused k k₁
    → run_checked f seen k₁ c ≡ some r
    → Ends k r
unfolding run_checked
run_checked-Ends f seen k k₁ (program inode fs) r kept e =
    start-Ends f seen inode (loads_inside seen inode k₁) k (set_files fs k₁) r kept e
run_checked-Ends f seen k k₁ (refused fs) r kept e =
    subst (Ends k) (some-injective _ _ e) (inr (refl, kept))

-- A chain of two that gives a result gives one at its first step.
pub bind-inverse :
    {A B : Type 0} (o : Option A) (g : A → Option B) (b : B)
    → (o >>= g) ≡ some b
    → (a : A) × (o ≡ some a) × (g a ≡ some b)
bind-inverse none g b e = absurd (none-ne-some b e)
bind-inverse (some a) g b e = (a, refl, e)

run_parsed-Ends :
    (fuel : ℕ) (f : Frame) (seen : Memory) (k k₁ : Kernel) (m : Memory) (r : ℤ × Kernel)
    → Refused k k₁
    → run_parsed fuel f seen k₁ m ≡ some r
    → Ends k r
unfolding run_parsed
run_parsed-Ends fuel f seen k k₁ m r kept e =
    let (c, _, e₁) =
      bind-inverse (check_file fuel f (record k₁.devices.files { mem = m })) (run_checked f seen k₁)
        r e in
    run_checked-Ends f seen k k₁ c r kept e₁

run_command-Ends :
    (fuel : ℕ) (f : Frame) (seen : Memory) (command : ℕ) (k k₁ : Kernel) (n : ℕ) (r : ℤ × Kernel)
    → Refused k k₁
    → run_command fuel f seen command k₁ n ≡ some r
    → Ends k r
unfolding run_command
run_command-Ends fuel f seen command k k₁ n r kept e = elim (Bool-cases (command == 0)) [
  | inl t ↦ subst (Ends k) (some-injective _ _ (sym (null t) ∙ e)) (inr (refl, kept))
  | inr t ↦
      let (m, _, e₁) =
        bind-inverse (parse fuel f command n (mem_of k₁)) rest r (sym (parsed t) ∙ e) in
      let (_, _, e₂) =
        bind-inverse (strlen file_name_length m f.file_command) (λ _. run_parsed fuel f seen k₁ m) r
          e₁ in
      run_parsed-Ends fuel f seen k k₁ m r kept e₂
]
  where
    rest : Memory → Option (ℤ × Kernel)
    rest m = strlen file_name_length m f.file_command >>= λ _. run_parsed fuel f seen k₁ m

    no_command : Kernel
    no_command =
        set_files
          (record k₁.devices.files {
            screen = printf "No command now \n" [] k₁.devices.files.screen;
          })
          k₁

    null : (command == 0) ≡ true → run_command fuel f seen command k₁ n ≡ some (failure, no_command)
    null t = rw (run_command, t) refl

    parsed :
        (command == 0) ≡ false
        → run_command fuel f seen command k₁ n ≡ (parse fuel f command n (mem_of k₁) >>= rest)
    parsed t = rw (run_command, t) refl

-- Whenever `execute` returns, either it answers 0, and the program runs with interrupts on in a slot
-- that was free, now taken, as the child of the process that ran, with its number, its page and its
-- kernel stack in force and the other control blocks kept; or it answers -1 with interrupts off, as
-- its `cli` left them, and the processes are as before.
pub execute-Ends :
    (fuel : ℕ) (f : Frame) (seen : Memory) (command : ℕ) (k : Kernel) (r : ℤ × Kernel)
    → execute fuel f seen command k ≡ some r
    → Ends k r
unfolding execute
execute-Ends fuel f seen command k r e =
    let k₁ : Kernel = record k { interrupts = false } in
    let (n, _, e₁) =
      bind-inverse (command_length fuel (mem_of k₁) command)
        (λ n. run_command fuel f seen command k₁ n) r e in
    run_command-Ends fuel f seen command k k₁ n r
      (refl, (refl, refl, refl, refl, refl, refl, λ j. (refl, refl, refl))) e₁
