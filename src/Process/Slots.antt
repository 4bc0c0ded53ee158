-- ===== src/Process/Slots.antt =====
-- Which process slot `execute` takes.
use mp.Prelude.{
  ℕ, zero, suc, ◌+◌, ◌≤◌, ◌<◌, ◌≡◌, refl, ◌≢◌, ◌∙◌, ap, arith, Memory, update, none, some,
}
use mp.Prelude.{ℕ_discrete, sym}
use mathlib.Core.Path.{subst}
use mathlib.Core.Option.{some-injective, none-ne-some}
use mp.Prelude.Int.{failure}
use mp.Strings.{printf}
use mp.Prelude.{[]}
use mp.Process.{Kernel, Frame, set_files}
use mp.Prelude.{Bool}
use mp.Process.Execute.{take_pid, allocate_pid, start}

take_pid-go :
    (left i : ℕ) (check : ℕ → ℕ)
    → check i ≢ 0
    → take_pid (suc left) i check ≡ take_pid left (i + 1) check
unfolding take_pid
take_pid-go left i check h = ground arith

take_pid-here :
    (left i : ℕ) (check : ℕ → ℕ)
    → check i ≡ 0
    → take_pid (suc left) i check ≡ some (i, update check i 1)
unfolding take_pid
take_pid-here left i check h = ground arith

take_pid-lowest :
    (left i p : ℕ) (check : ℕ → ℕ)
    → i ≤ p
    → p < i + left
    → ((j : ℕ) → i ≤ j → j < p → check j ≢ 0)
    → check p ≡ 0
    → take_pid left i check ≡ some (p, update check p 1)
take_pid-lowest zero i p check lo hi busy free = absurd (omega arith)
take_pid-lowest (suc left) i p check lo hi busy free = elim (ℕ_discrete i p) [
  | yes e ↦
      take_pid-here left i check (ap check e ∙ free) ∙ ap (λ (q : ℕ). some (q, update check q 1)) e
  | no ne ↦
      take_pid-go left i check (busy i (omega arith) (omega arith))
      ∙ take_pid-lowest left (i + 1) p check (omega arith) (omega arith)
          (λ j a b. busy j (omega arith) b) free
]

-- A slot that is given out was free, and is taken.
abbrev pub Found : ℕ → (ℕ → ℕ) → ℕ × (ℕ → ℕ) → Type 0
Found top check r = (r.0 < top) × (check r.0 ≡ 0) × (r.1 ≡ update check r.0 1)

take_pid-Found :
    (left i : ℕ) (check : ℕ → ℕ) (r : ℕ × (ℕ → ℕ))
    → take_pid left i check ≡ some r
    → Found (i + left) check r
unfolding take_pid
take_pid-Found zero i check r e = absurd (none-ne-some r e)
take_pid-Found (suc left) i check r e = elim (ℕ_discrete (check i) 0) [
  | yes z ↦
      subst (Found (i + suc left) check)
        (some-injective _ _ (sym (take_pid-here left i check z) ∙ e)) (omega arith, z, refl)
  | no ne ↦
      let (lt, free, same) =
        take_pid-Found left (i + 1) check r (sym (take_pid-go left i check ne) ∙ e) in
      (omega arith, free, same)
]

pub allocate_pid-Found :
    (check : ℕ → ℕ) (r : ℕ × (ℕ → ℕ)) → allocate_pid check ≡ some r → Found 6 check r
unfolding allocate_pid
allocate_pid-Found check r e = take_pid-Found 6 0 check r e

take_pid-full :
    (left i : ℕ) (check : ℕ → ℕ)
    → ((j : ℕ) → i ≤ j → j < i + left → check j ≢ 0)
    → take_pid left i check ≡ none
take_pid-full zero i check busy = unfold take_pid in refl
take_pid-full (suc left) i check busy =
    take_pid-go left i check (busy i (omega arith) (omega arith))
    ∙ take_pid-full left (i + 1) check (λ j a b. busy j (omega arith) (omega arith))

-- If a slot is free and all before it are taken, it is the one given out, and no other slot
-- changes.
pub allocate_pid-lowest :
    (p : ℕ) (check : ℕ → ℕ)
    → p < 6
    → ((j : ℕ) → j < p → check j ≢ 0)
    → check p ≡ 0
    → allocate_pid check ≡ some (p, update check p 1)
unfolding allocate_pid
allocate_pid-lowest p check h busy free =
    take_pid-lowest 6 0 p check (omega arith) (omega arith) (λ j a b. busy j b) free

-- Where the six slots are taken, a program that has passed the checks is refused with -1 and a line
-- on the screen, and nothing else changes.
pub start-full :
    (f : Frame) (seen : Memory) (inode : ℕ) (fits : Bool) (k : Kernel)
    → ((j : ℕ) → j < 6 → k.pid_check j ≢ 0)
    → start f seen inode fits k
      ≡ some (
        failure,
        set_files
            (record k.devices.files {
              screen = printf "No more process avaliable now !\n" [] k.devices.files.screen;
            })
            k,
      )
unfolding start allocate_pid
start-full f seen inode fits k busy =
    rw (take_pid-full 6 0 k.pid_check (λ j a b. busy j (omega arith)), start, allocate_pid) refl
