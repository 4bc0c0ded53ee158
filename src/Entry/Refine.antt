-- ===== src/Entry/Refine.antt =====
-- A system call through `systemcall` is a step of the kernel, or none.
use mp.Prelude.{ℕ, ◌≡◌, inl, inr, ◌∙◌, sym, refl, ap, arith, List, ◌==◌}
use mp.Prelude.Int.{ℤ}
use mathlib.Core.Path.{subst}
use mp.Prelude.Runs.{Run, ◌>>=◌, >>=-eq-ok, ok-injective, from_option-eq-ok}
use mp.Rtc.{Event}
use mp.Process.{Kernel}
use mp.Process.Globals.{IsRunning}
use mp.Process.Keeping.{if-inverse}
use mp.Process.Calls.{getargs, vidmap, set_handler, sigreturn}
use mp.Process.Halting.{close_file-ne-ok}
use mp.Process.Tree.{Chained, Steps-Chained}
use mp.Process.Running.{
  Steps-IsRunning, Step, executes, halts, opens, writes, reads, Steps, here, and_then,
}
use mp.Entry.{Cpu}
use mp.Entry.Calls.{
  Locals, Called, returned, switched, launched, Left, resumed, gone, sys_jump_table, save_registers,
  out_of_table, leave, systemcall,
}

-- The kernel that a call leaves.
abbrev pub kernel_called : Called → Kernel
kernel_called (returned z k es) = k
kernel_called (switched k es) = k

abbrev pub kernel_left : Left → Kernel
kernel_left (resumed c k es) = k
kernel_left (gone k es) = k

one : {k k' : Kernel} → Step k k' → Steps k k'
one s = and_then s here

-- A call whose result is made from that of `m`.
through {ℓ} :
    {A : Type ℓ} (k : Kernel) (m : Run A) (f : A → Called) (r : Called)
    → ((q : A) → m ≡ Run.ok q → Steps k (kernel_called (f q)))
    → (m >>= λ q. Run.ok (f q)) ≡ Run.ok r
    → Steps k (kernel_called r)
through k m f r step e =
    let (q, e₁, e₂) = >>=-eq-ok m _ r e in
    subst (λ x. Steps k (kernel_called x)) (ok-injective (f q) r e₂) (step q e₁)

pure :
    (k : Kernel) (q r : Called)
    → kernel_called q ≡ k
    → Run.ok q ≡ Run.ok r
    → Steps k (kernel_called r)
pure k q r same e = subst (Steps k) (sym same ∙ ap kernel_called (ok-injective q r e)) here

launched-Steps :
    (k : Kernel) (es : List Event) (q : ℤ × Kernel)
    → Steps k q.1
    → Steps k (kernel_called (launched es q))
launched-Steps k es q s = subst (Steps k) (kernel_of_launched es q) s
  where
    kernel_of_launched : (es : List Event) (q : ℤ × Kernel) → q.1 ≡ kernel_called (launched es q)
    kernel_of_launched es q = ground arith

-- A function of the table that comes back has made one step, or none; `close` does not come back.
sys_jump_table-Steps :
    (l : Locals) (number a b c : ℕ) (k : Kernel) (es : List Event) (r : Called)
    → IsRunning k
    → sys_jump_table l number a b c k es ≡ Run.ok r
    → Steps k (kernel_called r)
unfolding sys_jump_table getargs vidmap set_handler sigreturn
sys_jump_table-Steps l number a b c k es r run e = elim (if-inverse (number == 1) _ _ _ e) [
  | inl e ↦ through k _ _ r (λ q h. one (halts _ _ _ _ _ _ _ q h)) e
  | inr e ↦ elim (if-inverse (number == 2) _ _ _ e) [
    | inl e ↦
        through k _ _ r
          (λ q h. launched-Steps k es q (one (executes _ _ _ _ q (from_option-eq-ok _ q h)))) e
    | inr e ↦ elim (if-inverse (number == 3) _ _ _ e) [
      | inl e ↦ through k _ _ r (λ q h. one (reads _ _ _ _ _ _ _ q h)) e
      | inr e ↦ elim (if-inverse (number == 4) _ _ _ e) [
        | inl e ↦ through k _ _ r (λ q h. one (writes _ _ _ q (from_option-eq-ok _ q h))) e
        | inr e ↦ elim (if-inverse (number == 5) _ _ _ e) [
          | inl e ↦ through k _ _ r (λ q h. one (opens _ _ _ q (from_option-eq-ok _ q h))) e
          | inr e ↦ elim (if-inverse (number == 6) _ _ _ e) [
            | inl e ↦
                through k _ _ r (λ q h. absurd (close_file-ne-ok _ _ _ _ _ k q run.filed_array h)) e
            | inr e ↦ elim (if-inverse (number == 7) _ _ _ e) [
              | inl e ↦ pure k _ r refl e
              | inr e ↦ elim (if-inverse (number == 8) _ _ _ e) [
                | inl e ↦ pure k _ r refl e
                | inr e ↦ elim (if-inverse (number == 9) _ _ _ e) [
                  | inl e ↦ pure k _ r refl e
                  | inr e ↦ pure k _ r refl e
                ]
              ]
            ]
          ]
        ]
      ]
    ]
  ]
]

kernel_leave :
    (code : Cpu → Cpu) (s : Cpu) (r : Called) → kernel_left (leave code s r) ≡ kernel_called r
unfolding leave
kernel_leave code s (returned z k es) = refl
kernel_leave code s (switched k es) = refl

-- A system call of a running process that comes back or goes to another program, whatever is in the
-- registers, has taken the kernel by the steps of the system calls to the one that it leaves.
systemcall-Steps :
    (l : Locals) (code : Cpu → Cpu) (c : Cpu) (k : Kernel) (es : List Event) (r : Left)
    → IsRunning k
    → systemcall l code c k es ≡ Run.ok r
    → Steps k (kernel_left r)
unfolding systemcall
systemcall-Steps l code c k es r run e = elim (if-inverse (out_of_table c.eax) _ _ _ e) [
  | inl invalid ↦ subst (λ x. Steps k (kernel_left x)) (ok-injective _ r invalid) here
  | inr valid ↦
      let (q, e₁, e₂) = >>=-eq-ok _ _ r valid in
      subst (Steps k)
        (sym (kernel_leave code (save_registers c) q) ∙ ap kernel_left (ok-injective _ r e₂))
        (sys_jump_table-Steps l _ _ _ _ k es q run e₁)
]

-- A system call through the stub, whatever is in the registers, of a running process whose taken slots
-- are those of a chain of processes: if it comes back, or goes to another program, then the pointers,
-- the slot, the number, the page and the kernel stack of the process that is then the current one agree
-- again, and the taken slots are again those of it and its ancestors.
systemcall-keeps :
    (l : Locals) (code : Cpu → Cpu) (c : Cpu) (k : Kernel) (es : List Event) (r : Left)
    → IsRunning k
    → Chained k
    → systemcall l code c k es ≡ Run.ok r
    → IsRunning (kernel_left r) × Chained (kernel_left r)
systemcall-keeps l code c k es r run chain e =
    let steps = systemcall-Steps l code c k es r run e in
    (Steps-IsRunning k (kernel_left r) steps run, Steps-Chained k (kernel_left r) steps run chain)
