-- ===== src/Process/Chain.antt =====
-- The running process, its parent, the parent's parent, and so on.
use mp.Prelude.{ℕ, ◌<◌, ◌≡◌, ◌≢◌, ◌⊎◌, inl, inr, refl, ◌∙◌, sym, ap, arith}
use mp.Prelude.{List, [], ◌∷◌, ◌==◌, if◌then◌else◌, ℕ_discrete}
use mp.Process.{Kernel, no_pid}
use mp.Process.Globals.{SameRun, IsLaunched}

abbrev pub Among : ℕ → List ℕ → Type 0
Among a [] = ⊥
Among a (x ∷ xs) = (a ≡ x) ⊎ Among a xs

-- Different processes, each one of the six.
abbrev pub AreDistinct : List ℕ → Type 0
AreDistinct [] = Unit {0}
AreDistinct (x ∷ xs) = (x < 6) × (Among x xs → ⊥) × AreDistinct xs

-- From `p` on each process is the child of the next one, and the last has no parent.
abbrev pub AreParents : Kernel → ℕ → List ℕ → Type 0
AreParents k p [] = (k.pcbs p).parent_pid ≡ no_pid
AreParents k p (q ∷ qs) = ((k.pcbs p).parent_pid ≡ q) × AreParents k q qs

-- The process `p` runs, each of it and its ancestors is the child of the next one, the last has no
-- parent, and the taken slots are theirs.
pub record HasChain (k : Kernel) (p : ℕ) (ancestors : List ℕ) : Type 0 where
  pub runs : k.cur_pid ≡ p
  pub parents : AreParents k p ancestors
  pub distinct : AreDistinct (p ∷ ancestors)
  pub taken : (j : ℕ) → j < 6 → k.pid_check j ≢ 0 → Among j (p ∷ ancestors)
  pub slots : (j : ℕ) → Among j (p ∷ ancestors) → k.pid_check j ≢ 0

-- The parents of the same processes, where those among the list have kept theirs.
AreParents-kept :
    (k k' : Kernel) (p : ℕ) (qs : List ℕ)
    → ((j : ℕ) → Among j (p ∷ qs) → (k'.pcbs j).parent_pid ≡ (k.pcbs j).parent_pid)
    → AreParents k p qs
    → AreParents k' p qs
AreParents-kept k k' p [] kept e = kept p (inl refl) ∙ e
AreParents-kept k k' p (q ∷ qs) kept (e, rest) =
    (kept p (inl refl) ∙ e, AreParents-kept k k' q qs (λ j a. kept j (inr a)) rest)

pub SameRun-HasChain :
    (k k' : Kernel) (p : ℕ) (qs : List ℕ) → SameRun k k' → HasChain k p qs → HasChain k' p qs
SameRun-HasChain k k' p qs s h =
    let (cur, _, _, slots, _, _, pcbs) = s in
    record {
      runs = cur ∙ h.runs;
      parents = AreParents-kept k k' p qs (λ j a. (pcbs j).1) h.parents;
      distinct = h.distinct;
      taken = rw slots h.taken;
      slots = rw slots h.slots;
    }

-- A launch takes its slot, and no other.
launched_slot :
    (k k' : Kernel) (pid j : ℕ)
    → IsLaunched k k' pid
    → k'.pid_check j ≡ (if j == pid then 1 else k.pid_check j)
launched_slot k k' pid j l = ap (λ (c : ℕ → ℕ). c j) l.slots

taken_by_launch : (k k' : Kernel) (pid j : ℕ) → IsLaunched k k' pid → j ≡ pid → k'.pid_check j ≢ 0
taken_by_launch k k' pid j l e z = ground (arith, launched_slot k k' pid j l)

taken_before :
    (k k' : Kernel) (pid j : ℕ) → IsLaunched k k' pid → j ≢ pid → k'.pid_check j ≡ k.pid_check j
taken_before k k' pid j l ne = ground (arith, launched_slot k k' pid j l)

-- A child in a free slot.
pub IsLaunched-HasChain :
    (k k' : Kernel) (pid p : ℕ) (qs : List ℕ)
    → IsLaunched k k' pid
    → HasChain k p qs
    → HasChain k' pid (p ∷ qs)
IsLaunched-HasChain k k' pid p qs l h =
    let fresh : (j : ℕ) → Among j (p ∷ qs) → j ≢ pid =
      λ j a e. h.slots j a (ap k.pid_check e ∙ l.free) in
    record {
      runs = l.cur_pid;
      parents = (
        l.parent ∙ h.runs,
        AreParents-kept k k' p qs (λ j a. (l.others j (fresh j a)).1) h.parents,
      );
      distinct = (l.small, λ a. fresh pid a refl, h.distinct);
      taken = λ j small b. elim (ℕ_discrete j pid) [
        | yes e ↦ inl e
        | no ne ↦ inr (h.taken j small (λ z. b (taken_before k k' pid j l ne ∙ z)))
      ];
      slots = λ j a. elim a [
        | inl e ↦ taken_by_launch k k' pid j l e
        | inr older ↦ λ z. h.slots j older (sym (taken_before k k' pid j l (fresh j older)) ∙ z)
      ];
    }

-- The first process, where no slot was taken.
pub IsLaunched-first :
    (k k' : Kernel) (pid : ℕ)
    → IsLaunched k k' pid
    → k.cur_pid ≡ no_pid
    → ((j : ℕ) → j < 6 → k.pid_check j ≡ 0)
    → HasChain k' pid []
IsLaunched-first k k' pid l none_runs free = record {
  runs = l.cur_pid;
  parents = l.parent ∙ none_runs;
  distinct = (l.small, λ a. a, tt);
  taken = λ j small b. elim (ℕ_discrete j pid) [
    | yes e ↦ inl e
    | no ne ↦ absurd (b (taken_before k k' pid j l ne ∙ free j small))
  ];
  slots = λ j a. elim a [ inl e ↦ taken_by_launch k k' pid j l e | inr none ↦ absurd none ];
}
