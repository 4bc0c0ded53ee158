-- ===== src/Process/Globals.antt =====
-- What the globals of process.c say together while a program runs.
use mp.Prelude.{ℕ, ◌+◌, ◌*◌, ◌<◌, ◌≡◌, ◌≢◌, ◌∙◌, sym, ap, arith, update, some, ℕ_discrete}
use mp.Process.{Kernel, Pcb}

-- The process that runs, the slots and the numbers of the control blocks are the same.
abbrev pub SamePcb : Pcb → Pcb → Type 0
SamePcb a b = (b.pid ≡ a.pid) × (b.parent_pid ≡ a.parent_pid) × (b.tss_esp0 ≡ a.tss_esp0)

abbrev pub SameRun : Kernel → Kernel → Type 0
SameRun k k' =
    (k'.cur_pid ≡ k.cur_pid)
    × (k'.cur_process ≡ k.cur_process)
    × (k'.filed_array ≡ k.filed_array)
    × (k'.pid_check ≡ k.pid_check)
    × (k'.tables ≡ k.tables)
    × (k'.esp0 ≡ k.esp0)
    × ((j : ℕ) → SamePcb (k.pcbs j) (k'.pcbs j))

-- A new process in the slot `pid` that was free, as a child of the one that ran.
pub record IsLaunched (k k' : Kernel) (pid : ℕ) : Type 0 where
  pub small : pid < 6
  pub free : k.pid_check pid ≡ 0
  pub slots : k'.pid_check ≡ update k.pid_check pid 1
  pub cur_pid : k'.cur_pid ≡ pid
  pub cur_process : k'.cur_process ≡ some pid
  pub filed_array : k'.filed_array ≡ some pid
  pub number : (k'.pcbs pid).pid ≡ pid
  pub parent : (k'.pcbs pid).parent_pid ≡ k.cur_pid
  pub others : (j : ℕ) → j ≢ pid → SamePcb (k.pcbs j) (k'.pcbs j)
  pub stack : k'.esp0 + 4 + 0x2000 * pid ≡ 0x800000
  pub mapped : k'.tables.dt 32 ≡ 0x800087 + pid * 0x400000

-- The current process is one of the six, its slot is taken, the pointers and its number agree, its
-- page and its kernel stack are the ones in force, and every taken slot's block has its own number.
pub record IsRunning (k : Kernel) : Type 0 where
  pub small : k.cur_pid < 6
  pub busy : k.pid_check k.cur_pid ≢ 0
  pub cur_process : k.cur_process ≡ some k.cur_pid
  pub filed_array : k.filed_array ≡ some k.cur_pid
  pub not_own_parent : (k.pcbs k.cur_pid).parent_pid ≢ k.cur_pid
  pub stack : k.esp0 + 4 + 0x2000 * k.cur_pid ≡ 0x800000
  pub mapped : k.tables.dt 32 ≡ 0x800087 + k.cur_pid * 0x400000
  pub numbered : (j : ℕ) → j < 6 → k.pid_check j ≢ 0 → (k.pcbs j).pid ≡ j

pub SameRun-IsRunning : (k k' : Kernel) → SameRun k k' → IsRunning k → IsRunning k'
SameRun-IsRunning k k' s r =
    let (cur, process, fds, slots, tables, esp, pcbs) = s in
    let small = r.small in
    let busy = r.busy in
    let stack = r.stack in
    record {
      small = omega arith;
      busy = rw (slots, cur) busy;
      cur_process = rw cur (process ∙ r.cur_process);
      filed_array = rw cur (fds ∙ r.filed_array);
      not_own_parent = rw cur (λ e. r.not_own_parent (sym (pcbs k.cur_pid).1 ∙ e));
      stack = omega arith;
      mapped = rw (tables, cur) r.mapped;
      numbered = λ j h b. (pcbs j).0 ∙ r.numbered j h (λ z. b (ap (λ (c : ℕ → ℕ). c j) slots ∙ z));
    }

-- A launch from a state whose taken slots have their own numbers, and whose current process, if it is
-- one of the six, has a taken slot.
pub IsLaunched-IsRunning :
    (k k' : Kernel) (pid : ℕ)
    → IsLaunched k k' pid
    → (k.cur_pid < 6 → k.pid_check k.cur_pid ≢ 0)
    → ((j : ℕ) → j < 6 → k.pid_check j ≢ 0 → (k.pcbs j).pid ≡ j)
    → IsRunning k'
IsLaunched-IsRunning k k' pid l busy numbered =
    let cur = l.cur_pid in
    let small = l.small in
    let free = l.free in
    let stack = l.stack in
    let slots : (j : ℕ) → k'.pid_check j ≡ update k.pid_check pid 1 j =
      λ j. ap (λ (c : ℕ → ℕ). c j) l.slots in
    record {
      small = omega arith;
      busy = rw cur (ground (arith, slots pid));
      cur_process = rw cur l.cur_process;
      filed_array = rw cur l.filed_array;
      not_own_parent = rw cur (λ e. own (sym l.parent ∙ e));
      stack = omega arith;
      mapped = rw cur l.mapped;
      numbered = λ j h b. elim (ℕ_discrete j pid) [
        | yes e ↦ rw e l.number
        | no ne ↦ (l.others j ne).0 ∙ numbered j h (ground (arith, slots j, b))
      ];
    }
  where
    own : k.cur_pid ≡ pid → ⊥
    own e = busy (omega (arith, l.small)) (ap k.pid_check e ∙ l.free)

pub IsLaunched-same :
    (k k₁ k' : Kernel) (pid : ℕ) → SameRun k k₁ → IsLaunched k₁ k' pid → IsLaunched k k' pid
IsLaunched-same k k₁ k' pid s l =
    let (cur, _, _, slots, _, _, pcbs) = s in
    record {
      small = l.small;
      free = ap (λ (c : ℕ → ℕ). c pid) (sym slots) ∙ l.free;
      slots = l.slots ∙ ap (λ (c : ℕ → ℕ). update c pid 1) slots;
      cur_pid = l.cur_pid;
      cur_process = l.cur_process;
      filed_array = l.filed_array;
      number = l.number;
      parent = l.parent ∙ cur;
      others = λ j ne.
          let (a, b, c) = l.others j ne in let (a₁, b₁, c₁) = pcbs j in (a ∙ a₁, b ∙ b₁, c ∙ c₁);
      stack = l.stack;
      mapped = l.mapped;
    }
