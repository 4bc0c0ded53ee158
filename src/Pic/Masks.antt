-- ===== src/Pic/Masks.antt =====
-- Which interrupts the masks of i8259.c let through, and whether the controllers know it.
use mp.Prelude.{ℕ, ◌+◌, ◌-◌, ◌/◌, ◌%◌, ◌^◌, ◌≤◌, ◌<◌, ◌≡◌, ◌≢◌, refl, ap, ◌⊎◌, arith}
use mp.Prelude.{true, ◌==◌, if◌then◌else◌, ltb, leb, some, last_byte}
use mp.Prelude.{ltb→lt, eq_below, holds_below, holds_below-at, ==_iff}
use mp.Pic.{
  Pic, clear_bit, set_bit, master_data, slave_8259_port, slave_data, enable_irq, disable_irq,
  i8259_init,
}

-- Bit `n` of a mask.
abbrev pub bit : ℕ → ℕ → ℕ
bit mask n = mask / 2 ^ n % 2

-- An interrupt line is let through when its bit is clear; a line of the slave also needs the
-- cascade pin 2 of the master.
abbrev pub IsEnabled : Pic → ℕ → Type 0
IsEnabled p n =
    if leb n 7
    then bit p.master_mask n ≡ 0
    else (bit p.slave_mask (n - 8) ≡ 0) × (bit p.master_mask 2 ≡ 0)

pub record IsValid (p : Pic) : Type 0 where
  pub master_byte : p.master_mask < 256
  pub slave_byte : p.slave_mask < 256

-- The controllers hold the masks that the kernel believes they hold.
pub record IsSynced (p : Pic) : Type 0 where
  pub master_known : last_byte p.sent master_data ≡ some p.master_mask
  pub slave_known : last_byte p.sent slave_data ≡ some p.slave_mask

-- `&` with a cleared bit changes that bit alone, and stays a byte.
clear_table :
    holds_below 8 (λ n.
      holds_below 256
        λ m. holds_below 8 λ k. bit (clear_bit m n) k == (if k == n then 0 else bit m k))
    ≡ true
unfolding holds_below
clear_table = refl

pub bit-clear_bit :
    (m n k : ℕ) → m < 256 → n < 8 → k < 8 → bit (clear_bit m n) k ≡ (if k == n then 0 else bit m k)
bit-clear_bit m n k hm hn hk =
    (==_iff (bit (clear_bit m n) k) (if k == n then 0 else bit m k)).0
      (holds_below-at 8 _ (holds_below-at 256 _ (holds_below-at 8 _ clear_table n hn) m hm) k hk)

set_table :
    holds_below 8 (λ n.
      holds_below 256
        λ m. holds_below 8 λ k. bit (set_bit m n) k == (if k == n then 1 else bit m k))
    ≡ true
unfolding holds_below
set_table = refl

pub bit-set_bit :
    (m n k : ℕ) → m < 256 → n < 8 → k < 8 → bit (set_bit m n) k ≡ (if k == n then 1 else bit m k)
bit-set_bit m n k hm hn hk =
    (==_iff (bit (set_bit m n) k) (if k == n then 1 else bit m k)).0
      (holds_below-at 8 _ (holds_below-at 256 _ (holds_below-at 8 _ set_table n hn) m hm) k hk)

clear_byte_table : holds_below 8 (λ n. holds_below 256 λ m. ltb (clear_bit m n) 256) ≡ true
unfolding holds_below
clear_byte_table = refl

clear_bit-lt : (m n : ℕ) → m < 256 → n < 8 → clear_bit m n < 256
clear_bit-lt m n hm hn =
    ltb→lt _ _ (holds_below-at 256 _ (holds_below-at 8 _ clear_byte_table n hn) m hm)

bit-zero : (k : ℕ) → k < 8 → bit 0 k ≡ 0
bit-zero k h = eq_below 8 (bit 0) (λ _. 0) (unfold holds_below in refl) k h

-- Every operation keeps both masks within a byte.
pub enable_irq-IsValid : (n : ℕ) (p : Pic) → IsValid p → IsValid (enable_irq n p)
unfolding enable_irq
enable_irq-IsValid n p v = ground (
  arith,
  clear_bit-lt p.master_mask n v.master_byte,
  clear_bit-lt p.master_mask 2 v.master_byte,
  clear_bit-lt p.slave_mask (n - 8) v.slave_byte,
)

pub disable_irq-IsValid : (n : ℕ) (p : Pic) → IsValid p → IsValid (disable_irq n p)
unfolding disable_irq
disable_irq-IsValid n p v = ground arith

-- What `enable_irq` does to every bit of the master's mask: the line's own bit is cleared, or the
-- cascade's for a line of the slave, and no other.
pub enable_irq-master :
    (n k : ℕ) (p : Pic)
    → IsValid p
    → n ≤ 15
    → k < 8
    → bit (enable_irq n p).master_mask k
      ≡ (if k == (if leb n 7 then n else 2) then 0 else bit p.master_mask k)
unfolding enable_irq
enable_irq-master n k p v hn hk = ground (
  arith,
  bit-clear_bit p.master_mask n k v.master_byte,
  bit-clear_bit p.master_mask 2 k v.master_byte,
)

-- And to the slave's: a line of the slave has its bit cleared, the cascade line clears them all.
pub enable_irq-slave :
    (n k : ℕ) (p : Pic)
    → IsValid p
    → n ≤ 15
    → k < 8
    → bit (enable_irq n p).slave_mask k
      ≡ (if n == 2 then 0 else if k + 8 == n then 0 else bit p.slave_mask k)
unfolding enable_irq
enable_irq-slave n k p v hn hk =
    ground (arith, bit-clear_bit p.slave_mask (n - 8) k v.slave_byte, bit-zero k)

-- With masks of a byte, enabling one of the lines 0 to 15 lets it through, and keeps every line
-- that was let through before.
pub enable_irq-IsEnabled :
    (n k : ℕ) (p : Pic)
    → IsValid p
    → n ≤ 15
    → k ≤ 15
    → (k ≡ n) ⊎ IsEnabled p k
    → IsEnabled (enable_irq n p) k
enable_irq-IsEnabled n k p v hn hk h = ground (
  arith,
  enable_irq-master n k p v hn,
  enable_irq-master n 2 p v hn,
  enable_irq-slave n (k - 8) p v hn,
)

-- With masks of a byte that the controllers hold, `enable_irq` of any number sends each mask that
-- it changes, so the controllers hold the new ones.
pub enable_irq-IsSynced : (n : ℕ) (p : Pic) → IsValid p → IsSynced p → IsSynced (enable_irq n p)
unfolding enable_irq
enable_irq-IsSynced n p v s = ground (
  arith,
  clear_bit-lt p.master_mask n v.master_byte,
  clear_bit-lt p.master_mask 2 v.master_byte,
  clear_bit-lt p.slave_mask (n - 8) v.slave_byte,
)

-- `disable_irq` keeps the controllers in step for a line of the master.
pub disable_irq-IsSynced : (n : ℕ) (p : Pic) → IsSynced p → n ≤ 7 → IsSynced (disable_irq n p)
unfolding disable_irq
disable_irq-IsSynced n p s hn = ground arith

-- With masks of a byte that the controllers hold, for a line of the slave that is let through, but
-- not line 12, and with bit 4 of the slave's mask clear: the new mask goes to the slave's command
-- port, with its bit 4 clear, so it is no command that starts the slave anew; the last byte at its
-- data port is the old mask, in which the line's bit is clear. The kernel's mask has it set.
pub disable_irq_slave_desync :
    (n : ℕ) (p : Pic)
    → IsValid p
    → IsSynced p
    → 8 ≤ n
    → n ≤ 15
    → n ≢ 12
    → bit p.slave_mask 4 ≡ 0
    → IsEnabled p n
    → (last_byte (disable_irq n p).sent slave_8259_port ≡ some (disable_irq n p).slave_mask)
      × (bit (disable_irq n p).slave_mask 4 ≡ 0)
      × (last_byte (disable_irq n p).sent slave_data ≡ some p.slave_mask)
      × (bit p.slave_mask (n - 8) ≡ 0)
      × (bit (disable_irq n p).slave_mask (n - 8) ≡ 1)
      × (¬ IsSynced (disable_irq n p))
unfolding disable_irq
disable_irq_slave_desync n p v s lo hi ne four e =
    (ground arith, no_start, old, ground (arith, e), raised, λ q. clash q)
  where
    now : Pic
    now = disable_irq n p

    no_start : bit now.slave_mask 4 ≡ 0
    no_start = ground (arith, bit-set_bit p.slave_mask (n - 8) 4 v.slave_byte)

    old : last_byte now.sent slave_data ≡ some p.slave_mask
    old = ground arith

    raised : bit now.slave_mask (n - 8) ≡ 1
    raised = ground (arith, bit-set_bit p.slave_mask (n - 8) (n - 8) v.slave_byte)

    same : IsSynced now → p.slave_mask ≡ now.slave_mask
    same q = cc (old, q.slave_known)

    clash : IsSynced now → ⊥
    clash q = ground (arith, raised, ap (λ (m : ℕ). bit m (n - 8)) (same q))

-- Whatever the masks were, `i8259_init` ends with the lines of the slave and the cascade let
-- through and every other line masked, and the controllers know it.
pub i8259_init_lem :
    (p : Pic)
    → ((i8259_init p).master_mask ≡ 0xFB)
      × ((i8259_init p).slave_mask ≡ 0)
      × IsSynced (i8259_init p)
unfolding i8259_init
i8259_init_lem p = ground arith
