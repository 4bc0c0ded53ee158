-- ===== src/Paging/Entries.antt =====
-- What the tables hold after `paging_init`, and where a program's page is mapped.
use mp.Prelude.{ℕ, zero, suc, ◌+◌, ◌*◌, ◌%◌, ◌^◌, ◌<◌, ◌≡◌, refl, ◌≢◌, ◌∙◌, ap, arith}
use mp.Prelude.{◌&&◌, leb, ltb, ◌==◌, if◌then◌else◌, bit_or, holds_below, eq_below}
use Prim.Native.Nat.{bit_or-bitwise}
use mp.Paging.{
  Tables, pt_entry, pt_init, pt_frame, dt_entry, dt_init, pt_loop, dt_loop, paging_init,
}
use mp.Paging.{map_user, shl32}

-- A page of 4 KB: frame `n` at its own address, writable, and present only for the video memory.
pt_entry_value : (n : ℕ) → n < 1024 → pt_entry n ≡ n * 4096 + (if n == 0xB8 then 0x103 else 2)
unfolding pt_entry
pt_entry_value n h =
    eq_below 1024 pt_entry (λ n. n * 4096 + (if n == 0xB8 then 0x103 else 2))
      (unfold holds_below in refl) n h

pt_loop-at :
    (left j : ℕ) (t : Tables) (n : ℕ)
    → ((pt_loop left j t).pt n ≡ (if leb j n && ltb n (j + left) then pt_entry n else t.pt n))
      × ((pt_loop left j t).dt ≡ t.dt)
      × ((pt_loop left j t).pt_address ≡ t.pt_address)
unfolding pt_loop pt_init
pt_loop-at zero j t n = (ground arith, refl, refl)
pt_loop-at (suc left) j t n =
    let (a, b, c) = pt_loop-at left (j + 1) (pt_init j t) n in
    (ground (arith, a, ap pt_entry {x = n} {y = j}), b, c)

dt_loop-at :
    (left i : ℕ) (t : Tables) (n : ℕ)
    → i ≢ 0
    → ((dt_loop left i t).dt n
        ≡ (if leb i n && ltb n (i + left) then dt_entry t.pt_address n else t.dt n))
      × ((dt_loop left i t).pt n ≡ t.pt n)
unfolding dt_loop dt_init
dt_loop-at zero i t n h = (ground arith, refl)
dt_loop-at (suc left) i t n h =
    ground
      (arith, dt_loop-at left (i + 1) (dt_init i t) n, ap (dt_entry t.pt_address) {x = n} {y = i})

-- The directory's first entry: the table's frame with the present, writable and user bits.
first_entry :
    (address : ℕ) → address % 4096 ≡ 0 → address < 2 ^ 32 → dt_entry address 0 ≡ address + 7
unfolding dt_entry
first_entry address al lt = omega (arith, bit_or-bitwise 7 (pt_frame address))

other_entry : (address n : ℕ) → n ≢ 0 → dt_entry address n ≡ (if n == 1 then 0x400183 else 0x400180)
unfolding dt_entry
other_entry address n h = ground arith

dt_loop-first :
    (left : ℕ) (t : Tables) → dt_loop (suc left) 0 t ≡ dt_loop left 1 (dt_init 0 (pt_loop 1024 0 t))
unfolding dt_loop
dt_loop-first left t = refl

rest_of_dt :
    (u : Tables) (n : ℕ)
    → n < 1024
    → u.pt_address % 4096 ≡ 0
    → u.pt_address < 2 ^ 32
    → ((dt_loop 1023 1 (dt_init 0 u)).pt n ≡ u.pt n)
      × ((dt_loop 1023 1 (dt_init 0 u)).dt n
          ≡ (if n == 0 then u.pt_address + 7 else if n == 1 then 0x400183 else 0x400180))
unfolding dt_init
rest_of_dt u n h al lt = ground (
  arith,
  dt_loop-at 1023 1 (dt_init 0 u) n,
  first_entry u.pt_address al lt,
  other_entry u.pt_address n,
)

-- For a page table at an aligned 32-bit address, after `paging_init`, at every index below 1024: a
-- 4 KB page lies at its own frame, writable, and is present only if it is the video memory's; the
-- first directory entry is the table's, present, writable and for users; the second is the
-- kernel's 4 MB page, present and global; no other is present.
pub paging_init_lem :
    (t : Tables) (n : ℕ)
    → n < 1024
    → t.pt_address % 4096 ≡ 0
    → t.pt_address < 2 ^ 32
    → ((paging_init t).pt n ≡ n * 4096 + (if n == 0xB8 then 0x103 else 2))
      × ((paging_init t).dt n
          ≡ (if n == 0 then t.pt_address + 7 else if n == 1 then 0x400183 else 0x400180))
unfolding paging_init
paging_init_lem t n h al lt =
    let u = pt_loop 1024 0 t in
    let (a, b, c) = pt_loop-at 1024 0 t n in
    let (p, q) = rest_of_dt u n h (ap (λ (x : ℕ). x % 4096) c ∙ al) (rw c lt) in
    rw (dt_loop-first 1023 t)
      (p ∙ ground (arith, a, pt_entry_value n), q ∙ ap (λ (x : ℕ). entry x) c)
  where
    entry : ℕ → ℕ
    entry x = if n == 0 then x + 7 else if n == 1 then 0x400183 else 0x400180

user_entry :
    (pid : ℕ) → pid < 6 → bit_or (bit_or 0 0x87) (shl32 (2 + pid) 22) ≡ 0x800087 + pid * 0x400000
user_entry pid h =
    eq_below 6 (λ n. bit_or (bit_or 0 0x87) (shl32 (2 + n) 22)) (λ n. 0x800087 + n * 0x400000)
      (unfold holds_below in refl) pid h

-- For one of the six processes, its 4 MB page is mapped at 128 MB, present, writable and for
-- users, to the frame at 8 MB plus 4 MB for each process below it; no other entry changes.
pub map_user_lem :
    (pid n : ℕ) (t : Tables)
    → pid < 6
    → ((map_user pid t).dt n ≡ (if n == 32 then 0x800087 + pid * 0x400000 else t.dt n))
      × ((map_user pid t).pt n ≡ t.pt n)
unfolding map_user
map_user_lem pid n t h = (ground (arith, user_entry pid h), refl)
