-- ===== src/Paging.antt =====
-- paging.c: the page directory and the one page table, as `paging_init` fills them.
pub mod Entries
pub mod Access
mod Tests
use mp.Prelude.{
  ℕ, zero, suc, ◌+◌, ◌*◌, ◌/◌, ◌%◌, ◌^◌, ◌==◌, not, if◌then◌else◌, bit_or, bit_and, Memory, update,
}

abbrev pub table_size : ℕ
table_size = 1024

abbrev pub dic_size : ℕ
dic_size = 1024

-- The flags of a table entry and of a directory entry.
abbrev pub pte_p : ℕ
pte_p = 0x1

abbrev pub pte_rw : ℕ
pte_rw = 0x2

abbrev pub pte_g : ℕ
pte_g = 0x100

abbrev pub pde_p : ℕ
pde_p = 0x1

abbrev pub pde_rw : ℕ
pde_rw = 0x2

abbrev pub pde_us : ℕ
pde_us = 0x4

abbrev pub pde_ps : ℕ
pde_ps = 0x80

abbrev pub pde_g : ℕ
pde_g = 0x100

abbrev pub video_mem : ℕ
video_mem = 0x000B8000

-- The arrays `DT` and `PT` of uint32_t, by index, and the address of `PT`.
pub record Tables : Type 0 where
  pub dt : Memory
  pub pt : Memory
  pub pt_address : ℕ

-- `x << k` of a uint32_t.
abbrev pub shl32 : ℕ → ℕ → ℕ
shl32 x k = x * 2 ^ k % 2 ^ 32

-- What `PT_init` stores at an index, from 0 by the assignments of its branch.
unfoldable pub pt_entry : ℕ → ℕ
pt_entry index =
    if not (shl32 index 12 == video_mem)
    then bit_or (bit_or 0 pte_rw) (shl32 index 12)
    else bit_or (bit_or (bit_or (bit_or 0 pte_p) pte_rw) pte_g) (shl32 index 12)

unfoldable pub pt_init : ℕ → Tables → Tables
pt_init index t = record t { pt = update t.pt index (pt_entry index) }

-- The address of `PT` without its low 12 bits.
abbrev pub pt_frame : ℕ → ℕ
pt_frame address = shl32 (address / 2 ^ 12) 12

unfoldable pub dt_entry : ℕ → ℕ → ℕ
dt_entry address index =
    if index == 0
    then bit_or (bit_or (bit_or (bit_or 0 pde_p) pde_rw) pde_us) (pt_frame address)
    else if index == 1
    then bit_or (bit_or (bit_or (bit_or (bit_or 0 pde_p) pde_rw) pde_ps) pde_g) (shl32 1 22)
    else bit_or (bit_or (bit_or 0 pde_ps) pde_g) (shl32 1 22)

unfoldable pub dt_init : ℕ → Tables → Tables
dt_init index t = record t { dt = update t.dt index (dt_entry t.pt_address index) }

-- The loop over the table, from `j` on.
unfoldable pub pt_loop : ℕ → ℕ → Tables → Tables
pt_loop zero j t = t
pt_loop (suc left) j t = pt_loop left (j + 1) (pt_init j t)

-- The loop over the directory, which fills the table at its first index.
unfoldable pub dt_loop : ℕ → ℕ → Tables → Tables
dt_loop zero i t = t
dt_loop (suc left) i t =
    dt_loop left (i + 1) (if i == 0 then dt_init i (pt_loop table_size 0 t) else dt_init i t)

-- `paging_init`, but for the control registers.
unfoldable pub paging_init : Tables → Tables
paging_init t = dt_loop dic_size 0 t

-- The user program's directory entry, which `execute` and `halt` store: `2 + pid` is the number of
-- its 4 MB page.
abbrev pub pd_mask : ℕ
pd_mask = 0x87

abbrev pub user_index : ℕ
user_index = 0x08000000 / 2 ^ 22

unfoldable pub map_user : ℕ → Tables → Tables
map_user pid t =
    let cleared = update t.dt user_index 0 in
    let masked = update cleared user_index (bit_or (cleared user_index) pd_mask) in
    record t { dt = update masked user_index (bit_or (masked user_index) (shl32 (2 + pid) 22)) }

-- The control registers that `set_crreg` sets; `dt_address` is the address of `DT`.
pub record Registers : Type 0 where
  pub cr0 : ℕ
  pub cr3 : ℕ
  pub cr4 : ℕ

unfoldable pub set_crreg : ℕ → Registers → Registers
set_crreg dt_address r = record {
  cr0 = bit_or r.cr0 0x80000000;
  cr3 = bit_and dt_address 0xFFFFFC00;
  cr4 = bit_or r.cr4 0x00000010;
}
