-- ===== src/Paging/Access.antt =====
-- Which addresses the tables let through, and to which address each goes.
use mp.Prelude.{ℕ, ◌+◌, ◌-◌, ◌*◌, ◌/◌, ◌%◌, ◌^◌, ◌≤◌, ◌<◌, ◌≡◌, ◌∙◌, sym, ap, arith}
use mp.Prelude.{◌&&◌, ◌||◌, leb, ltb, ◌==◌, if◌then◌else◌, Option, none, some, dec_lt, ℕ_discrete}
use mathlib.Core.Option.{some-injective}
use mp.Paging.{Tables, paging_init, map_user}
use mp.Paging.Entries.{paging_init_lem, map_user_lem}

-- The translation of the manual, for a directory whose small pages are all those of `PT`: an entry
-- without the present bit faults, one with the size bit has a page of 4 MB.
abbrev by_entry : (ℕ → ℕ) → ℕ → ℕ → Option ℕ
by_entry pt entry address =
    if entry % 2 == 0
    then none
    else if entry / 128 % 2 == 1
    then some (entry / 2 ^ 22 * 2 ^ 22 + address % 2 ^ 22)
    else if pt (address / 4096 % 1024) % 2 == 0
    then none
    else some (pt (address / 4096 % 1024) / 4096 * 4096 + address % 4096)

abbrev pub translate : Tables → ℕ → Option ℕ
translate t address = by_entry t.pt (t.dt (address / 2 ^ 22)) address

-- The first 4 MB: only the page of the video memory is let through.
first_part :
    (pt : ℕ → ℕ) (table address : ℕ)
    → table % 4096 ≡ 0
    → address < 0x400000
    → pt (address / 4096 % 1024)
      ≡ (address / 4096 % 1024) * 4096 + (if address / 4096 % 1024 == 0xB8 then 0x103 else 2)
    → by_entry pt (table + 7) address
      ≡ (if leb 0xB8000 address && ltb address 0xB9000 then some address else none)
first_part pt table address al lt e = ground (arith, e)

other_part :
    (pt : ℕ → ℕ) (address : ℕ)
    → 0x400000 ≤ address
    → by_entry pt (if address / 2 ^ 22 == 1 then 0x400183 else 0x400180) address
      ≡ (if ltb address 0x800000 then some address else none)
other_part pt address h = ground arith

-- After `paging_init`, with a page table at an aligned 32-bit address, exactly the page of the video
-- memory and the kernel's 4 MB are let through, each address to itself; any other 32-bit address
-- faults.
pub paging_init-translate :
    (t : Tables) (address : ℕ)
    → t.pt_address % 4096 ≡ 0
    → t.pt_address < 2 ^ 32
    → address < 2 ^ 32
    → translate (paging_init t) address ≡ (
        if (leb 0xB8000 address && ltb address 0xB9000)
          || (leb 0x400000 address && ltb address 0x800000)
        then some address
        else none)
paging_init-translate t address al lt h =
    let page = paging_init_lem t (address / 4096 % 1024) (omega arith) al lt in
    let entry = paging_init_lem t (address / 2 ^ 22) (omega arith) al lt in
    elim (dec_lt address 0x400000) [
      | yes low ↦
          ap (λ (e : ℕ). by_entry (paging_init t).pt e address) {y = t.pt_address + 7}
            (entry.1 ∙ ground (arith, low))
          ∙ (first_part (paging_init t).pt t.pt_address address al low page.0 ∙ ground (arith, low))
      | no high ↦
          ap (λ (e : ℕ). by_entry (paging_init t).pt e address)
            {y = if address / 2 ^ 22 == 1 then 0x400183 else 0x400180}
            (entry.1 ∙ ground (arith, high))
          ∙ (other_part (paging_init t).pt address (omega arith) ∙ ground (arith, high))
    ]

user_entry-translate :
    (pt : ℕ → ℕ) (pid address : ℕ)
    → pid < 6
    → by_entry pt (0x800087 + pid * 0x400000) address
      ≡ some (0x800000 + pid * 0x400000 + address % 2 ^ 22)
user_entry-translate pt pid address h = ground arith

-- With a program's page mapped, each address of the 4 MB from 128 MB on goes to the process's own
-- frame, and the translation of no other address changes.
pub map_user-translate :
    (t : Tables) (pid address : ℕ)
    → pid < 6
    → translate (map_user pid t) address ≡ (
        if leb 0x08000000 address && ltb address 0x08400000
        then some (0x800000 + pid * 0x400000 + (address - 0x08000000))
        else translate t address)
map_user-translate t pid address h =
    let e = map_user_lem pid (address / 2 ^ 22) t h in
    elim (ℕ_discrete (address / 2 ^ 22) 32) [
      | yes p ↦
          ap (λ (d : ℕ). by_entry (map_user pid t).pt d address) {y = 0x800087 + pid * 0x400000}
            (e.0 ∙ ground (arith, p))
          ∙ (user_entry-translate (map_user pid t).pt pid address h ∙ ground (arith, p))
      | no p ↦
          ap (λ (d : ℕ). by_entry (map_user pid t).pt d address) {y = t.dt (address / 2 ^ 22)}
            (e.0 ∙ ground (arith, p))
          ∙ ground (arith, p, (map_user_lem pid (address / 4096 % 1024) t h).1)
    ]

-- The frames of two of the six processes have no address in common.
pub frames_apart :
    (t : Tables) (p q a b frame : ℕ)
    → p < 6
    → q < 6
    → 0x08000000 ≤ a
    → a < 0x08400000
    → 0x08000000 ≤ b
    → b < 0x08400000
    → translate (map_user p t) a ≡ some frame
    → translate (map_user q t) b ≡ some frame
    → (p ≡ q) × (a ≡ b)
frames_apart t p q a b frame hp hq la ha lb hb ea eb =
    let e = sym (in_page p a hp la ha) ∙ (ea ∙ (sym eb ∙ in_page q b hq lb hb)) in
    let n = some-injective _ _ e in (omega arith, omega arith)
  where
    in_page :
        (pid address : ℕ)
        → pid < 6
        → 0x08000000 ≤ address
        → address < 0x08400000
        → translate (map_user pid t) address
          ≡ some (0x800000 + pid * 0x400000 + (address - 0x08000000))
    in_page pid address h l u = map_user-translate t pid address h ∙ ground (arith, l, u)
