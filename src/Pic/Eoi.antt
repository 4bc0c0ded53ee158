-- ===== src/Pic/Eoi.antt =====
-- The end-of-interrupt messages of i8259.c.
use mp.Prelude.{ℕ, ◌+◌, ◌-◌, ◌≤◌, ◌≡◌, refl, ◌≢◌, arith}
use mp.Prelude.{[], ◌∷◌, ◌++◌, if◌then◌else◌, bit_or, leb, Trace}
use mp.Prelude.{holds_below, eq_below}
use mp.Pic.{Pic, eoi, master_8259_port, slave_8259_port, send_eoi}

-- `|` with the EOI byte adds, for the line numbers of one controller.
eoi-add : (n : ℕ) → n ≤ 7 → bit_or n eoi ≡ n + 0x60
eoi-add n h =
    eq_below 8 (λ k. bit_or k eoi) (λ k. k + 0x60) (unfold holds_below in refl) n (omega arith)

-- The messages of the 8259's specific end of interrupt: 0x60 + n to the master for its line n, and
-- for line n of the slave 0x60 + (n - 8) to the slave and then 0x62 to the master.
abbrev pub message : ℕ → Trace
message n =
    if leb n 7
    then record { byte = 0x60 + n; port = master_8259_port } ∷ []
    else record { byte = 0x62; port = master_8259_port }
      ∷ record { byte = 0x60 + (n - 8); port = slave_8259_port }
      ∷ []

-- For every line from 0 to 15 but the cascade, `send_eoi` sends that line's message and touches no
-- mask.
pub send_eoi_lem :
    (n : ℕ) (p : Pic) → n ≤ 15 → n ≢ 2 → send_eoi n p ≡ record p { sent = message n ++ p.sent }
unfolding send_eoi
send_eoi_lem n p h ne = ground (arith, eoi-add n, eoi-add (n - 8))
