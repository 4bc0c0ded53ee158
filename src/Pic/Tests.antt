-- ===== src/Pic/Tests.antt =====
-- The controllers on concrete masks.
use mp.Prelude.{◌≡◌, refl, arith, some, [], ◌∷◌, last_byte}
use mp.Pic.{Pic, disable_irq, master_data, slave_8259_port, slave_data}
use mp.Pic.Masks.{IsSynced, bit}
use mp.Pic.Masks.{disable_irq_slave_desync}

-- The controllers after `i8259_init`, but for the older writes.
abbrev up : Pic
up = record {
  master_mask = 0xFB;
  slave_mask = 0;
  sent = record { byte = 0; port = slave_data } ∷ record { byte = 0xFB; port = master_data } ∷ [];
}

up-IsSynced : IsSynced up
up-IsSynced = record { master_known = refl; slave_known = refl }

disable_irq_slave_desync_example :
    (last_byte (disable_irq 8 up).sent slave_8259_port ≡ some (disable_irq 8 up).slave_mask)
    × (bit (disable_irq 8 up).slave_mask 4 ≡ 0)
    × (last_byte (disable_irq 8 up).sent slave_data ≡ some 0)
    × (bit 0 0 ≡ 0)
    × (bit (disable_irq 8 up).slave_mask 0 ≡ 1)
    × (¬ IsSynced (disable_irq 8 up))
disable_irq_slave_desync_example =
    disable_irq_slave_desync 8 up (omega arith) up-IsSynced (omega arith) (omega arith)
      (omega arith) refl (refl, refl)
