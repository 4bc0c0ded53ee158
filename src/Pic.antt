-- ===== src/Pic.antt =====
-- i8259.c: the two interrupt controllers, by their shadow masks and the bytes sent to them.
pub mod Masks
pub mod Eoi
mod Tests
use mp.Prelude.{ℕ, ◌+◌, ◌-◌, ◌^◌, ◌%◌, Bool, ◌&&◌, not, ltb, leb, ◌==◌, if◌then◌else◌}
use mp.Prelude.{Trace, outb, bit_and, bit_or}

-- The globals `master_mask` and `slave_mask` (uint8_t), and what the ports have received.
pub record Pic : Type 0 where
  pub master_mask : ℕ
  pub slave_mask : ℕ
  pub sent : Trace

abbrev pub master_8259_port : ℕ
master_8259_port = 0x20

abbrev pub slave_8259_port : ℕ
slave_8259_port = 0xA0

abbrev pub icw1 : ℕ
icw1 = 0x11

abbrev pub icw2_master : ℕ
icw2_master = 0x20

abbrev pub icw2_slave : ℕ
icw2_slave = 0x28

abbrev pub icw3_master : ℕ
icw3_master = 0x04

abbrev pub icw3_slave : ℕ
icw3_slave = 0x02

abbrev pub icw4 : ℕ
icw4 = 0x01

abbrev pub eoi : ℕ
eoi = 0x60

-- `mask & (~signal)` and `mask | signal`, stored into a uint8_t; `signal` is `1 << n`.
abbrev pub clear_bit : ℕ → ℕ → ℕ
clear_bit mask n = bit_and mask (255 - 2 ^ n)

abbrev pub set_bit : ℕ → ℕ → ℕ
set_bit mask n = bit_or mask (2 ^ n) % 256

-- The assignment of a mask and the `outb` of it that follows.
abbrev pub write_master : ℕ → ℕ → Pic → Pic
write_master mask port p = record p { master_mask = mask; sent = outb mask port p.sent }

abbrev pub write_slave : ℕ → ℕ → Pic → Pic
write_slave mask port p = record p { slave_mask = mask; sent = outb mask port p.sent }

abbrev pub master_data : ℕ
master_data = master_8259_port + 1

abbrev pub slave_data : ℕ
slave_data = slave_8259_port + 1

-- `irq_num` is unsigned, so the test `irq_num<0` of the three functions never holds.
unfoldable pub enable_irq : ℕ → Pic → Pic
enable_irq irq_num p =
    if ltb 15 irq_num
    then p
    else if leb irq_num 7
    then enable_master
    else write_master (clear_bit p.master_mask 2) master_data
        (write_slave (clear_bit p.slave_mask (irq_num - 8)) slave_data p)
  where
    lowered : Pic
    lowered = write_master (clear_bit p.master_mask irq_num) master_data p

    enable_master : Pic
    enable_master = if irq_num == icw3_slave then write_slave 0 slave_data lowered else lowered

-- The slave's mask goes to `SLAVE_8259_PORT`, the command port, as the source has it.
unfoldable pub disable_irq : ℕ → Pic → Pic
disable_irq irq_num p =
    if ltb 15 irq_num
    then p
    else if leb irq_num 7
    then disable_master
    else write_slave (set_bit p.slave_mask (irq_num - 8)) slave_8259_port p
  where
    raised : Pic
    raised = write_master (set_bit p.master_mask irq_num) master_data p

    disable_master : Pic
    disable_master = if irq_num == icw3_slave then write_slave 0xFF slave_data raised else raised

-- `irq_num-8` is a subtraction of uint32_t.
unfoldable pub send_eoi : ℕ → Pic → Pic
send_eoi irq_num p =
    if ltb 15 irq_num
    then p
    else if leb irq_num 7 && not (irq_num == 2)
    then record p { sent = outb (bit_or irq_num eoi) master_8259_port p.sent }
    else record p {
      sent =
          outb (bit_or 2 eoi) master_8259_port
            (outb (bit_or ((irq_num + 2 ^ 32 - 8) % 2 ^ 32) eoi) slave_8259_port p.sent);
    }

abbrev pub send : ℕ → ℕ → Pic → Pic
send value port p = record p { sent = outb value port p.sent }

-- The writes of `i8259_init` before it sets the masks.
abbrev pub init_words : Pic → Pic
init_words p = send p.slave_mask slave_data (
    send p.master_mask master_data (
      send icw4 slave_data (
        send icw3_slave slave_data (
          send icw2_slave slave_data (
            send icw1 slave_8259_port (
              send icw4 master_data (
                send icw3_master master_data (
                  send icw2_master master_data (
                    send icw1 master_8259_port
                      (send 0xFF slave_data (send 0xFF master_data p)))))))))))

unfoldable pub i8259_init : Pic → Pic
unfolding enable_irq
i8259_init p =
    enable_irq 8 (enable_irq 2 (record (init_words p) { master_mask = 0xFF; slave_mask = 0xFF }))
