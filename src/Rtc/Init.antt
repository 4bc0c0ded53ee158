-- ===== src/Rtc/Init.antt =====
-- What `rtc_init` leaves in the clock and in the controllers.
use mp.Prelude.{
  outb, inl, ℕ, ◌+◌, ◌*◌, ◌/◌, ◌<◌, ◌≡◌, refl, arith, some, List, ◌∷◌, Out, bit_and, bit_or,
  holds_below, eq_below,
}
use mp.Prelude.Int.{pos}
use mp.Pic.{enable_irq, disable_irq}
use mp.Pic.Masks
use mp.Pic.Masks.{bit, IsEnabled}
use mp.Rtc.{Rtc, rtc_init, rtc_cmos, rtc_cmd, reg_a, reg_b, get_rate}
use mp.Rtc.Rate.{get_rate_lem}

rate_1024 : (fuel : ℕ) → 9 < fuel → get_rate fuel (pos 1024) ≡ some (pos 6)
rate_1024 fuel h = (get_rate_lem fuel 1024 9 (omega arith) (omega arith) refl h).0

low_nibble : (a : ℕ) → a < 256 → bit_or (bit_and a 0xF0) 6 ≡ a / 16 * 16 + 6
low_nibble a h =
    eq_below 256 (λ k. bit_or (bit_and k 0xF0) 6) (λ k. k / 16 * 16 + 6)
      (unfold holds_below in refl) a h

-- The clock after `rtc_init`, at the rate found.
outcome : ℕ → ℕ → Rtc → Rtc
outcome prev_b prev_a r = record r {
  pic = enable_irq 8 (disable_irq 8 r.pic);
  sent = outb (bit_or (bit_and prev_a 0xF0) 6) rtc_cmos (
      outb reg_a rtc_cmd (
        outb reg_a rtc_cmd
          (outb (bit_or prev_b 0x40) rtc_cmos (outb reg_b rtc_cmd (outb reg_b rtc_cmd r.sent)))));
}

pub rtc_init_returns :
    (fuel prev_b prev_a : ℕ) (r : Rtc)
    → 9 < fuel
    → (r' : Rtc) × (rtc_init fuel prev_b prev_a r ≡ some r')
unfolding rtc_init outcome
rtc_init_returns fuel prev_b prev_a r h =
    (outcome prev_b prev_a r, rw (rate_1024 fuel h, rtc_init) refl)

line_up : (r : Rtc) → Masks.IsValid r.pic → IsEnabled (enable_irq 8 (disable_irq 8 r.pic)) 8
line_up r v =
    Masks.enable_irq-IsEnabled 8 8 (disable_irq 8 r.pic) (Masks.disable_irq-IsValid 8 r.pic v)
      (omega arith) (omega arith) (inl refl)

-- With fuel for the nine halvings of 1024, a byte read from register A, and masks of a byte,
-- `rtc_init` ends; the clock's line is let through; and the last two writes select register A and
-- store rate 6 (1024 Hz) below the high half of what it held.
pub rtc_init_lem :
    (fuel prev_b prev_a : ℕ) (r : Rtc)
    → 9 < fuel
    → prev_a < 256
    → Masks.IsValid r.pic
    → (r' : Rtc) × (rtc_init fuel prev_b prev_a r ≡ some r')
      × IsEnabled r'.pic 8
      × ((older : List Out) × (r'.sent
            ≡ record { byte = prev_a / 16 * 16 + 6; port = rtc_cmos }
              ∷ record { byte = reg_a; port = rtc_cmd }
              ∷ older))
unfolding rtc_init outcome
rtc_init_lem fuel prev_b prev_a r h ha v = (
  outcome prev_b prev_a r,
  rw (rate_1024 fuel h, rtc_init),
  line_up r v,
  (
    outb reg_a rtc_cmd
        (outb (bit_or prev_b 0x40) rtc_cmos (outb reg_b rtc_cmd (outb reg_b rtc_cmd r.sent))),
    ground (arith, low_nibble prev_a ha),
  ),
)
