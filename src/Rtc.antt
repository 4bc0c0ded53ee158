-- ===== src/Rtc.antt =====
-- RTC.c: the real-time clock, its virtual frequency, and the wait of `rtc_read`.
pub mod Rate
pub mod Read
pub mod Init
mod Tests
use mp.Prelude.{ℕ, zero, suc, ◌/◌, ◌≡◌, Bool, ◌||◌, ◌==◌, if◌then◌else◌, bit_and, bit_or}
use mp.Prelude.{Option, none, some, List, [], ◌∷◌, Trace, outb}
use mp.Prelude.Int.{ℤ, pos, failure, success, pos_part, pred_ℤ, ltb_ℤ}
use mp.Pic.{Pic, enable_irq, disable_irq, send_eoi}

abbrev pub rtc_cmd : ℕ
rtc_cmd = 0x70

abbrev pub rtc_cmos : ℕ
rtc_cmos = 0x71

abbrev pub reg_a : ℕ
reg_a = 0x8A

abbrev pub reg_b : ℕ
reg_b = 0x8B

abbrev pub reg_c : ℕ
reg_c = 0x8C

abbrev pub rtc_irq_index : ℕ
rtc_irq_index = 8

-- `issue.rtc_freq`, `rtc_interrupt`, what the clock's ports have received, and the controllers.
-- The frequency is 0 before the first `rtc_open`, as any global is.
pub record Rtc : Type 0 where
  pub rtc_freq : ℕ
  pub rtc_interrupt : ℕ
  pub sent : Trace
  pub pic : Pic

-- `while( freq != 2 ){ freq /= 2; ret --; }` with fuel; `none` means that it is still running.
unfoldable pub rate_loop : ℕ → ℕ → ℤ → Option ℤ
rate_loop zero freq ret = none
rate_loop (suc fuel) freq ret =
    let rest = rate_loop fuel (freq / 2) (pred_ℤ ret) in if freq == 2 then some ret else rest

abbrev out_of_range : ℤ → Bool
out_of_range freq = ltb_ℤ freq (pos 2) || ltb_ℤ (pos 1024) freq

unfoldable pub get_rate : ℕ → ℤ → Option ℤ
unfolding rate_loop
get_rate fuel freq =
    if out_of_range freq then some failure else rate_loop fuel (pos_part freq) (pos 15)

unfoldable pub rtc_open : Rtc → ℤ × Rtc
rtc_open r = (success, record r { rtc_freq = 2 })

unfoldable pub rtc_close : Rtc → ℤ × Rtc
rtc_close r = (success, r)

unfoldable pub rtc_write : ℤ → Rtc → ℤ × Rtc
rtc_write freq r =
    if out_of_range freq then (failure, r) else (pos 1, record r { rtc_freq = pos_part freq })

unfoldable pub rtc_interrupt_handler : Rtc → Rtc
rtc_interrupt_handler r = record r {
  rtc_interrupt = 1;
  sent = outb reg_c rtc_cmd r.sent;
  pic = send_eoi rtc_irq_index r.pic;
}

-- What happens while `rtc_read` waits: the clock interrupts, or the loop looks at the flag.
pub data Event : Type 0 where
  interrupt look : Event

-- `done` has the events that are left; `waiting` ran out of them; `fault` is the division by the
-- frequency 0.
pub data Outcome : Type 0 where
  done : ℤ → Rtc → List Event → Outcome
  waiting : Rtc → Outcome
  fault : Outcome

-- The rounds of `rtc_read` that are left. A look that finds the flag set resets it, between `cli`
-- and `sti`, and ends the round.
read_loop : ℕ → Rtc → List Event → Outcome
read_loop zero r es = done success r es
read_loop (suc n) r [] = waiting r
read_loop (suc n) r (interrupt ∷ es) = read_loop (suc n) (rtc_interrupt_handler r) es
read_loop (suc n) r (look ∷ es) =
    let next = read_loop n (record r { rtc_interrupt = 0 }) es in
    let again = read_loop (suc n) r es in if r.rtc_interrupt == 0 then again else next

-- The argument `freq` is not used.
unfoldable pub rtc_read : ℤ → Rtc → List Event → Outcome
unfolding read_loop
rtc_read freq r es = if r.rtc_freq == 0 then fault else read_loop (1024 / r.rtc_freq) r es

-- `rtc_init`. The bytes read from registers B and A are given; `none` means that the loop of
-- `get_rate` is still running. The rate, or -1, is or-ed in as its low byte.
rate_byte : ℤ → ℕ
rate_byte (pos n) = n
rate_byte _ = 0xFF

unfoldable pub rtc_init : ℕ → ℕ → ℕ → Rtc → Option Rtc
unfolding rate_byte
rtc_init fuel prev_b prev_a r = elim (get_rate fuel (pos 1024)) [
  | none ↦ none
  | some rate ↦ some (record r {
    pic = enable_irq rtc_irq_index (disable_irq rtc_irq_index r.pic);
    sent = outb (bit_or (bit_and prev_a 0xF0) (rate_byte rate)) rtc_cmos (
        outb reg_a rtc_cmd (
          outb reg_a rtc_cmd
            (outb (bit_or prev_b 0x40) rtc_cmos (outb reg_b rtc_cmd (outb reg_b rtc_cmd r.sent)))));
  })
]
