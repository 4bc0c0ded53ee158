-- ===== src/Rtc/Tests.antt =====
-- The clock at concrete frequencies and schedules.
use mp.Prelude.{◌+◌, ◌≡◌, refl, ◌≢◌, arith, some, none, [], ◌∷◌}
use mp.Prelude.Int.{pos, success}
use mp.Pic.{Pic}
use mp.Rtc.{Rtc, interrupt, look, done, fault, get_rate, rtc_read}
use mp.Rtc.Rate.{get_rate_diverges}
use mp.Rtc.Read.{Waited, interrupts, spread, rtc_read-Waited, rtc_read_returns}

abbrev pic : Pic
pic = record { master_mask = 0xFB; slave_mask = 0; sent = [] }

abbrev slow : Rtc
slow = record { rtc_freq = 512; rtc_interrupt = 0; sent = []; pic = pic }

-- 48 halves to 3.
get_rate_diverges_example : get_rate 1000 (pos 48) ≡ none
get_rate_diverges_example = get_rate_diverges 48 4 (omega arith) (omega arith) refl 1000

get_rate_32 : get_rate 10 (pos 32) ≡ some (pos 11)
unfolding get_rate
get_rate_32 = refl

-- Two interrupts are needed at 512 Hz.
rtc_read-Waited_example :
    Waited 2
      (0 + interrupts (interrupt ∷ look ∷ look ∷ interrupt ∷ look ∷ interrupt ∷ []))
      (rtc_read (pos 2) slow (interrupt ∷ look ∷ look ∷ interrupt ∷ look ∷ interrupt ∷ []))
    × (rtc_read (pos 2) slow (interrupt ∷ look ∷ look ∷ interrupt ∷ look ∷ interrupt ∷ []) ≢ fault)
rtc_read-Waited_example =
    rtc_read-Waited (pos 2) slow (interrupt ∷ look ∷ look ∷ interrupt ∷ look ∷ interrupt ∷ [])
      (omega arith) (omega arith)

rtc_read_returns_example :
    (r' : Rtc) × (rtc_read (pos 2) slow (spread (1 ∷ 0 ∷ []) (look ∷ []))
      ≡ done success r' (look ∷ []))
rtc_read_returns_example =
    rtc_read_returns (pos 2) slow (1 ∷ 0 ∷ []) (look ∷ []) (omega arith) refl refl
