-- ===== src/SelfTests/Tests.antt =====
-- The kernel's tests on its own tables.
use mp.Prelude.{◌≡◌, refl, ◌↔◌, ℕ, ◌<◌}
use mp.Screen.{Screen}
use mp.Prelude.{[]}
use mp.Paging.{Tables}
use mp.SelfTests.{pass, page_test_present}
use mp.SelfTests.Pages.{IsExpected, page_test_present_iff}
use mp.SelfTests.Clock.{waits, AllOf, rtc_tests_return}
use mp.SelfTests.{rtc_test1, rtc_test2}
use mp.Rtc.{Rtc, done}
use mp.Prelude.Int.{pos}
use mp.Prelude.{List, replicate, length-replicate, zero, suc}

abbrev tables : Tables
tables = record { dt = λ n. 0; pt = λ n. 0; pt_address = 0x3000 }

abbrev screen : Screen
screen = record { screen_x = 0; screen_y = 0; video_mem = λ o. 0; sent = [] }

page_test_present_iff_example :
    ((page_test_present tables screen).0 ≡ pass) ↔ ((i : ℕ) → i < 1024 → IsExpected tables i)
page_test_present_iff_example = page_test_present_iff tables screen

AllOf-replicate : (n m : ℕ) → AllOf m (replicate n (replicate m 0))
AllOf-replicate zero m = tt
AllOf-replicate (suc n) m = (length-replicate m 0, AllOf-replicate n m)

abbrev clock : Rtc
clock = record {
  rtc_freq = 0;
  rtc_interrupt = 0;
  sent = [];
  pic = record { master_mask = 0; slave_mask = 0; sent = [] };
}

-- No gap between the interrupts.
abbrev first : List (List ℕ)
first = replicate 1025 (replicate 32 0)

abbrev second : List (List ℕ)
second = replicate 1025 (replicate 512 0)

rtc_tests_return_example :
    ((r' : Rtc) × (s' : Screen) × (rtc_test1 clock screen (waits first [])
        ≡ (done (pos 0) r' [], s')))
    × ((r' : Rtc) × (s' : Screen) × (rtc_test2 clock screen (waits second [])
          ≡ (done (pos 0) r' [], s')))
rtc_tests_return_example =
    rtc_tests_return clock screen first second [] refl
      (length-replicate 1025 (replicate {A = ℕ} 32 0))
      (length-replicate 1025 (replicate {A = ℕ} 512 0)) (AllOf-replicate 1025 32)
      (AllOf-replicate 1025 512)
