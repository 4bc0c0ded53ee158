-- ===== src/SelfTests/Clock.antt =====
-- The tests of the clock, for interrupts that are each seen before the next.
use mp.Prelude.{ℕ, suc, ◌+◌, ◌/◌, ◌≡◌, refl, ◌∙◌, sym, ap, arith, List, [], ◌∷◌, length}
use mp.Prelude.Int.{pos}
use mp.Screen.{Screen}
use mp.Rtc.{Rtc, Event, done, rtc_read, rtc_open, rtc_write}
use mp.Rtc.Read.{IsValid, spread, rtc_read-spread}
use mp.SelfTests.{wait_loop, rtc_test1, rtc_test2}

-- The events of one wait after another, each with its gaps.
abbrev pub waits : List (List ℕ) → List Event → List Event
waits [] rest = rest
waits (gaps ∷ more) rest = spread gaps (waits more rest)

-- Each wait has as many interrupts as its frequency asks for.
abbrev pub AllOf : ℕ → List (List ℕ) → Type 0
AllOf n [] = Unit
AllOf n (gaps ∷ more) = (length gaps ≡ n) × AllOf n more

wait_loop-go :
    (left i : ℕ) (print : ℕ → Screen → Screen) (r r' : Rtc) (s : Screen) (es rest : List Event)
    → rtc_read (pos r.rtc_freq) r es ≡ done (pos 0) r' rest
    → wait_loop (suc left) i print r s es ≡ wait_loop left (i + 1) print r' (print i s) rest
unfolding wait_loop
wait_loop-go left i print r r' s es rest e = rw (e, wait_loop) refl

wait_loop-returns :
    (gapss : List (List ℕ)) (i : ℕ) (print : ℕ → Screen → Screen) (r : Rtc) (s : Screen)
    (rest : List Event)
    → IsValid r
    → r.rtc_interrupt ≡ 0
    → AllOf (1024 / r.rtc_freq) gapss
    → (r' : Rtc) × (s' : Screen) × (wait_loop (length gapss) i print r s (waits gapss rest)
        ≡ (done (pos 0) r' rest, s'))
wait_loop-returns [] i print r s rest v z h = (r, s, unfold wait_loop in refl)
wait_loop-returns (gaps ∷ more) i print r s rest v z h =
    let (r₁, e, z₁, f) = rtc_read-spread (pos r.rtc_freq) r gaps (waits more rest) v z h.0 in
    let (r', s', e') =
      wait_loop-returns more (i + 1) print r₁ (print i s) rest (rw f v) z₁ (rw f h.1) in
    (
      r',
      s',
      wait_loop-go (length more) i print r r₁ s (spread gaps (waits more rest)) (waits more rest) e
          ∙ e',
    )

-- The same for a number of rounds given otherwise.
rounds_return :
    (n : ℕ) (gapss : List (List ℕ)) (print : ℕ → Screen → Screen) (r : Rtc) (s : Screen)
    (rest : List Event)
    → length gapss ≡ n
    → IsValid r
    → r.rtc_interrupt ≡ 0
    → AllOf (1024 / r.rtc_freq) gapss
    → (r' : Rtc) × (s' : Screen) × (wait_loop n 0 print r s (waits gapss rest)
        ≡ (done (pos 0) r' rest, s'))
rounds_return n gapss print r s rest e v z h =
    let (r', s', done_all) = wait_loop-returns gapss 0 print r s rest v z h in
    (r', s', ap (λ (k : ℕ). wait_loop k 0 print r s (waits gapss rest)) (sym e) ∙ done_all)

-- With no interrupt pending, the first test, at 32 Hz, ends after 1025 waits of 32 interrupts, the
-- second, at 2 Hz, after 1025 waits of 512, however long the gaps between the interrupts.
pub rtc_tests_return :
    (r : Rtc) (s : Screen) (first second : List (List ℕ)) (rest : List Event)
    → r.rtc_interrupt ≡ 0
    → length first ≡ 1025
    → length second ≡ 1025
    → AllOf 32 first
    → AllOf 512 second
    → ((r' : Rtc) × (s' : Screen) × (rtc_test1 r s (waits first rest) ≡ (done (pos 0) r' rest, s')))
      × ((r' : Rtc) × (s' : Screen) × (rtc_test2 r s (waits second rest)
            ≡ (done (pos 0) r' rest, s')))
unfolding rtc_test1 rtc_test2 rtc_open rtc_write
rtc_tests_return r s first second rest z l₁ l₂ h₁ h₂ = (
  rounds_return 1025 first _ (record r { rtc_freq = 32 }) _ rest l₁ (omega arith) z h₁,
  rounds_return 1025 second _ (record r { rtc_freq = 2 }) _ rest l₂ (omega arith) z h₂,
)
