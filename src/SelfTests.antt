-- ===== src/SelfTests.antt =====
-- tests.c: the kernel's own tests of the descriptor table, the page tables and the clock.
pub mod Pages
pub mod Vectors
pub mod Clock
mod Tests
use Prim.Native.String.{String}
use mp.Prelude.{
  ℕ, zero, suc, ◌+◌, ◌-◌, ◌/◌, ◌^◌, Bool, true, false, not, ◌&&◌, ◌||◌, ltb, ◌==◌, if◌then◌else◌,
}
use mp.Prelude.{bit_and, Option, none, some, List, [], ◌∷◌, Memory, update}
use mp.Prelude.Int.{pos}
use mp.Screen.{Screen}
use mp.Strings.{printf, word}
use mp.FileSystem.{◌>>=◌}
use mp.Paging.{Tables, video_mem, pde_p}
use mp.Paging.Access.{translate}
use mp.Idt.{Idt, Descriptor}
use mp.Rtc.{Rtc, Event, Outcome, done, waiting, fault, rtc_open, rtc_write, rtc_close, rtc_read}

abbrev pub pass : ℕ
pass = 1

abbrev pub fail : ℕ
fail = 0

-- A result so far, with the screen that the complaints go to.
abbrev pub complain : Bool → String → ℕ × Screen → ℕ × Screen
complain wrong text (result, s) = if wrong then (fail, printf text [] s) else (result, s)

-- `printf("%d",i)` comes before the complaint.
abbrev pub complain_at : ℕ → Bool → String → ℕ × Screen → ℕ × Screen
complain_at i wrong text (result, s) =
    if wrong then (fail, printf text [] (printf "%d" (word i ∷ []) s)) else (result, s)

unfoldable pub check_first : Tables → ℕ × Screen → ℕ × Screen
check_first t r =
    complain (bit_and (t.dt 0) pde_p == 0 || bit_and (t.dt 1) pde_p == 0)
      "The present value for the first two PDE is false.\n" r

-- The body of the loop, at index `i`.
unfoldable pub check_entries : Tables → ℕ → ℕ × Screen → ℕ × Screen
check_entries t i r =
    let far =
      complain (bit_and (t.dt i) pde_p == 1 && ltb 1 i)
        "Wrong present number of PD present for memory > 8MB\n" r in
    let video =
      complain (not (bit_and (t.pt i) pde_p == 1) && i == video_mem / 2 ^ 12)
        "Wrong present number at video memory PTE\n" far in
    complain_at i (bit_and (t.pt i) pde_p == 1 && not (i == video_mem / 2 ^ 12))
      "Wrong present number for PTE out of video memory\n" video

unfoldable pub check_loop : ℕ → ℕ → Tables → ℕ × Screen → ℕ × Screen
check_loop zero i t r = r
check_loop (suc left) i t r = check_loop left (i + 1) t (check_entries t i r)

unfoldable pub page_test_present : Tables → Screen → ℕ × Screen
page_test_present t s =
    let (result, s₁) = check_loop 1024 0 t (check_first t (pass, s)) in
    (result, printf "The test result is %d" (word result ∷ []) s₁)

-- `ptr[0] = 1` and a read of `ptr[0]`, through the tables; `none` is a page fault, whose handler does
-- not return.
abbrev pub store_byte : Tables → ℕ → ℕ → Memory → Option Memory
store_byte t address value m = translate t address >>= λ a. some (update m a value)

abbrev pub load_byte : Tables → ℕ → Memory → Option ℕ
load_byte t address m = translate t address >>= λ a. some (m a)

abbrev pub video_end : ℕ
video_end = 0x000B8FFF

abbrev pub kernel_offset : ℕ
kernel_offset = 0x00400000

abbrev pub kernel_end : ℕ
kernel_end = 0x007FFFFF

unfoldable pub page_test_margin : Tables → Memory → Screen → Option (ℕ × Memory × Screen)
page_test_margin t m s = do
  m₁ ← store_byte t video_mem 1 m
  a ← load_byte t video_mem m₁
  m₂ ← store_byte t video_end 1 m₁
  b ← load_byte t video_end m₂
  m₃ ← store_byte t kernel_offset 1 m₂
  c ← load_byte t kernel_offset m₃
  some (pass, m₃, printf "The test reuslt is PASS\n" [] s)

-- The four tests that read one byte beyond a border; they say FAIL if the read comes back.
unfoldable pub page_fault_test : ℕ → String → Tables → Memory → Screen → Option (ℕ × Screen)
page_fault_test address text t m s = load_byte t address m >>= λ a. some (fail, printf text [] s)

unfoldable pub page_fault_test1 : Tables → Memory → Screen → Option (ℕ × Screen)
unfolding page_fault_test
page_fault_test1 = page_fault_test (video_mem - 1) "The test reuslt is FAIL\n"

unfoldable pub page_fault_test2 : Tables → Memory → Screen → Option (ℕ × Screen)
unfolding page_fault_test
page_fault_test2 = page_fault_test (video_end + 1) "The test reuslt is PASS\n"

unfoldable pub page_fault_test3 : Tables → Memory → Screen → Option (ℕ × Screen)
unfolding page_fault_test
page_fault_test3 = page_fault_test (kernel_offset - 1) "The test reuslt is PASS\n"

unfoldable pub page_fault_test4 : Tables → Memory → Screen → Option (ℕ × Screen)
unfolding page_fault_test
page_fault_test4 = page_fault_test (kernel_end + 1) "The test reuslt is PASS\n"

-- A vector with a null handler ends the test: `int $15` does not come back. For the keyboard the
-- high half that is looked at is that of 0x20.
abbrev pub is_null : Descriptor → Descriptor → Bool
is_null low high = low.offset_15_00 == 0 && high.offset_31_16 == 0

unfoldable pub vectors_loop : ℕ → ℕ → Idt → Option ℕ
vectors_loop zero i idt = some pass
vectors_loop (suc left) i idt =
    let rest = vectors_loop left (i + 1) idt in if is_null (idt i) (idt i) then none else rest

-- Without the header line that the test prints, which names the function, the file and the line.
unfoldable pub idt_test : Idt → Option ℕ
idt_test idt = vectors_loop 20 0 idt >>= λ result.
    if is_null (idt 0x21) (idt 0x20)
    then none
    else if is_null (idt 0x28) (idt 0x28)
    then none
    else if is_null (idt 0x80) (idt 0x80)
    then none
    else some result

-- The rounds of a test of the clock, with a line printed after each wait.
unfoldable pub wait_loop :
    ℕ → ℕ → (ℕ → Screen → Screen) → Rtc → Screen → List Event → Outcome × Screen
wait_loop zero i print r s es = (done (pos 0) r es, s)
wait_loop (suc left) i print r s es = elim (rtc_read (pos r.rtc_freq) r es) [
  | done z r' rest ↦ wait_loop left (i + 1) print r' (print i s) rest
  | waiting r' ↦ (waiting r', s)
  | fault ↦ (fault, s)
]

unfoldable pub rtc_test1 : Rtc → Screen → List Event → Outcome × Screen
rtc_test1 r s es =
    let s₁ = printf "The present frequency is %dhz.\n" (word 32 ∷ []) s in
    let r₁ = (rtc_write (pos 32) (rtc_open r).1).1 in
    wait_loop 1025 0 (λ i. printf "%d " (word i ∷ [])) r₁ s₁ es

unfoldable pub rtc_test2 : Rtc → Screen → List Event → Outcome × Screen
rtc_test2 r s es =
    let s₁ = printf "The present frequency is %dhz.\n" (word 2 ∷ []) s in
    wait_loop 1025 0 (λ i. printf "1 " []) (rtc_open r).1 s₁ es
