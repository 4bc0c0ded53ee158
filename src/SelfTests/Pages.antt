-- ===== src/SelfTests/Pages.antt =====
-- The tests of the page tables, against the tables.
use mp.Prelude.{
  ℕ, zero, suc, ◌+◌, ◌/◌, ◌%◌, ◌^◌, ◌≤◌, ◌<◌, ◌≡◌, refl, ◌⊎◌, inl, inr, ◌↔◌, ◌∙◌, ap, arith,
}
use mp.Prelude.{true, ltb, ◌==◌, if◌then◌else◌, bit_and, Memory, update, none, some}
use mp.Prelude.{[], Bool-cases, ℕ_discrete}
use mathlib.Core.Path.{subst}
use Prim.Native.Nat.{bit_and-bitwise, digits, min}
use mp.Screen.{Screen}
use mp.Strings.{printf}
use mp.Paging.{Tables, paging_init}
use mp.Paging.Access.{paging_init-translate}
use mp.Paging.Entries.{paging_init_lem}
use mp.SelfTests.{check_first, check_entries, check_loop, page_test_present, page_test_margin, pass}
use mp.SelfTests.{page_fault_test1, page_fault_test2, page_fault_test3, page_fault_test4}

and_digits-zero : (n a : ℕ) → digits (λ b. 0) min n a 0 ≡ 0
and_digits-zero zero a = refl
and_digits-zero (suc n) zero = refl
and_digits-zero (suc n) (suc a) = omega (arith, and_digits-zero n (suc a / 2))

-- A test of the lowest bit.
present_bit : (x : ℕ) → bit_and x 1 ≡ x % 2
present_bit zero = bit_and-bitwise 0 1
present_bit (suc a) = omega (arith, bit_and-bitwise (suc a) 1, and_digits-zero a (suc a / 2))

-- What the test demands of index `i`: only the first two entries of the directory are present, and
-- of the table only that of the video memory.
abbrev pub IsExpected : Tables → ℕ → Type 0
IsExpected t i =
    (t.dt i % 2 ≡ (if ltb i 2 then 1 else 0)) × (t.pt i % 2 ≡ (if i == 0xB8 then 1 else 0))

-- One index from 2 on; those below are the first check's as to the directory.
abbrev IsSound : Tables → ℕ → Type 0
IsSound t i = (ltb i 2 ≡ true ⊎ t.dt i % 2 ≡ 0) × (t.pt i % 2 ≡ (if i == 0xB8 then 1 else 0))

check_entries-pass : (t : Tables) (i : ℕ) (r : ℕ × Screen) → IsSound t i → check_entries t i r ≡ r
unfolding check_entries
check_entries-pass t i (result, s) h = ground (arith, present_bit (t.dt i), present_bit (t.pt i))

check_entries-fail :
    (t : Tables) (i : ℕ) (r : ℕ × Screen) → (check_entries t i r).0 ≡ 1 → IsSound t i × (r.0 ≡ 1)
unfolding check_entries
check_entries-fail t i (result, s) h = ground (arith, present_bit (t.dt i), present_bit (t.pt i))

check_loop-pass :
    (left i : ℕ) (t : Tables) (r : ℕ × Screen)
    → ((j : ℕ) → i ≤ j → j < i + left → IsSound t j)
    → check_loop left i t r ≡ r
unfolding check_loop
check_loop-pass zero i t r h = refl
check_loop-pass (suc left) i t r h =
    check_loop-pass left (i + 1) t (check_entries t i r) (λ j a b. h j (omega arith) (omega arith))
    ∙ check_entries-pass t i r (h i (omega arith) (omega arith))

check_loop-fail :
    (left i : ℕ) (t : Tables) (r : ℕ × Screen)
    → (check_loop left i t r).0 ≡ 1
    → (r.0 ≡ 1) × ((j : ℕ) → i ≤ j → j < i + left → IsSound t j)
unfolding check_loop
check_loop-fail zero i t r h = (h, λ j a b. absurd (omega arith))
check_loop-fail (suc left) i t r h =
    let (one, rest) = check_loop-fail left (i + 1) t (check_entries t i r) h in
    let (sound, kept) = check_entries-fail t i r one in
    (
      kept,
      λ j a b. elim (ℕ_discrete i j) [
        | yes e ↦ subst (IsSound t) e sound
        | no ne ↦ rest j (omega arith) (omega arith)
      ],
    )

check_first_iff :
    (t : Tables) (s : Screen)
    → ((check_first t (1, s)).0 ≡ 1) ↔ ((t.dt 0 % 2 ≡ 1) × (t.dt 1 % 2 ≡ 1))
unfolding check_first
check_first_iff t s =
    (λ h. forth h, λ h. ground (arith, h, present_bit (t.dt 0), present_bit (t.dt 1)))
  where
    forth : (check_first t (1, s)).0 ≡ 1 → (t.dt 0 % 2 ≡ 1) × (t.dt 1 % 2 ≡ 1)
    forth h = ground (arith, present_bit (t.dt 0), present_bit (t.dt 1))

IsSound-of : (t : Tables) (i : ℕ) → IsExpected t i → IsSound t i
IsSound-of t i h = elim (Bool-cases (ltb i 2)) [
  | inl low ↦ (inl low, h.1)
  | inr high ↦ (inr (ground (arith, h, high)), h.1)
]

IsExpected-of :
    (t : Tables) (i : ℕ) → t.dt 0 % 2 ≡ 1 → t.dt 1 % 2 ≡ 1 → IsSound t i → IsExpected t i
IsExpected-of t i a b h = ground (arith, a, b, h, ap t.dt {x = i} {y = 0}, ap t.dt {x = i} {y = 1})

-- The test of the page tables answers PASS exactly if, at every index below 1024, the directory's
-- entry is present for the first two alone, and the table's for the video memory alone.
pub page_test_present_iff :
    (t : Tables) (s : Screen)
    → ((page_test_present t s).0 ≡ pass) ↔ ((i : ℕ) → i < 1024 → IsExpected t i)
unfolding page_test_present
page_test_present_iff t s = (λ h i lt. forth h i lt, λ h. back h)
  where
    forth : (page_test_present t s).0 ≡ 1 → (i : ℕ) → i < 1024 → IsExpected t i
    forth h i lt =
        let (one, sound) = check_loop-fail 1024 0 t (check_first t (1, s)) h in
        let (a, b) = (check_first_iff t s).0 one in
        IsExpected-of t i a b (sound i (omega arith) (omega arith))

    back : ((i : ℕ) → i < 1024 → IsExpected t i) → (page_test_present t s).0 ≡ 1
    back h =
        ap (λ (r : ℕ × Screen). r.0)
          (check_loop-pass 1024 0 t (check_first t (1, s))
            (λ j a b. IsSound-of t j (h j (omega arith))))
        ∙ (check_first_iff t s).1 ((h 0 (omega arith)).0, (h 1 (omega arith)).0)

-- With a page table at an aligned 32-bit address, what `paging_init` makes passes the test.
pub paging_init-page_test_present :
    (t : Tables) (s : Screen)
    → t.pt_address % 4096 ≡ 0
    → t.pt_address < 2 ^ 32
    → (page_test_present (paging_init t) s).0 ≡ pass
paging_init-page_test_present t s al lt =
    (page_test_present_iff (paging_init t) s).1 (λ i h. ground (arith, paging_init_lem t i h al lt))

-- After `paging_init`, with a page table at an aligned 32-bit address, none of the four reads beyond
-- a border comes back, and the test of the borders passes: it leaves a 1 in the first and the last
-- byte of the video memory and in the kernel's first byte.
pub paging_init-borders :
    (t : Tables) (m : Memory) (s : Screen)
    → t.pt_address % 4096 ≡ 0
    → t.pt_address < 2 ^ 32
    → (page_fault_test1 (paging_init t) m s ≡ none)
      × (page_fault_test2 (paging_init t) m s ≡ none)
      × (page_fault_test3 (paging_init t) m s ≡ none)
      × (page_fault_test4 (paging_init t) m s ≡ none)
      × (page_test_margin (paging_init t) m s
          ≡ some (
            pass,
            update (update (update m 0xB8000 1) 0xB8FFF 1) 0x400000 1,
            printf "The test reuslt is PASS\n" [] s,
          ))
unfolding page_fault_test1 page_fault_test2 page_fault_test3 page_fault_test4 page_test_margin
paging_init-borders t m s al lt = (
  rw (paging_init-translate t 0xB7FFF al lt (omega arith)) refl,
  rw (paging_init-translate t 0xB9000 al lt (omega arith)) refl,
  rw (paging_init-translate t 0x3FFFFF al lt (omega arith)) refl,
  rw (paging_init-translate t 0x800000 al lt (omega arith)) refl,
  rw (paging_init-translate t 0xB8000 al lt (omega arith)) (
      rw (paging_init-translate t 0xB8FFF al lt (omega arith))
        (rw (paging_init-translate t 0x400000 al lt (omega arith)) refl)),
)
