-- ===== src/SelfTests/Vectors.antt =====
-- The test of the descriptor table, after `idt_init`.
use mp.Prelude.{ℕ, zero, suc, ◌+◌, ◌%◌, ◌^◌, ◌≤◌, ◌<◌, ◌≡◌, refl, ◌≢◌, ◌∙◌, arith}
use mp.Prelude.{true, false, ◌&&◌, ◌==◌, if◌then◌else◌, some, none}
use mp.Idt.{Idt, Handlers, idt_init}
use mp.Idt.Entries.{handler, serves, idt_init-halves, handler-exception}
use mp.SelfTests.{is_null, vectors_loop, idt_test, pass}

vectors_loop-pass :
    (left i : ℕ) (idt : Idt)
    → ((j : ℕ) → i ≤ j → j < i + left → is_null (idt j) (idt j) ≡ false)
    → vectors_loop left i idt ≡ some pass
unfolding vectors_loop
vectors_loop-pass zero i idt h = refl
vectors_loop-pass (suc left) i idt h =
    rw (h i (omega arith) (omega arith))
      (vectors_loop-pass left (i + 1) idt (λ j a b. h j (omega arith) (omega arith)))

-- A vector with a handler whose address is not null is not taken for null.
not_null :
    (h : Handlers) (idt : Idt) (n : ℕ)
    → n < 256
    → serves n ≡ true
    → handler h n % 2 ^ 32 ≢ 0
    → is_null (idt_init h idt n) (idt_init h idt n) ≡ false
not_null h idt n lt s ne =
    let (low, high) = idt_init-halves h idt n lt in ground (arith, low, high, s, ne)

keyboard_test :
    (h : Handlers) (idt : Idt)
    → is_null (idt_init h idt 0x21) (idt_init h idt 0x20)
      ≡ (h.keyboard_irq_wrap % 2 ^ 16 == 0 && (idt 0x20).offset_31_16 == 0)
unfolding handler serves
keyboard_test h idt =
    rw ((idt_init-halves h idt 0x21 (omega arith)).0, (idt_init-halves h idt 0x20 (omega arith)).1)
      refl

exceptions_pass :
    (h : Handlers) (idt : Idt)
    → ((n : ℕ) → n < 20 → h.exceptions n % 2 ^ 32 ≢ 0)
    → vectors_loop 20 0 (idt_init h idt) ≡ some pass
unfolding serves
exceptions_pass h idt ne = vectors_loop-pass 20 0 (idt_init h idt) (λ j a b.
    not_null h idt j (omega arith) (ground (arith, b))
      (rw (handler-exception h j (omega arith)) (ne j (omega arith))))

after_exceptions :
    (idt : Idt)
    → vectors_loop 20 0 idt ≡ some pass
    → idt_test idt ≡ (
        if is_null (idt 0x21) (idt 0x20)
        then none
        else if is_null (idt 0x28) (idt 0x28)
        then none
        else if is_null (idt 0x80) (idt 0x80)
        then none
        else some pass)
unfolding idt_test
after_exceptions idt e = rw e refl

-- If no handler's 32-bit address is 0, and the low half of the keyboard's is not, the table that
-- `idt_init` makes passes the test.
pub idt_init-idt_test :
    (h : Handlers) (idt : Idt)
    → ((n : ℕ) → n < 20 → h.exceptions n % 2 ^ 32 ≢ 0)
    → h.keyboard_irq_wrap % 2 ^ 16 ≢ 0
    → h.rtc_irq_wrap % 2 ^ 32 ≢ 0
    → h.systemcall % 2 ^ 32 ≢ 0
    → idt_test (idt_init h idt) ≡ some pass
unfolding handler serves
idt_init-idt_test h idt exceptions keyboard rtc call =
    after_exceptions (idt_init h idt) (exceptions_pass h idt exceptions)
    ∙ rw (keyboard_test h idt) (
        rw (not_null h idt 0x28 (omega arith) refl rtc)
          (rw (not_null h idt 0x80 (omega arith) refl call) (ground (arith, keyboard))))

-- The test looks at the high half of the vector 0x20 for that of 0x21: with handlers of the
-- exceptions, the keyboard's at a multiple of 65536, and a vector 0x20 without a high half, it never
-- returns, though the keyboard's handler is not null.
pub idt_test_false_alarm :
    (h : Handlers) (idt : Idt)
    → ((n : ℕ) → n < 20 → h.exceptions n % 2 ^ 32 ≢ 0)
    → h.keyboard_irq_wrap % 2 ^ 16 ≡ 0
    → (idt 0x20).offset_31_16 ≡ 0
    → idt_test (idt_init h idt) ≡ none
idt_test_false_alarm h idt exceptions keyboard old =
    after_exceptions (idt_init h idt) (exceptions_pass h idt exceptions)
    ∙ rw (keyboard_test h idt) (ground (arith, keyboard, old))
