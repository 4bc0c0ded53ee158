-- ===== src/Idt/Entries.antt =====
-- What the descriptor table holds after `idt_init`.
use mp.Prelude.{ℕ, zero, suc, ◌+◌, ◌*◌, ◌/◌, ◌%◌, ◌^◌, ◌<◌, ◌≡◌, ap, arith}
use mp.Prelude.{◌&&◌, ◌||◌, leb, ltb, ◌==◌, Bool, if◌then◌else◌}
use mp.Idt.{Descriptor, Idt, Handlers, modify, closed, set_idt_entry, close_all, set_exceptions}
use mp.Idt.{open_exceptions, idt_init, kernel_cs}

abbrev made_present : Descriptor → Descriptor
made_present d = record d { present = 1 }

close_all-at :
    (left k : ℕ) (idt : Idt) (n : ℕ)
    → close_all left k idt n ≡ (if leb k n && ltb n (k + left) then closed (idt n) else idt n)
unfolding close_all
close_all-at zero k idt n = ground arith
close_all-at (suc left) k idt n = ground (arith, close_all-at left (k + 1) (modify k closed idt) n)

set_exceptions-at :
    (left k : ℕ) (e : ℕ → ℕ) (idt : Idt) (n : ℕ)
    → set_exceptions left k e idt n
      ≡ (if leb k n && ltb n (k + left) then set_idt_entry (e n) (idt n) else idt n)
unfolding set_exceptions
set_exceptions-at zero k e idt n = ground arith
set_exceptions-at (suc left) k e idt n = ground (
  arith,
  set_exceptions-at left (k + 1) e (modify k (set_idt_entry (e k)) idt) n,
  ap e {x = n} {y = k},
)

open_exceptions-at :
    (left k : ℕ) (idt : Idt) (n : ℕ)
    → open_exceptions left k idt n
      ≡ (if leb k n && ltb n (k + left) then made_present (idt n) else idt n)
unfolding open_exceptions
open_exceptions-at zero k idt n = ground arith
open_exceptions-at (suc left) k idt n =
    ground (arith, open_exceptions-at left (k + 1) (modify k made_present idt) n)

-- The handler that belongs to a vector.
unfoldable pub handler : Handlers → ℕ → ℕ
handler h n =
    if n == 0x28
    then h.rtc_irq_wrap
    else if n == 0x21
    then h.keyboard_irq_wrap
    else if n == 0x80
    then h.systemcall
    else h.exceptions n

-- Whether a vector has a handler.
unfoldable pub serves : ℕ → Bool
serves n = ltb n 20 || n == 0x21 || n == 0x28 || n == 0x80

-- One entry, as the statements of `idt_init` leave it.
entry : Handlers → ℕ → Descriptor → Descriptor
entry h n d =
    if n == 0x80
    then record (set_idt_entry h.systemcall (closed d)) { dpl = 3; present = 1 }
    else if n == 0x21
    then record (set_idt_entry h.keyboard_irq_wrap (closed d)) { reserved3 = 0; present = 1 }
    else if n == 0x28
    then record (set_idt_entry h.rtc_irq_wrap (closed d)) { reserved3 = 0; present = 1 }
    else if ltb n 20
    then made_present (set_idt_entry (h.exceptions n) (closed d))
    else closed d

exceptions-at :
    (h : Handlers) (idt : Idt) (n : ℕ)
    → n < 256
    → open_exceptions 20 0 (set_exceptions 20 0 h.exceptions (close_all 256 0 idt)) n ≡ (
        if ltb n 20
        then made_present (set_idt_entry (h.exceptions n) (closed (idt n)))
        else closed (idt n))
exceptions-at h idt n lt =
    let first = close_all 256 0 idt in
    let second = set_exceptions 20 0 h.exceptions first in
    ground (
      arith,
      close_all-at 256 0 idt n,
      set_exceptions-at 20 0 h.exceptions first n,
      open_exceptions-at 20 0 second n,
    )

idt_init-at : (h : Handlers) (idt : Idt) (n : ℕ) → n < 256 → idt_init h idt n ≡ entry h n (idt n)
unfolding idt_init entry
idt_init-at h idt n lt = ground (arith, exceptions-at h idt n lt)

-- After `idt_init`, every entry below 256 is of the kernel's code segment; the entries that are
-- present are those of the twenty exceptions, of the two devices and of the system calls, and each
-- holds the 32-bit address of its own handler, where the others keep what they had; only the one of
-- the system calls is open to the user level; and only the devices' have the third reserved bit clear.
pub idt_init_lem :
    (h : Handlers) (idt : Idt) (n : ℕ)
    → n < 256
    → ((idt_init h idt n).seg_selector ≡ kernel_cs)
      × ((idt_init h idt n).present ≡ (if serves n then 1 else 0))
      × ((idt_init h idt n).offset_31_16 * 2 ^ 16 + (idt_init h idt n).offset_15_00 ≡ (
          if serves n
          then handler h n % 2 ^ 32
          else (idt n).offset_31_16 * 2 ^ 16 + (idt n).offset_15_00))
      × ((idt_init h idt n).dpl ≡ (if n == 0x80 then 3 else 0))
      × ((idt_init h idt n).reserved3 ≡ (if n == 0x21 || n == 0x28 then 0 else 1))
unfolding handler entry serves
idt_init_lem h idt n lt = rw (idt_init-at h idt n lt) ground arith

-- The halves of the handler's address, in an entry that has one; the others keep theirs.
pub idt_init-halves :
    (h : Handlers) (idt : Idt) (n : ℕ)
    → n < 256
    → ((idt_init h idt n).offset_15_00
        ≡ (if serves n then handler h n % 2 ^ 16 else (idt n).offset_15_00))
      × ((idt_init h idt n).offset_31_16
          ≡ (if serves n then handler h n / 2 ^ 16 % 2 ^ 16 else (idt n).offset_31_16))
unfolding handler entry serves
idt_init-halves h idt n lt = rw (idt_init-at h idt n lt) ground arith

pub handler-exception : (h : Handlers) (n : ℕ) → n < 20 → handler h n ≡ h.exceptions n
unfolding handler
handler-exception h n lt = ground arith
