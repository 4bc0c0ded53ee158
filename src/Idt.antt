-- ===== src/Idt.antt =====
-- idt.c: the interrupt descriptor table as `idt_init` fills it, and the handlers of the exceptions.
pub mod Entries
mod Tests
use Prim.Native.String.{String}
use mp.Prelude.{ℕ, zero, suc, ◌+◌, ◌/◌, ◌%◌, ◌^◌, ◌==◌, if◌then◌else◌, List, [], ◌∷◌, get_or, map}
use mp.Screen.{Screen}
use mp.Strings.{codes, printf, text}

abbrev pub num_exception : ℕ
num_exception = 20

abbrev pub itr_rtc : ℕ
itr_rtc = 0x28

abbrev pub itr_keyboard : ℕ
itr_keyboard = 0x21

abbrev pub idt_size : ℕ
idt_size = 256

abbrev pub system_call : ℕ
system_call = 0x80

abbrev pub kernel_cs : ℕ
kernel_cs = 0x10

-- The fields of a descriptor that the code sets.
pub record Descriptor : Type 0 where
  pub offset_15_00 : ℕ
  pub seg_selector : ℕ
  pub reserved3 : ℕ
  pub reserved2 : ℕ
  pub reserved1 : ℕ
  pub size : ℕ
  pub reserved0 : ℕ
  pub dpl : ℕ
  pub present : ℕ
  pub offset_31_16 : ℕ

abbrev pub Idt : Type 0
Idt = ℕ → Descriptor

-- `idt[k]` replaced by what `f` makes of it.
abbrev pub modify : ℕ → (Descriptor → Descriptor) → Idt → Idt
modify k f idt = λ n. if n == k then f (idt n) else idt n

-- The addresses of the handlers, which the linker gives: `e0`, …, `e19` by number, the two interrupt
-- wrappers and the entry of the system calls.
pub record Handlers : Type 0 where
  pub exceptions : ℕ → ℕ
  pub rtc_irq_wrap : ℕ
  pub keyboard_irq_wrap : ℕ
  pub systemcall : ℕ

-- `SET_IDT_ENTRY`.
abbrev pub set_idt_entry : ℕ → Descriptor → Descriptor
set_idt_entry handler d = record d {
  offset_31_16 = handler / 2 ^ 16 % 2 ^ 16;
  offset_15_00 = handler % 2 ^ 16;
}

abbrev pub closed : Descriptor → Descriptor
closed d = record d {
  seg_selector = kernel_cs;
  reserved3 = 1;
  reserved2 = 1;
  reserved1 = 1;
  size = 1;
  reserved0 = 0;
  dpl = 0;
  present = 0;
}

-- The first loop, from entry `k` on.
unfoldable pub close_all : ℕ → ℕ → Idt → Idt
close_all zero k idt = idt
close_all (suc left) k idt = close_all left (k + 1) (modify k closed idt)

-- The twenty entries of the exceptions, in their order.
unfoldable pub set_exceptions : ℕ → ℕ → (ℕ → ℕ) → Idt → Idt
set_exceptions zero k e idt = idt
set_exceptions (suc left) k e idt =
    set_exceptions left (k + 1) e (modify k (set_idt_entry (e k)) idt)

-- The second loop.
unfoldable pub open_exceptions : ℕ → ℕ → Idt → Idt
open_exceptions zero k idt = idt
open_exceptions (suc left) k idt =
    open_exceptions left (k + 1) (modify k (λ d. record d { present = 1 }) idt)

unfoldable pub idt_init : Handlers → Idt → Idt
idt_init h idt =
    let closed_idt = close_all idt_size 0 idt in
    let exceptions =
      open_exceptions num_exception 0 (set_exceptions num_exception 0 h.exceptions closed_idt) in
    let rtc =
      modify itr_rtc (λ d. record (set_idt_entry h.rtc_irq_wrap d) { reserved3 = 0; present = 1 })
        exceptions in
    let keyboard =
      modify itr_keyboard
        (λ d. record (set_idt_entry h.keyboard_irq_wrap d) { reserved3 = 0; present = 1 }) rtc in
    modify system_call (λ d. record (set_idt_entry h.systemcall d) { dpl = 3; present = 1 })
      keyboard

abbrev pub idt_name_table : List (List ℕ)
idt_name_table =
    codes "Divide Error"
    ∷ codes "RESERVED"
    ∷ codes "NMI Interrupt"
    ∷ codes "Breakpoint"
    ∷ codes "Overflow"
    ∷ codes "BOUND Range Exceeded"
    ∷ codes "Invalid Opcode"
    ∷ codes "Device Not Available"
    ∷ codes "Double Fault"
    ∷ codes "e10 Reserved"
    ∷ codes "Invalid TSS"
    ∷ codes "Segment Not Present"
    ∷ codes "Stack-Segment Fault"
    ∷ codes "General Protection"
    ∷ codes "Page Fault"
    ∷ codes "e15 Reserved"
    ∷ codes "x87 FPU Floating-Point Error"
    ∷ codes "Alignment Check"
    ∷ codes "Machine Check"
    ∷ codes "SIMD Floating-Point Exception"
    ∷ []

-- `e0`, …, `e19`: what each prints before its endless loop.
unfoldable pub exception_handler : ℕ → Screen → Screen
exception_handler n s =
    printf "Error Description: %s\n" (text (get_or idt_name_table n []) ∷ [])
      (printf "Error\n" [] s)
