-- ===== src/Idt/Tests.antt =====
-- A vector of the table after `idt_init`.
use mp.Prelude.{◌*◌, ◌+◌, ◌%◌, ◌^◌, ◌≡◌, arith, if◌then◌else◌}
use mp.Idt.{Idt, Handlers, idt_init, kernel_cs}
use mp.Idt.Entries.{handler, serves, idt_init_lem}

abbrev handlers : Handlers
handlers = record {
  exceptions = λ n. 0x401000 + 16 * n;
  rtc_irq_wrap = 0x402000;
  keyboard_irq_wrap = 0x402010;
  systemcall = 0x402020;
}

abbrev zeros : Idt
zeros n = record {
  offset_15_00 = 0;
  seg_selector = 0;
  reserved3 = 0;
  reserved2 = 0;
  reserved1 = 0;
  size = 0;
  reserved0 = 0;
  dpl = 0;
  present = 0;
  offset_31_16 = 0;
}

idt_init_lem_example :
    ((idt_init handlers zeros 0x80).seg_selector ≡ kernel_cs)
    × ((idt_init handlers zeros 0x80).present ≡ (if serves 0x80 then 1 else 0))
    × ((idt_init handlers zeros 0x80).offset_31_16 * 2 ^ 16
          + (idt_init handlers zeros 0x80).offset_15_00
        ≡ (if serves 0x80 then handler handlers 0x80 % 2 ^ 32 else 0))
    × ((idt_init handlers zeros 0x80).dpl ≡ 3)
    × ((idt_init handlers zeros 0x80).reserved3 ≡ 1)
idt_init_lem_example = idt_init_lem handlers zeros 0x80 (omega arith)
