-- ===== src/Entry/Wrappers.antt =====
-- The wrappers of Keyboard_Interrupt_wrapper.S around the handlers of the two devices.
use mp.Prelude.{ℕ}
use mp.Process.{Kernel}
use mp.FileOps.{Devices, terminal_of, set_terminal}
use mp.Keyboard.{handle_keyboard_irq}
use mp.Rtc.{rtc_interrupt_handler}
use mp.Entry.{Cpu, push, top, discard, iret}

-- `pushal`, with the stack pointer from before as the fifth word, and `popal`, which skips it.
unfoldable pub pushal : Cpu → Cpu
pushal c =
    let half : Cpu = push c.ebx (push c.edx (push c.ecx (push c.eax c))) in
    push c.edi (push c.esi (push c.ebp (push c.esp half)))

unfoldable pub popal : Cpu → Cpu
popal c₀ =
    let c₁ : Cpu = record (discard c₀) { edi = top c₀ } in
    let c₂ : Cpu = record (discard c₁) { esi = top c₁ } in
    let c₃ : Cpu = record (discard c₂) { ebp = top c₂ } in
    let c₄ : Cpu = discard c₃ in
    let c₅ : Cpu = record (discard c₄) { ebx = top c₄ } in
    let c₆ : Cpu = record (discard c₅) { edx = top c₅ } in
    let c₇ : Cpu = record (discard c₆) { ecx = top c₆ } in record (discard c₇) { eax = top c₇ }

abbrev pub pushfl : Cpu → Cpu
pushfl c = push c.eflags c

abbrev pub popfl : Cpu → Cpu
popfl c = record (discard c) { eflags = top c }

-- The processor's side of both wrappers; `code` is what the handler's machine code leaves in it.
unfoldable pub irq_wrap : (Cpu → Cpu) → Cpu → Cpu
irq_wrap code c = iret (popal (popfl (code (pushfl (pushal c)))))

abbrev pub set_devices : Devices → Kernel → Kernel
set_devices d k = record k { devices = d }

-- The kernel's side, for the scancode that the keyboard's port gives.
unfoldable pub keyboard_irq_wrap : (Cpu → Cpu) → ℕ → Cpu → Kernel → Cpu × Kernel
keyboard_irq_wrap code scancode c k =
    let t = terminal_of k.devices in
    let keyboard = handle_keyboard_irq scancode t.keyboard in
    (irq_wrap code c, set_devices (set_terminal (record t { keyboard = keyboard }) k.devices) k)

unfoldable pub rtc_irq_wrap : (Cpu → Cpu) → Cpu → Kernel → Cpu × Kernel
rtc_irq_wrap code c k = (
  irq_wrap code c,
  set_devices (record k.devices { rtc = rtc_interrupt_handler k.devices.rtc }) k,
)
