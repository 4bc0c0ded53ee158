-- ===== src/Boot/Devices.antt =====
-- The devices' part of `entry`, and what it leaves.
use mp.Prelude.{ℕ, Option}
use mathlib.Core.Option
use mp.Pic.{i8259_init}
use mp.Paging.{paging_init}
use mp.Keyboard.{keyboard_init}
use mp.Rtc.{Rtc, rtc_init}
use mp.FileOps.{terminal_of, set_terminal}
use mp.Process.{Kernel}

-- `i8259_init(); paging_init(); keyboard_init();`
unfoldable pub init_first : Kernel → Kernel
init_first k =
    let d₁ = record k.devices {
      rtc = record k.devices.rtc { pic = i8259_init k.devices.rtc.pic };
    } in
    let t = terminal_of d₁ in
    record k {
      devices = set_terminal (record t { keyboard = keyboard_init t.keyboard }) d₁;
      tables = paging_init k.tables;
    }

-- Up to `rtc_init`, which is given the bytes that its registers have.
unfoldable pub init_devices : ℕ → ℕ → ℕ → Kernel → Option Kernel
init_devices fuel prev_b prev_a k₀ =
    let k = init_first k₀ in
    Option.map (λ (r : Rtc). record k { devices = record k.devices { rtc = r } })
      (rtc_init fuel prev_b prev_a k.devices.rtc)
