-- ===== src/Prelude/Store.antt =====
-- A byte-addressed memory as a function, and the writes to the I/O ports of a device.
use Prim.Native.Nat.{ℕ, ◌%◌}
use mathlib.Core.List.{List, [], ◌∷◌}
use mathlib.Core.Option.{Option, none, some}
use mp.Prelude.Tests.{◌==◌, if◌then◌else◌}

abbrev pub Memory : Type 0
Memory = ℕ → ℕ

abbrev pub update : Memory → ℕ → ℕ → Memory
update m a v = λ b. if b == a then v else m b

-- One `outb(data, port)`.
pub record Out : Type 0 where
  pub byte : ℕ
  pub port : ℕ

-- The writes that a device has received, the newest first.
abbrev pub Trace : Type 0
Trace = List Out

-- The `outb` macro writes the low byte of `data`.
abbrev pub outb : ℕ → ℕ → Trace → Trace
outb value port t = record { byte = value % 256; port = port } ∷ t

-- What was last written to a port.
abbrev pub last_byte : Trace → ℕ → Option ℕ
last_byte [] p = none
last_byte (w ∷ t) p = if w.port == p then some w.byte else last_byte t p
