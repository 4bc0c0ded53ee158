-- ===== src/Prelude/Runs.antt =====
-- How a piece of the kernel's code can end.
use Prim.Native.Nat.{ℕ}
use mathlib.Core.Path.{◌≡◌, refl, ap}
use mathlib.Core.Option.{Option, none, some}

-- `ok` comes back; `exception` has raised the vector given, whose handler prints and does not return;
-- `waiting` waits for an interrupt that has not come; `unknown` ran out of fuel, or does what C leaves
-- undefined.
pub data Run {ℓ} (A : Type ℓ) : Type ℓ where
  ok : A → Run A
  exception : ℕ → Run A
  waiting : Run A
  unknown : Run A

infixl 5 ◌>>=◌
abbrev pub ◌>>=◌ {ℓ κ} : {A : Type ℓ} {B : Type κ} → Run A → (A → Run B) → Run B
ok a >>= f = f a
exception v >>= f = exception v
waiting >>= f = waiting
unknown >>= f = unknown

abbrev pub from_option {ℓ} : {A : Type ℓ} → Option A → Run A
from_option none = unknown
from_option (some a) = ok a

-- The vector of a page fault, and of a division by 0.
abbrev pub page_fault : ℕ
page_fault = 14

abbrev pub divide_error : ℕ
divide_error = 0

-- A piece that comes back has come back from its first part.
pub >>=-eq-ok {ℓ κ} :
    {A : Type ℓ} {B : Type κ} (m : Run A) (f : A → Run B) (b : B)
    → (m >>= f) ≡ ok b
    → (a : A) × (m ≡ ok a) × (f a ≡ ok b)
>>=-eq-ok (ok a) f b h = (a, refl, h)
>>=-eq-ok (exception v) f b h = cc
>>=-eq-ok waiting f b h = cc
>>=-eq-ok unknown f b h = cc

value_or {ℓ} : {A : Type ℓ} → A → Run A → A
value_or a (ok b) = b
value_or a _ = a

pub ok-injective {ℓ} : {A : Type ℓ} (a b : A) → ok a ≡ ok b → a ≡ b
unfolding value_or
ok-injective a b e = ap (value_or a) e

pub from_option-eq-ok {ℓ} : {A : Type ℓ} (o : Option A) (a : A) → from_option o ≡ ok a → o ≡ some a
from_option-eq-ok none a e = cc
from_option-eq-ok (some b) a e = cc
