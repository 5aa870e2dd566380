-- ===== src/Base/Bus.antt =====
-- What an access to a device returns: the function codes and the `bus_error` exception that the
-- device classes throw, and an access outside the device's own array, which C++ leaves undefined.
use Prim.Native.Nat.{ℕ}
use mathlib.Core.Bool.{Bool, true, false}

pub data FunctionCode : Type 0 where
  user_data user_program super_data super_program : FunctionCode

pub data Direction : Type 0 where
  reading writing : Direction

pub data Result {ℓ} (A : Type ℓ) : Type ℓ where
  ok : A → Result A
  bus_error : ℕ → Direction → FunctionCode → Result A
  out_of_bounds : Result A

abbrev pub is_super_data : FunctionCode → Bool
is_super_data super_data = true
is_super_data user_data = false
is_super_data user_program = false
is_super_data super_program = false

infixl 5 ◌>>=◌
abbrev pub ◌>>=◌ {ℓ κ} : {A : Type ℓ} {B : Type κ} → Result A → (A → Result B) → Result B
ok a >>= f = f a
bus_error a d fc >>= f = bus_error a d fc
out_of_bounds >>= f = out_of_bounds
