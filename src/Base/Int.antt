-- ===== src/Base/Int.antt =====
-- Go's signed integers, where a value below zero can come from outside.
use Prim.Native.Nat.{ℕ}
use mathlib.Core.Bool.{Bool, true, false}
use config_sync_nginx.Base.Tests.{nat_eq, ltb}

-- `negsuc n` is -(n + 1).
pub data ℤ : Type 0 where
  pos : ℕ → ℤ
  negsuc : ℕ → ℤ

abbrev pub is_negative : ℤ → Bool
is_negative (pos n) = false
is_negative (negsuc n) = true

abbrev pub int_eq : ℤ → ℤ → Bool
int_eq (pos a) (pos b) = nat_eq a b
int_eq (negsuc a) (negsuc b) = nat_eq a b
int_eq (pos a) (negsuc b) = false
int_eq (negsuc a) (pos b) = false

-- `z < n`.
abbrev pub is_below : ℕ → ℤ → Bool
is_below n (pos k) = ltb k n
is_below n (negsuc k) = true

-- A number that is not below zero.
abbrev pub to_nat : ℤ → ℕ
to_nat (pos n) = n
to_nat (negsuc n) = 0
