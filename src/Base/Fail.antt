-- ===== src/Base/Fail.antt =====
-- Go's `error`: `Option Error` where only an error is returned, `Fallible A` beside a value.
use Prim.Native.String.{String, ◌++◌ as ◌<>◌}
use mathlib.Core.Bool.{Bool, true, false}

-- The errors that the code tells apart by `errors.Is`; every other one is its text.
pub data Error : Type 0 where
  invalid_request : String → String → Error
  canceled deadline_exceeded lock_busy not_exist : Error
  other : String → Error

pub data Fallible {ℓ} (A : Type ℓ) : Type ℓ where
  ok : A → Fallible A
  err : Error → Fallible A

-- The text of `Error()`.
unfoldable pub error_text : Error → String
error_text (invalid_request field msg) = "请求无效: " <> field <> ": " <> msg
error_text canceled = "context canceled"
error_text deadline_exceeded = "context deadline exceeded"
error_text lock_busy = "node is publishing"
error_text not_exist = "file does not exist"
error_text (other msg) = msg

abbrev pub is_context_error : Error → Bool
is_context_error canceled = true
is_context_error deadline_exceeded = true
is_context_error _ = false

abbrev pub is_lock_busy : Error → Bool
is_lock_busy lock_busy = true
is_lock_busy _ = false

abbrev pub is_not_exist : Error → Bool
is_not_exist not_exist = true
is_not_exist _ = false

infixl 5 ◌>>=◌ ◌>>◌
abbrev pub ◌>>=◌ {ℓ κ} : {A : Type ℓ} {B : Type κ} → Fallible A → (A → Fallible B) → Fallible B
ok a >>= f = f a
err e >>= f = err e

abbrev pub ◌>>◌ {ℓ} : {B : Type ℓ} → Fallible (Unit {0}) → Fallible B → Fallible B
m >> k = m >>= λ _. k

-- A test that fails the function when it is true.
abbrev pub fail_if : Bool → Error → Fallible (Unit {0})
fail_if true e = err e
fail_if false e = ok tt

-- The value, where there is one, satisfies `P`.
abbrev pub OnOk {ℓ κ} : {A : Type ℓ} → (A → Type κ) → Fallible A → Type κ
OnOk P (ok a) = P a
OnOk P (err e) = Unit
