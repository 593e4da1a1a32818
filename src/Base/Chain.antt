-- ===== src/Base/Chain.antt =====
-- What the success of a chain of fallible steps says of each step.
use mathlib.Core.Path.{◌≡◌, refl}
use mathlib.Core.Logic.{◌⊎◌, inl, inr}
use mathlib.Core.Bool.{Bool, true, false}
use config_sync_nginx.Base.Fail.{Error, Fallible, ok, err, ◌>>=◌, ◌>>◌, fail_if}

module _ {ℓ} {A : Type ℓ} where
  pub Fallible-cases : (m : Fallible A) → ((e : Error) × (m ≡ err e)) ⊎ ((a : A) × (m ≡ ok a))
  Fallible-cases (ok a) = inr (a, refl)
  Fallible-cases (err e) = inl (e, refl)

  pub >>-ok :
      (m : Fallible (Unit {0})) (k : Fallible A) {a : A}
      → (m >> k) ≡ ok a
      → (m ≡ ok tt) × (k ≡ ok a)
  >>-ok (ok u) k passed = (refl, passed)
  >>-ok (err e) k passed = absurd (cc)

  pub fail_if-ok :
      (b : Bool) (e : Error) (k : Fallible A) {a : A}
      → (fail_if b e >> k) ≡ ok a
      → (b ≡ false) × (k ≡ ok a)
  fail_if-ok false e k passed = (refl, passed)
  fail_if-ok true e k passed = absurd (cc)

pub >>=-ok {ℓ κ} :
    {A : Type ℓ} {B : Type κ} (m : Fallible A) (f : A → Fallible B) {b : B}
    → (m >>= f) ≡ ok b
    → (a : A) × (m ≡ ok a) × (f a ≡ ok b)
>>=-ok (ok a) f passed = (a, refl, passed)
>>=-ok (err e) f passed = absurd (cc)

-- A step that may fail, over a state: where it fails, the state stays as it is and the error is given.
unfoldable pub on_ok {ℓ κ σ} :
    {A : Type ℓ} {B : Type κ} {S : Type σ} → Fallible A → S → (A → Fallible B × S) → Fallible B × S
on_ok (ok a) s k = k a
on_ok (err e) s k = (err e, s)

-- What holds of the state, and of the state behind the step where it succeeds, holds behind both.
pub on_ok-holds {ℓ κ σ π} :
    {A : Type ℓ} {B : Type κ} {S : Type σ} (P : S → Type π) (m : Fallible A) (s : S)
    (k : A → Fallible B × S)
    → P s
    → ((a : A) → m ≡ ok a → P (k a).1)
    → P (on_ok m s k).1
unfolding on_ok
on_ok-holds P (ok a) s k here behind = behind a refl
on_ok-holds P (err e) s k here behind = here

pub on_ok-ok {ℓ κ σ} :
    {A : Type ℓ} {B : Type κ} {S : Type σ} (m : Fallible A) (s : S) (k : A → Fallible B × S) {b : B}
    {s₁ : S}
    → on_ok m s k ≡ (ok b, s₁)
    → (a : A) × (m ≡ ok a) × (k a ≡ (ok b, s₁))
unfolding on_ok
on_ok-ok (ok a) s k passed = (a, refl, passed)
on_ok-ok (err e) s k passed = absurd (cc)

pub ok_injective {ℓ} : {A : Type ℓ} {a b : A} → ok a ≡ ok b → a ≡ b
ok_injective same = cc
