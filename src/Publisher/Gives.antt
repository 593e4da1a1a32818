-- ===== src/Publisher/Gives.antt =====
-- Postconditions of actions: from a world with `P`, the result has `R` and the world then has `S`.
-- One rule for each way in which the transactions are built.
use config_sync_nginx.Base.{
  Bool, true, false, Option, none, some, Error, Fallible, ok, err, ◌≡◌, refl,
}
use config_sync_nginx.Publisher.World.{
  if◌then◌else◌, World, Action, ◌>>=◌, ◌>>◌, pure, gets, modify, discard, on_error, on_fail,
  on_none,
}

pub record Gives {ℓ κ μ ν} {A : Type ℓ} (P : World → Type κ) (R : A → Type μ) (S : World → Type ν)
    (m : Action A) : Type (ℓ ⊔ κ ⊔ μ ⊔ ν) where
  pub at : (w : World) → P w → R (m w).0 × S (m w).1

-- Nothing is said of the result.
abbrev pub Any {ℓ} : {A : Type ℓ} → A → Type 0
Any a = Unit

-- A predicate that every way to go on satisfies.
module _ {ℓ κ} {A : Type ℓ} (P : A → Type κ) where
  pub branch-rule : (b : Bool) {x y : A} → P x → P y → P (if b then x else y)
  unfolding if◌then◌else◌
  branch-rule true p q = p
  branch-rule false p q = q

  pub on_error-rule :
      (o : Option Error) {f : Error → A} {x : A}
      → ((e : Error) → P (f e))
      → P x
      → P (on_error o f x)
  unfolding on_error
  on_error-rule none p q = q
  on_error-rule (some e) p q = p e

  pub on_fail-rule {τ} :
      {B : Type τ} (o : Fallible B) {f : Error → A} {g : B → A}
      → ((e : Error) → P (f e))
      → ((b : B) → P (g b))
      → P (on_fail o f g)
  unfolding on_fail
  on_fail-rule (ok b) p q = q b
  on_fail-rule (err e) p q = p e

  pub on_none-rule {τ} :
      {B : Type τ} (o : Option B) {x : A} {f : B → A}
      → P x
      → ((b : B) → o ≡ some b → P (f b))
      → P (on_none o x f)
  unfolding on_none
  on_none-rule none p q = p
  on_none-rule (some b) p q = q b refl

module _ {ℓ κ μ ν} {A : Type ℓ} {P : World → Type κ} {R : A → Type μ} {S : World → Type ν} where
  pub if-Gives :
      (b : Bool) {m k : Action A}
      → (b ≡ true → Gives P R S m)
      → (b ≡ false → Gives P R S k)
      → Gives P R S (if b then m else k)
  unfolding if◌then◌else◌
  if-Gives true yes_rule no_rule = yes_rule refl
  if-Gives false yes_rule no_rule = no_rule refl

  pub on_error-Gives :
      (o : Option Error) {h : Error → Action A} {k : Action A}
      → ((e : Error) → o ≡ some e → Gives P R S (h e))
      → (o ≡ none → Gives P R S k)
      → Gives P R S (on_error o h k)
  unfolding on_error
  on_error-Gives none failure rest = rest refl
  on_error-Gives (some e) failure rest = failure e refl

  pub on_none-Gives {τ} :
      {B : Type τ} (o : Option B) {h : Action A} {k : B → Action A}
      → (o ≡ none → Gives P R S h)
      → ((b : B) → o ≡ some b → Gives P R S (k b))
      → Gives P R S (on_none o h k)
  unfolding on_none
  on_none-Gives none missing rest = missing refl
  on_none-Gives (some b) missing rest = rest b refl

  pub on_fail-Gives {τ} :
      {B : Type τ} (o : Fallible B) {h : Error → Action A} {k : B → Action A}
      → ((e : Error) → o ≡ err e → Gives P R S (h e))
      → ((b : B) → o ≡ ok b → Gives P R S (k b))
      → Gives P R S (on_fail o h k)
  unfolding on_fail
  on_fail-Gives (err e) failure rest = failure e refl
  on_fail-Gives (ok b) failure rest = rest b refl

  pub pure-Gives : (a : A) → R a → ((w : World) → P w → S w) → Gives P R S (pure a)
  unfolding pure
  pure-Gives a r s = record { at = λ w p. (r, s w p) }

module _ {ℓ κ μ ν τ π} {A : Type ℓ} {B : Type κ} {P : World → Type μ} {R : A → Type ν}
    {S : World → Type τ} {T : B → Type π} where
  pub bind-Gives {ρ} :
      {U : World → Type ρ} {m : Action A} {f : A → Action B}
      → Gives P R S m
      → ((a : A) → R a → Gives S T U (f a))
      → Gives P T U (m >>= f)
  unfolding ◌>>=◌
  bind-Gives {m} first rest = record {
    at = λ w p. let done = first.at w p in (rest (m w).0 done.0).at (m w).1 done.1;
  }

module _ {ℓ κ} {A : Type ℓ} {S : World → Type κ} where
  -- What the invariant itself says of a value read from the world.
  pub gets-Gives {μ} :
      {R : A → Type μ} (f : World → A) → ((w : World) → S w → R (f w)) → Gives S R S (gets f)
  unfolding gets
  gets-Gives f r = record { at = λ w s. (r w s, s) }

  pub discard-Gives {μ} :
      {R : A → Type μ} {m : Action A} → Gives S R S m → Gives S Any S (discard m)
  unfolding discard
  discard-Gives rule = bind-Gives rule (λ a r. pure-Gives _ tt (λ w s. s))

module _ {κ} {S : World → Type κ} where
  pub modify-Gives : (f : World → World) → ((w : World) → S w → S (f w)) → Gives S Any S (modify f)
  unfolding modify
  modify-Gives f keep = record { at = λ w s. (tt, keep w s) }

  pub next-Gives {ℓ μ} :
      {A : Type ℓ} {T : A → Type μ} {m : Action (Unit {0})} {k : Action A}
      → Gives S Any S m
      → Gives S T S k
      → Gives S T S (m >> k)
  unfolding ◌>>◌
  next-Gives first rest = bind-Gives first (λ a r. rest)

module _ {ℓ κ} {P : World → Type ℓ} {S : World → Type κ} where
  -- A change of the world that ends `P` and begins `S`.
  pub change-Gives : (f : World → World) → ((w : World) → P w → S (f w)) → Gives P Any S (modify f)
  unfolding modify
  change-Gives f turn = record { at = λ w p. (tt, turn w p) }

  pub then-Gives {μ ν τ} :
      {U : World → Type μ} {A : Type ν} {T : A → Type τ} {m : Action (Unit {0})} {k : Action A}
      → Gives P Any S m
      → Gives S T U k
      → Gives P T U (m >> k)
  unfolding ◌>>◌
  then-Gives first rest = bind-Gives first (λ a r. rest)
