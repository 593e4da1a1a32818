-- ===== src/Base/Dict.antt =====
-- Go's `map[string]V` as an association list; a range over a map goes in the order of the list.
use Prim.Native.String.{String}
use mathlib.Core.Path.{◌≡◌, refl, subst}
use mathlib.Core.Logic.{inl, inr}
use mathlib.Core.Option.{Option, none, some}
use mathlib.Core.List.{List, [], ◌∷◌}
use native.Mathlib.Omega.{arith}
use text.Mathlib.Text.{◌==◌}
use text.Mathlib.TextEquality.{eq_iff}
use config_sync_nginx.Base.Tests.{Bool-cases, if◌then◌else◌}
use config_sync_nginx.Base.Lists.{All}

abbrev pub Dict {ℓ} : Type ℓ → Type ℓ
Dict V = List (String × V)

module _ {ℓ} {V : Type ℓ} where
  unfoldable pub lookup : String → Dict V → Option V
  lookup key [] = none
  lookup key ((name, value) ∷ rest) = if name == key then some value else lookup key rest

  -- `m[key] = value`: in place, or behind the keys there are.
  unfoldable pub insert : String → V → Dict V → Dict V
  insert key value [] = (key, value) ∷ []
  insert key value (first ∷ rest) =
      if first.0 == key then (key, value) ∷ rest else first ∷ insert key value rest

  -- What a key holds behind an assignment.
  pub lookup-insert :
      (key asked : String) (value : V) (entries : Dict V)
      → lookup asked (insert key value entries)
        ≡ (if key == asked then some value else lookup asked entries)
  unfolding lookup insert
  lookup-insert key asked value [] = refl
  lookup-insert key asked value ((name, held) ∷ rest) = ground (
    lookup-insert key asked value rest,
    eq_iff name asked,
    eq_iff name key,
    eq_iff key asked,
    arith,
  )

-- Every value of the map satisfies `P`.
abbrev pub AllValues {ℓ κ} : {V : Type ℓ} → (V → Type κ) → Dict V → Type κ
AllValues P = All (λ e. P e.1)

module _ {ℓ κ} {V : Type ℓ} (P : V → Type κ) where
  pub AllValues-insert :
      (k : String) (v : V) (m : Dict V) → P v → AllValues P m → AllValues P (insert k v m)
  unfolding insert
  AllValues-insert k v [] h hs = (h, tt)
  AllValues-insert k v ((j, w) ∷ m) h hs = elim (Bool-cases (j == k)) [
    | inl e ↦ rw e (h, hs.1)
    | inr e ↦ rw e (hs.0, AllValues-insert k v m h hs.1)
  ]

  pub AllValues-lookup :
      (k : String) (m : Dict V) {v : V} → AllValues P m → lookup k m ≡ some v → P v
  unfolding lookup
  AllValues-lookup k [] hs e = absurd (cc)
  AllValues-lookup k ((j, w) ∷ m) {v} hs e = elim (Bool-cases (j == k)) [
    | inl q ↦ let found : some w ≡ some v = rw q at e in subst P (cc) hs.0
    | inr q ↦ AllValues-lookup k m hs.1 (rw q at e)
  ]
