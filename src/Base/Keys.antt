-- ===== src/Base/Keys.antt =====
-- The keys of a Go map: no key twice, removal, and what the number of keys tells.
use Prim.Native.Nat.{suc, ◌≤◌}
use Prim.Native.String.{String}
use mathlib.Core.Path.{◌≡◌, refl}
use mathlib.Core.Logic.{inl, inr}
use mathlib.Core.Bool.{Bool, true, false}
use mathlib.Core.Option.{none}
use mathlib.Core.List.{[], ◌∷◌}
use native.Mathlib.Omega.{arith}
use text.Mathlib.Text.{◌==◌}
use text.Mathlib.TextEquality.{eq_iff}
use text.Mathlib.TextPositions.{eq_refl}
use config_sync_nginx.Base.Tests.{Bool-cases, if◌then◌else◌}
use config_sync_nginx.Base.Lists.{length, is_some}
use config_sync_nginx.Base.Dict.{Dict, lookup, insert, lookup-insert}

-- Whether the map has the key.
abbrev pub has {ℓ} : {V : Type ℓ} → String → Dict V → Bool
has key m = is_some (lookup key m)

-- No key stands twice in the list.
abbrev pub Distinct {ℓ} : {V : Type ℓ} → Dict V → Type 0
Distinct [] = Unit
Distinct ((key, value) ∷ rest) = (has key rest ≡ false) × Distinct rest

module _ {ℓ} {V : Type ℓ} where
  -- `delete(m, key)`.
  unfoldable pub remove : String → Dict V → Dict V
  remove key [] = []
  remove key ((name, value) ∷ rest) =
      let others = remove key rest in if name == key then others else (name, value) ∷ others

  pub lookup-remove :
      (key asked : String) (m : Dict V)
      → lookup asked (remove key m) ≡ (if key == asked then none else lookup asked m)
  unfolding lookup remove
  lookup-remove key asked [] = ground arith
  lookup-remove key asked ((name, value) ∷ rest) =
      ground
        (arith, lookup-remove key asked rest, eq_iff name asked, eq_iff name key, eq_iff key asked)

  -- The list behind the first entry of the key is taken out.
  drop_first : String → Dict V → Dict V
  drop_first key [] = []
  drop_first key ((name, value) ∷ rest) =
      let others = drop_first key rest in if name == key then rest else (name, value) ∷ others

  has-drop_first :
      (key asked : String) (m : Dict V)
      → (key == asked) ≡ false
      → has asked (drop_first key m) ≡ has asked m
  unfolding lookup drop_first
  has-drop_first key asked [] apart = refl
  has-drop_first key asked ((name, value) ∷ rest) apart = ground (
    arith,
    has-drop_first key asked rest apart,
    eq_iff name asked,
    eq_iff name key,
    eq_iff key asked,
  )

  length-drop_first :
      (key : String) (m : Dict V) → has key m ≡ true → suc (length (drop_first key m)) ≡ length m
  unfolding lookup drop_first
  length-drop_first key [] there = absurd (cc)
  length-drop_first key ((name, value) ∷ rest) there = ground (arith, length-drop_first key rest)

  -- In a list without repetition every entry is the one that is found.
  pub lookup-head-apart :
      (key asked : String) (value : V) (rest : Dict V)
      → has key rest ≡ false
      → has asked rest ≡ true
      → (key == asked) ≡ false
  lookup-head-apart key asked value rest fresh there = elim (Bool-cases (key == asked)) [
    | inl same ↦
        let same_key = (eq_iff key asked).0 same in
        let found : has key rest ≡ true = rw same_key there in absurd (cc)
    | inr apart ↦ apart
  ]

  pub insert-Distinct :
      (key : String) (value : V) (m : Dict V) → Distinct m → Distinct (insert key value m)
  unfolding insert lookup
  insert-Distinct key value [] d = (refl, tt)
  insert-Distinct key value ((name, held) ∷ rest) d = elim (Bool-cases (name == key)) [
    | inl same ↦ let same_key = (eq_iff name key).0 same in rw same ((rw (← same_key) d.0), d.1)
    | inr apart ↦ rw apart (
      ground (arith, lookup-insert key name value rest, d.0, eq_iff name key, eq_iff key name),
      insert-Distinct key value rest d.1,
    )
  ]

module _ {ℓ κ} {V : Type ℓ} {W : Type κ} where
  -- The keys of the first map are among those of the second.
  abbrev pub Within : Dict V → Dict W → Type 0
  Within m k = (key : String) → has key m ≡ true → has key k ≡ true

  Within-drop :
      (key : String) (value : V) (rest : Dict V) (k : Dict W)
      → has key rest ≡ false
      → Within ((key, value) ∷ rest) k
      → Within rest (drop_first key k)
  unfolding lookup
  Within-drop key value rest k fresh sub asked there =
      let apart = lookup-head-apart key asked value rest fresh there in
      let in_k : has asked k ≡ true = sub asked (rw apart there) in
      rw (has-drop_first key asked k apart) in_k

  head-Within :
      (key : String) (value : V) (rest : Dict V) (k : Dict W)
      → Within ((key, value) ∷ rest) k
      → has key k ≡ true
  unfolding lookup
  head-Within key value rest k sub = sub key (rw (eq_refl key) refl)

  pub Within-le : (m : Dict V) (k : Dict W) → Distinct m → Within m k → length m ≤ length k
  Within-le [] k d sub = omega arith
  Within-le ((key, value) ∷ rest) k d sub = omega (
    arith,
    length-drop_first key k (head-Within key value rest k sub),
    Within-le rest (drop_first key k) d.1 (Within-drop key value rest k d.0 sub),
  )

  -- As many keys as the second map has, all of them in it: then these are all of its keys.
  pub Within-onto :
      (m : Dict V) (k : Dict W) (asked : String)
      → Distinct m
      → Within m k
      → length k ≤ length m
      → has asked k ≡ true
      → has asked m ≡ true
  unfolding lookup
  Within-onto [] [] asked d sub few there = absurd (cc)
  Within-onto [] ((name, value) ∷ k) asked d sub few there = absurd (omega arith)
  Within-onto ((key, value) ∷ rest) k asked d sub few there = elim (Bool-cases (key == asked)) [
    | inl same ↦ rw same refl
    | inr apart ↦ rw apart (
        Within-onto rest (drop_first key k) asked d.1 (Within-drop key value rest k d.0 sub)
          (omega (arith, length-drop_first key k (head-Within key value rest k sub)))
          (rw (has-drop_first key asked k apart) there))
  ]

module _ {ℓ} {V : Type ℓ} where
  pub length-insert : (key : String) (v : V) (m : Dict V) → length (insert key v m) ≤ suc (length m)
  unfolding insert
  length-insert key v [] = omega arith
  length-insert key v ((name, held) ∷ rest) = ground (arith, length-insert key v rest)

  pub remove-Distinct : (key : String) (m : Dict V) → Distinct m → Distinct (remove key m)
  unfolding remove
  remove-Distinct key [] d = tt
  remove-Distinct key ((name, value) ∷ rest) d = elim (Bool-cases (name == key)) [
    | inl same ↦ rw same (remove-Distinct key rest d.1)
    | inr apart ↦
        rw apart (ground (arith, lookup-remove key name rest, d.0), remove-Distinct key rest d.1)
  ]
