-- ===== src/Publisher/Unique.antt =====
-- What `load` of internal/application/publisher/runner.go checks of the states that it reads: a release
-- belongs to one target.
use config_sync_nginx.Base.{
  other, String, true, false, ◌==◌, ◌≡◌, refl, eq_iff, arith, List, [], ◌∷◌, All, ok, err, is_some,
  inl, inr, Bool-cases,
}
use config_sync_nginx.Base.Dict.{Dict, lookup, insert, lookup-insert}
use config_sync_nginx.State.{TargetState, Record}
use config_sync_nginx.Publisher.World.{if◌then◌else◌}
use config_sync_nginx.Publisher.Store.{repeats, add_ids, index_states}

-- No release is a key of both.
abbrev pub AreApart {ℓ κ} : {V : Type ℓ} {W : Type κ} → Dict V → Dict W → Type 0
AreApart m k = (id : String) → is_some (lookup id m) ≡ true → is_some (lookup id k) ≡ false

-- No two of the states share a release.
abbrev pub AreDisjoint : List TargetState → Type 0
AreDisjoint [] = Unit
AreDisjoint (st ∷ sts) = All (λ later. AreApart st.records later.records) sts × AreDisjoint sts

repeats-AreApart :
    (records : Dict Record) (ids : Dict (Unit {0}))
    → repeats records ids ≡ false
    → AreApart ids records
unfolding repeats lookup
repeats-AreApart [] ids fresh id known = refl
repeats-AreApart ((name, rec) ∷ records) ids fresh id known =
    let later : repeats records ids ≡ false = ground arith in
    ground (arith, eq_iff name id, repeats-AreApart records ids later id known)

add_ids-keeps :
    (records : Dict Record) (ids : Dict (Unit {0})) (id : String)
    → is_some (lookup id ids) ≡ true
    → is_some (lookup id (add_ids records ids)) ≡ true
unfolding add_ids
add_ids-keeps [] ids id known = known
add_ids-keeps ((name, rec) ∷ records) ids id known =
    add_ids-keeps records (insert name tt ids) id (ground (arith, lookup-insert name id tt ids))

add_ids-has :
    (records : Dict Record) (ids : Dict (Unit {0})) (id : String)
    → is_some (lookup id records) ≡ true
    → is_some (lookup id (add_ids records ids)) ≡ true
unfolding add_ids lookup
add_ids-has [] ids id known = absurd (cc)
add_ids-has ((name, rec) ∷ records) ids id known = elim (Bool-cases (name == id)) [
  | inl same ↦
      add_ids-keeps records (insert name tt ids) id (ground (arith, lookup-insert name id tt ids))
  | inr apart ↦ add_ids-has records (insert name tt ids) id (rw apart at known)
]

weaken-Apart {ℓ κ} :
    {V : Type ℓ} {W : Type κ} (m : Dict V) (k : Dict W) (sts : List TargetState)
    → ((id : String) → is_some (lookup id m) ≡ true → is_some (lookup id k) ≡ true)
    → All (λ st. AreApart k st.records) sts
    → All (λ st. AreApart m st.records) sts
weaken-Apart m k [] more h = tt
weaken-Apart m k (st ∷ sts) more h =
    (λ id known. h.0 id (more id known), weaken-Apart m k sts more h.1)

-- What the loop knows of the states still to come: their releases are not among those seen, and no two
-- of them share one.
index-lem :
    (sts : List TargetState) (ids : Dict (Unit {0})) (next : Dict TargetState)
    (views : Dict TargetState)
    → index_states sts ids next ≡ ok views
    → All (λ st. AreApart ids st.records) sts × AreDisjoint sts
unfolding index_states if◌then◌else◌
index-lem [] ids next views passed = (tt, tt)
index-lem (st ∷ sts) ids next views passed = elim (Bool-cases (repeats st.records ids)) [
  | inl again ↦
      let h : err (other "duplicate release_id in persistent state") ≡ ok views =
        rw again at passed in
      absurd (cc)
  | inr fresh ↦
      let rest =
        index-lem sts (add_ids st.records ids) (insert st.target.id st next) views
          (rw fresh at passed) in
      (
        (
          repeats-AreApart st.records ids fresh,
          weaken-Apart _ _ sts (λ id k. add_ids-keeps st.records ids id k) rest.0,
        ),
        (weaken-Apart _ _ sts (λ id k. add_ids-has st.records ids id k) rest.0, rest.1),
      )
]

-- `load` accepts the stored states only if no two of them have a release in common, so that a release
-- names its target.
pub index_states-AreDisjoint :
    (sts : List TargetState) (views : Dict TargetState)
    → index_states sts [] [] ≡ ok views
    → AreDisjoint sts
index_states-AreDisjoint sts views passed = (index-lem sts [] [] views passed).1
