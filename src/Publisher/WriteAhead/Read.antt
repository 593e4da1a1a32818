-- ===== src/Publisher/WriteAhead/Read.antt =====
-- What `Load` of internal/infrastructure/state/store.go checks of a state that it reads: it is that of the
-- target, and each record stands under its release.
use config_sync_nginx.Base.{
  String, Bool, true, false, not, ◌&&◌, ◌||◌, ◌==◌, ◌∙◌, ap, ◌≡◌, refl, sym, subst, [], ◌∷◌, Option,
  none, some, Error, Fallible, ok, err, inl, inr, eq_iff, Bool-cases,
}
use config_sync_nginx.Base.Chain.{ok_injective}
use config_sync_nginx.Base.Dict.{Dict, lookup}
use config_sync_nginx.Release.Identity.{is_id, valid_target_id}
use config_sync_nginx.State.{TargetState, Record}
use config_sync_nginx.Publisher.World.{Node, World, Action, if◌then◌else◌, ◌>>=◌, pure, ask, gets}
use config_sync_nginx.Publisher.Store.{
  is_valid_record, are_valid_records, check_state, decode_file, store_load,
}
use config_sync_nginx.Publisher.Gives.{branch-rule}

both : (a b : Bool) → (a && b) ≡ true → (a ≡ true) × (b ≡ true)
both true b h = (refl, h)
both false b h = absurd (cc)

middle : (a b c : Bool) → (a || not b || c) ≡ false → b ≡ true
middle true b c h = absurd (cc)
middle false true c h = refl
middle false false c h = absurd (cc)

guarded :
    {A : Type 0} (bad good : Bool) (e f : Error) (a : A) {b : A}
    → (if bad then err e else if good then ok a else err f) ≡ ok b
    → (bad ≡ false) × (good ≡ true) × (a ≡ b)
unfolding if◌then◌else◌
guarded true good e f a h = absurd (cc)
guarded false true e f a h = (refl, refl, ok_injective h)
guarded false false e f a h = absurd (cc)

err_is_not_ok : {A : Type 0} {e : Error} {a : A} → ¬ (err e ≡ ok a)
err_is_not_ok h = absurd (cc)

-- What a file of a target that is read says of its records.
pub lookup-are_valid_records :
    (target_id k : String) (rs : Dict Record) {rec : Record}
    → are_valid_records target_id rs ≡ true
    → lookup k rs ≡ some rec
    → rec.request.release_id ≡ k
unfolding are_valid_records is_valid_record lookup
lookup-are_valid_records target_id k [] valid found = absurd (cc)
lookup-are_valid_records target_id k ((j, x) ∷ rs) {rec} valid found =
    let (here, behind) = both (is_valid_record target_id j x) _ valid in
    elim (Bool-cases (j == k)) [
      | inl same ↦
          let same_some : some x ≡ some rec = rw same at found in
          let same_record : x ≡ rec = cc in
          let outer = both (j == x.request.release_id && is_id j) _ here in
          let named = (eq_iff j x.request.release_id).0 (both _ (is_id j) outer.0).0 in
          subst (λ r. r.request.release_id ≡ k) same_record (sym named ∙ (eq_iff j k).0 same)
      | inr apart ↦ lookup-are_valid_records target_id k rs behind (rw apart at found)
    ]

-- A state that was read is the one of the file, for the target, with its records under their names.
abbrev pub IsRead : String → TargetState → Type 0
IsRead id st = (st.target.id ≡ id) × (are_valid_records st.target.id st.records ≡ true)

decode_file-IsRead :
    (id : String) (file : Option TargetState) (failure : Option Error) {st : TargetState}
    → decode_file id file failure ≡ ok st
    → (file ≡ some st) × IsRead id st
unfolding decode_file check_state
decode_file-IsRead id file (some e) read = absurd (cc)
decode_file-IsRead id none none read = absurd (cc)
decode_file-IsRead id (some st₀) none read =
    let (fine, valid, same) =
      guarded _ (are_valid_records st₀.target.id st₀.records) _ _ st₀ read in
    (
      ap some same,
      subst (IsRead id) same
          ((eq_iff st₀.target.id id).0 (middle _ (st₀.target.id == id) _ fine), valid),
    )

pub store_load-IsRead :
    (n : Node) (id : String) (w : World) {st : TargetState}
    → (store_load n id w).0 ≡ ok st
    → (lookup id (store_load n id w).1.disk ≡ some st) × IsRead id st
unfolding store_load ask gets pure ◌>>=◌
store_load-IsRead n id w {st} =
    branch-rule
      (λ (m : Action (Fallible TargetState)).
        (m w).0 ≡ ok st → (lookup id (m w).1.disk ≡ some st) × IsRead id st)
      (not (valid_target_id id)) (λ h. absurd (err_is_not_ok h))
      (λ h. decode_file-IsRead id (lookup id w.disk) (n.read_state w.calls id) h)
