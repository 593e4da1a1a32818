-- ===== src/Snapshot/Needed.antt =====
-- The commits that `cleanupSnapshots` of internal/application/publisher/apply.go keeps.
use config_sync_nginx.Base.{
  ◌<◌, ◌+◌, ℕ, suc, zero, String, true, false, ◌==◌, ◌≡◌, refl, List, [], ◌∷◌, Option, none, some,
  Error, ok, err, ◌⊎◌, inl, inr, arith, eq_iff, eq_refl, Bool-cases, if◌then◌else◌,
}
use config_sync_nginx.Base.Chain.{Fallible-cases}
use config_sync_nginx.Base.Dict.{Dict, lookup, insert, lookup-insert}
use config_sync_nginx.Base.Keys.{has}
use config_sync_nginx.Release.Types.{is_terminal, release_type_frontend_static}
use config_sync_nginx.Release.Identity.{is_commit}
use config_sync_nginx.State.{Target, TargetState, Record, Version}
use config_sync_nginx.Publisher.Steps.{normalize_snapshot_link, snapshot_commit}
use config_sync_nginx.Snapshot.Types.{Manifest}
use config_sync_nginx.Snapshot.Cleanup.{
  System, Names, keep, is_held, keep_records, keep_live, keep_newest, needed,
}

-- The version is there and is of the commit.
abbrev pub IsOf : String → Option Version → Type 0
IsOf c held = (v : Version) × (held ≡ some v) × (v.commit_id ≡ c)

-- The release of a record is not over, or it is one of a frontend that has switched and that clients may
-- still use.
abbrev pub IsHeld : System → ℕ → Target → String → Record → Type 0
IsHeld sys asset_retention t id r =
    (is_terminal r.result.status ≡ false)
    ⊎ ((t.type ≡ release_type_frontend_static)
        × (r.intent ≡ true)
        × (sys.now id < r.result.finished_at + asset_retention))

IsHeld-is_held :
    (sys : System) (asset_retention : ℕ) (t : Target) (id : String) (r : Record)
    → IsHeld sys asset_retention t id r
    → is_held sys asset_retention t id r ≡ true
unfolding is_held
IsHeld-is_held sys asset_retention t id r (inl going) = ground arith
IsHeld-is_held sys asset_retention t id r (inr (front, switched, recent)) =
    ground (arith, eq_iff t.type release_type_frontend_static)

-- A commit that the target needs: its current or previous version, the one that `latest` names, or a
-- version of a release that is not over or that clients may still use.
abbrev pub IsNeeded : System → ℕ → Target → TargetState → String → Type 0
IsNeeded sys asset_retention t st c =
    IsOf c st.current
    ⊎ IsOf c st.previous
    ⊎ ((raw : String) × (live : String) × (sys.live_link ≡ ok raw)
        × (normalize_snapshot_link t raw ≡ ok live)
        × (snapshot_commit live ≡ c)
        × (is_commit c ≡ true))
    ⊎ ((id : String) × (r : Record) × (lookup id st.records ≡ some r)
        × IsHeld sys asset_retention t id r
        × (IsOf c r.baseline ⊎ IsOf c r.candidate))

has-insert :
    (key c : String) (m : Names) → has c (insert key tt m) ≡ (if key == c then true else has c m)
has-insert key c m = ground (arith, lookup-insert key c tt m)

keep-has :
    (held : Option Version) (c : String) (m : Names) → has c m ≡ true → has c (keep held m) ≡ true
unfolding keep
keep-has none c m h = h
keep-has (some v) c m h = ground (arith, has-insert v.commit_id c m)

keep-IsOf :
    (held : Option Version) (c : String) (m : Names) → IsOf c held → has c (keep held m) ≡ true
unfolding keep
keep-IsOf none c m (v, there, same) = absurd (cc)
keep-IsOf (some w) c m (v, there, same) =
    let w_of : w.commit_id ≡ c = cc in rw (has-insert w.commit_id c m, w_of, eq_refl c) refl

-- What `keep_live` gives, by the link that `latest` is read as.
pub keep_live-ok :
    (t : Target) (raw live : String) (m : Names)
    → normalize_snapshot_link t raw ≡ ok live
    → keep_live t raw m
      ≡ (if is_commit (snapshot_commit live) then insert (snapshot_commit live) tt m else m)
unfolding keep_live
keep_live-ok t raw live m normal = rw (normal, keep_live) refl

pub keep_live-err :
    (t : Target) (raw : String) (x : Error) (m : Names)
    → normalize_snapshot_link t raw ≡ err x
    → keep_live t raw m ≡ m
unfolding keep_live
keep_live-err t raw x m unreadable = rw (unreadable, keep_live) refl

keep_live-has :
    (t : Target) (raw c : String) (m : Names) → has c m ≡ true → has c (keep_live t raw m) ≡ true
keep_live-has t raw c m h = elim (Fallible-cases (normalize_snapshot_link t raw)) [
  | inl (x, e) ↦ rw (keep_live-err t raw x m e) h
  | inr (live, e) ↦
      rw (keep_live-ok t raw live m e) (ground (arith, has-insert (snapshot_commit live) c m))
]

keep_live-names :
    (t : Target) (raw live c : String) (m : Names)
    → normalize_snapshot_link t raw ≡ ok live
    → snapshot_commit live ≡ c
    → is_commit c ≡ true
    → has c (keep_live t raw m) ≡ true
keep_live-names t raw live c m normal names full =
    rw (keep_live-ok t raw live m normal, names, full, has-insert c c m, eq_refl c) refl

module _ (sys : System) (asset_retention : ℕ) (t : Target) where
  keep_records-has :
      (rs : Dict Record) (c : String) (m : Names)
      → has c m ≡ true
      → has c (keep_records sys asset_retention t rs m) ≡ true
  unfolding keep_records
  keep_records-has [] c m h = h
  keep_records-has ((id, r) ∷ rs) c m h =
      keep_records-has rs c _ (elim (Bool-cases (is_held sys asset_retention t id r)) [
        | inl held ↦ rw held (keep-has r.candidate c _ (keep-has r.baseline c m h))
        | inr over ↦ rw over h
      ])

  keep_records-held :
      (rs : Dict Record) (id c : String) (r : Record) (m : Names)
      → lookup id rs ≡ some r
      → is_held sys asset_retention t id r ≡ true
      → IsOf c r.baseline ⊎ IsOf c r.candidate
      → has c (keep_records sys asset_retention t rs m) ≡ true
  unfolding keep_records lookup
  keep_records-held [] id c r m there held one = absurd (cc)
  keep_records-held ((name, s) ∷ rs) id c r m there held one = elim (Bool-cases (name == id)) [
    | inr apart ↦ keep_records-held rs id c r _ (rw apart at there) held one
    | inl same ↦
        let same_name = (eq_iff name id).0 same in
        let found : some s ≡ some r = rw same at there in
        let s_is_r : s ≡ r = cc in
        let s_held : is_held sys asset_retention t name s ≡ true = rw (same_name, s_is_r) held in
        keep_records-has rs c _ (
          rw (s_held, s_is_r)
            (elim one [
              | inl old ↦ keep-has r.candidate c _ (keep-IsOf r.baseline c m old)
              | inr new ↦ keep-IsOf r.candidate c _ new
            ]))
  ]

-- A needed commit is among the names that are kept.
pub IsNeeded-needed :
    (sys : System) (asset_retention : ℕ) (t : Target) (st : TargetState) (raw c : String)
    → sys.live_link ≡ ok raw
    → IsNeeded sys asset_retention t st c
    → has c (needed sys asset_retention t st raw) ≡ true
unfolding needed
IsNeeded-needed sys asset_retention t st raw c link n = elim n [
  | inl current ↦
      keep_records-has sys asset_retention t st.records c _
        (keep_live-has t raw c _ (keep-has st.previous c _ (keep-IsOf st.current c [] current)))
  | inr (inl previous) ↦
      keep_records-has sys asset_retention t st.records c _
        (keep_live-has t raw c _ (keep-IsOf st.previous c _ previous))
  | inr (inr (inl (text, live, read, normal, names, full))) ↦
      let same : ok text ≡ ok raw = cc in
      let text_is : text ≡ raw = cc in
      keep_records-has sys asset_retention t st.records c _
        (keep_live-names t raw live c _ (rw (← text_is) normal) names full)
  | inr (inr (inr (id, r, there, held, one))) ↦
      keep_records-held sys asset_retention t st.records id c r _ there
        (IsHeld-is_held sys asset_retention t id r held) one
]

pub keep_newest-has :
    (n : ℕ) (ms : List Manifest) (c : String) (m : Names)
    → has c m ≡ true
    → has c (keep_newest n ms m) ≡ true
unfolding keep_newest
keep_newest-has zero ms c m h = h
keep_newest-has (suc n) [] c m h = h
keep_newest-has (suc n) (k ∷ ks) c m h =
    keep_newest-has n ks c _ (ground (arith, has-insert k.commit_id c m))
