-- ===== src/Snapshot/Bounds.antt =====
-- How much `cleanupSnapshots` of internal/application/publisher/apply.go leaves.
use config_sync_nginx.Base.{
  ℕ, suc, zero, ◌+◌, ◌*◌, ◌≤◌, String, true, ◌≡◌, List, [], ◌∷◌, Option, none, some, Fallible, ok,
  err, inl, inr, arith, Bool-cases, if◌then◌else◌, length, All,
}
use config_sync_nginx.Base.Chain.{Fallible-cases, on_ok-ok}
use config_sync_nginx.Base.Dict.{Dict, insert}
use config_sync_nginx.Base.Keys.{Distinct, length-insert}
use config_sync_nginx.Release.Identity.{is_commit}
use config_sync_nginx.State.{Target, TargetState, Record, Version}
use config_sync_nginx.Publisher.Steps.{normalize_snapshot_link, snapshot_commit}
use config_sync_nginx.Snapshot.Types.{Manifest, Base}
use config_sync_nginx.Snapshot.Needed.{keep_live-ok, keep_live-err}
use config_sync_nginx.Snapshot.Cleanup.{
  System, Names, keep, is_held, keep_records, keep_live, keep_newest, needed, cleanup_listed,
  cleanup_snapshots, load_manifests, newest_first,
}
use config_sync_nginx.Snapshot.Left.{
  mentions-newest_first, load_manifests-mentions, remove_unneeded-le,
}

length-keep : (held : Option Version) (m : Names) → length (keep held m) ≤ suc (length m)
unfolding keep
length-keep none m = omega arith
length-keep (some v) m = length-insert v.commit_id tt m

length-keep_live :
    (t : Target) (raw : String) (m : Names) → length (keep_live t raw m) ≤ suc (length m)
length-keep_live t raw m = elim (Fallible-cases (normalize_snapshot_link t raw)) [
  | inl (x, e) ↦ rw (keep_live-err t raw x m e) (omega arith)
  | inr (live, e) ↦
      rw (keep_live-ok t raw live m e) (ground (arith, length-insert (snapshot_commit live) tt m))
]

length-keep_newest :
    (n : ℕ) (ms : List Manifest) (m : Names) → length (keep_newest n ms m) ≤ n + length m
unfolding keep_newest
length-keep_newest zero ms m = omega arith
length-keep_newest (suc n) [] m = omega arith
length-keep_newest (suc n) (k ∷ ks) m =
    omega (arith, length-keep_newest n ks (insert k.commit_id tt m), length-insert k.commit_id tt m)

-- How many records still hold their versions.
unfoldable pub held_records : System → ℕ → Target → Dict Record → ℕ
held_records sys asset_retention t [] = 0
held_records sys asset_retention t ((id, r) ∷ rs) =
    let rest = held_records sys asset_retention t rs in
    if is_held sys asset_retention t id r then suc rest else rest

module _ (sys : System) (asset_retention : ℕ) (t : Target) where
  length-keep_records :
      (rs : Dict Record) (m : Names)
      → length (keep_records sys asset_retention t rs m)
        ≤ 2 * held_records sys asset_retention t rs + length m
  unfolding keep_records held_records
  length-keep_records [] m = omega arith
  length-keep_records ((id, r) ∷ rs) m = elim (Bool-cases (is_held sys asset_retention t id r)) [
    | inl held ↦ rw held (
        omega (
          arith,
          length-keep_records rs (keep r.candidate (keep r.baseline m)),
          length-keep r.candidate (keep r.baseline m),
          length-keep r.baseline m,
        ))
    | inr over ↦ rw over (length-keep_records rs m)
  ]

  length-needed :
      (st : TargetState) (raw : String)
      → length (needed sys asset_retention t st raw)
        ≤ 2 * held_records sys asset_retention t st.records + 3
  unfolding needed
  length-needed st raw = omega (
    arith,
    length-keep_records st.records (keep_live t raw (keep st.previous (keep st.current []))),
    length-keep_live t raw (keep st.previous (keep st.current [])),
    length-keep st.previous (keep st.current []),
    length-keep st.current [],
  )

  cleanup_listed-le :
      (keep_releases : ℕ) (st : TargetState) (base after : Base) (l : Fallible (Unit {0}))
      → l ≡ ok tt
      → Distinct base.manifests
      → All (λ e. is_commit e.0 ≡ true) base.manifests
      → cleanup_listed sys keep_releases asset_retention t st base l ≡ (ok tt, after)
      → length after.manifests
        ≤ keep_releases + (2 * held_records sys asset_retention t st.records + 3)
  unfolding cleanup_listed
  cleanup_listed-le keep_releases st base after (err e) listed d full done = absurd (cc)
  cleanup_listed-le keep_releases st base after (ok u) listed d full done =
      let (raw, read, behind) = on_ok-ok sys.live_link base _ done in
      let (ms, loaded, behind₁) =
        on_ok-ok (load_manifests sys.ctx base base.manifests) base _ behind in
      let kept = needed sys asset_retention t st raw in
      let protect = keep_newest keep_releases (newest_first ms) kept in
      omega (
        arith,
        remove_unneeded-le sys asset_retention t protect (newest_first ms) base behind₁ d
            (λ c there.
              rw (mentions-newest_first c ms)
                (load_manifests-mentions sys.ctx base base.manifests c full loaded there)),
        length-keep_newest keep_releases (newest_first ms) kept,
        length-needed st raw,
      )

  -- Where the manifests are listed, each under its commit, a cleanup that succeeds leaves at most
  -- `KeepReleases` manifests, three for the versions that are current, previous or live, and two for
  -- each record that still holds its versions.
  pub cleanup_snapshots-le :
      (keep_releases : ℕ) (st : TargetState) (base after : Base)
      → sys.listed ≡ ok tt
      → Distinct base.manifests
      → All (λ e. is_commit e.0 ≡ true) base.manifests
      → cleanup_snapshots sys keep_releases asset_retention t st base ≡ (ok tt, after)
      → length after.manifests
        ≤ keep_releases + (2 * held_records sys asset_retention t st.records + 3)
  unfolding cleanup_snapshots
  cleanup_snapshots-le keep_releases st base after listed d full done =
      let (u, opened, behind) = on_ok-ok sys.opened base _ done in
      cleanup_listed-le keep_releases st base after sys.listed listed d full behind
