-- ===== src/Snapshot/Kept.antt =====
-- `cleanupSnapshots` of internal/application/publisher/apply.go removes nothing that is needed.
use config_sync_nginx.Base.{
  ℕ, String, true, false, ◌==◌, ◌≡◌, refl, List, [], ◌∷◌, Fallible, ok, err, inl, inr, arith,
  eq_iff, Bool-cases, ◌&&◌,
}
use config_sync_nginx.Base.Chain.{on_ok-holds}
use config_sync_nginx.Base.Dict.{lookup, lookup-insert}
use config_sync_nginx.Base.Keys.{has, lookup-remove}
use config_sync_nginx.Release.Types.{release_type_frontend_static}
use config_sync_nginx.State.{Target, TargetState}
use config_sync_nginx.Snapshot.Types.{Manifest, Entry, dir, Layout, direct, nested, Base}
use config_sync_nginx.Snapshot.Load.{existing_link}
use config_sync_nginx.Snapshot.Cleanup.{
  System, Removal, removed, stopped, Names, put_snapshot, drop_snapshot, drop_manifest,
  remove_manifest, remove_snapshot, remove_snapshots, remove_unneeded, cleanup_listed,
  cleanup_snapshots, load_manifests, newest_first, add_assets,
}
use config_sync_nginx.Snapshot.Needed.{IsNeeded, IsNeeded-needed, keep_newest-has}

-- The manifest and the snapshots of the commit are as they were.
abbrev pub IsUntouched : String → Base → Base → Type 0
IsUntouched c base after =
    (lookup c after.manifests ≡ lookup c base.manifests)
    × (lookup c after.direct_snapshots ≡ lookup c base.direct_snapshots)
    × (lookup c after.nested_snapshots ≡ lookup c base.nested_snapshots)

IsUntouched-trans :
    (c : String) (a b d : Base) → IsUntouched c a b → IsUntouched c b d → IsUntouched c a d
IsUntouched-trans c a b d (m, s, n) (m₁, s₁, n₁) = (cc, cc, cc)

put_snapshot-IsUntouched :
    (layout : Layout) (name c : String) (e : Entry) (base : Base)
    → (name == c) ≡ false
    → IsUntouched c base (put_snapshot layout name e base)
unfolding put_snapshot
put_snapshot-IsUntouched direct name c e base apart =
    (refl, ground (arith, lookup-insert name c e base.direct_snapshots), refl)
put_snapshot-IsUntouched nested name c e base apart =
    (refl, refl, ground (arith, lookup-insert name c e base.nested_snapshots))

drop_snapshot-IsUntouched :
    (layout : Layout) (name c : String) (base : Base)
    → (name == c) ≡ false
    → IsUntouched c base (drop_snapshot layout name base)
unfolding drop_snapshot
drop_snapshot-IsUntouched direct name c base apart =
    (refl, ground (arith, lookup-remove name c base.direct_snapshots), refl)
drop_snapshot-IsUntouched nested name c base apart =
    (refl, refl, ground (arith, lookup-remove name c base.nested_snapshots))

drop_manifest-IsUntouched :
    (name c : String) (base : Base)
    → (name == c) ≡ false
    → IsUntouched c base (drop_manifest name base)
unfolding drop_manifest
drop_manifest-IsUntouched name c base apart =
    (ground (arith, lookup-remove name c base.manifests), refl, refl)

module _ (sys : System) where
  remove_manifest-IsUntouched :
      (layout : Layout) (name c : String) (base : Base) (r : Removal)
      → (name == c) ≡ false
      → IsUntouched c base (remove_manifest sys name layout base r).1
  unfolding remove_manifest
  remove_manifest-IsUntouched layout name c base (stopped e left) apart =
      put_snapshot-IsUntouched layout name c (dir left) base apart
  remove_manifest-IsUntouched layout name c base removed apart =
      let gone = drop_snapshot-IsUntouched layout name c base apart in
      on_ok-holds (IsUntouched c base) (sys.unlink name) (drop_snapshot layout name base) _ gone
        λ u unlinked.
          IsUntouched-trans c base (drop_snapshot layout name base)
            (drop_manifest name (drop_snapshot layout name base)) gone
            (drop_manifest-IsUntouched name c (drop_snapshot layout name base) apart)

  remove_snapshot-IsUntouched :
      (name c : String) (base : Base)
      → (name == c) ≡ false
      → IsUntouched c base (remove_snapshot sys name base).1
  unfolding remove_snapshot
  remove_snapshot-IsUntouched name c base apart =
      on_ok-holds (IsUntouched c base) (existing_link base name) base _ (refl, refl, refl)
        λ layout found. remove_manifest-IsUntouched layout name c base _ apart

  remove_snapshots-IsUntouched :
      (protect : Names) (ms : List Manifest) (live : Names) (base : Base) (c : String)
      → has c protect ≡ true
      → IsUntouched c base (remove_snapshots sys protect ms live base).1
  unfolding remove_snapshots
  remove_snapshots-IsUntouched protect [] live base c kept = (refl, refl, refl)
  remove_snapshots-IsUntouched protect (m ∷ ms) live base c kept =
      on_ok-holds (IsUntouched c base) (sys.ctx m.commit_id) base _ (refl, refl, refl)
        λ u going. elim (Bool-cases (has m.commit_id protect)) [
          | inl held ↦
              rw held
                (remove_snapshots-IsUntouched protect ms (add_assets m.assets live) base c kept)
          | inr loose ↦
              let apart : (m.commit_id == c) ≡ false = ground (arith, eq_iff m.commit_id c) in
              let here = remove_snapshot-IsUntouched m.commit_id c base apart in
              let done = remove_snapshot sys m.commit_id base in
              rw loose (
                on_ok-holds (IsUntouched c base) done.0 done.1 _ here λ v fine.
                  IsUntouched-trans c base done.1 (remove_snapshots sys protect ms live done.1).1
                    here (remove_snapshots-IsUntouched protect ms live done.1 c kept))
        ]

  remove_unneeded-IsUntouched :
      (asset_retention : ℕ) (t : Target) (protect : Names) (ms : List Manifest) (base : Base)
      (c : String)
      → has c protect ≡ true
      → IsUntouched c base (remove_unneeded sys asset_retention t protect ms base).1
  unfolding remove_unneeded
  remove_unneeded-IsUntouched asset_retention t protect ms base c kept =
      let here = remove_snapshots-IsUntouched protect ms [] base c kept in
      let done = remove_snapshots sys protect ms [] base in
      on_ok-holds (IsUntouched c base) done.0 done.1 _ here λ live fine.
        elim (Bool-cases (t.type == release_type_frontend_static && t.shared_assets)) [
          | inl shared ↦ rw shared here
          | inr alone ↦ rw alone here
        ]

  cleanup_listed-IsUntouched :
      (keep_releases asset_retention : ℕ) (t : Target) (st : TargetState) (base : Base) (c : String)
      (l : Fallible (Unit {0}))
      → IsNeeded sys asset_retention t st c
      → IsUntouched c base (cleanup_listed sys keep_releases asset_retention t st base l).1
  unfolding cleanup_listed
  cleanup_listed-IsUntouched keep_releases asset_retention t st base c (err e) n =
      (refl, refl, refl)
  cleanup_listed-IsUntouched keep_releases asset_retention t st base c (ok listed) n =
      on_ok-holds (IsUntouched c base) sys.live_link base _ (refl, refl, refl)
        λ raw read.
          on_ok-holds (IsUntouched c base) (load_manifests sys.ctx base base.manifests) base _
            (refl, refl, refl)
            λ ms loaded. remove_unneeded-IsUntouched asset_retention t _ (newest_first ms) base c (
              keep_newest-has keep_releases (newest_first ms) c _
                (IsNeeded-needed sys asset_retention t st raw c read n))

  -- Whatever the system answers, also where a removal fails half-way, `cleanupSnapshots` leaves the
  -- manifest and the snapshots of every commit that the target needs as they were.
  pub cleanup_snapshots-IsUntouched :
      (keep_releases asset_retention : ℕ) (t : Target) (st : TargetState) (base : Base) (c : String)
      → IsNeeded sys asset_retention t st c
      → IsUntouched c base (cleanup_snapshots sys keep_releases asset_retention t st base).1
  unfolding cleanup_snapshots
  cleanup_snapshots-IsUntouched keep_releases asset_retention t st base c n =
      on_ok-holds (IsUntouched c base) sys.opened base _ (refl, refl, refl)
        λ u opened.
          cleanup_listed-IsUntouched keep_releases asset_retention t st base c sys.listed n
