-- ===== src/Snapshot/Cleanup.antt =====
-- `cleanupSnapshots` of internal/application/publisher/apply.go.
use config_sync_nginx.Base.{
  ℕ, suc, zero, ◌+◌, ltb, String, Bool, true, false, not, ◌&&◌, ◌||◌, ◌==◌, List, [], ◌∷◌, Option,
  none, some, Error, Fallible, ok, err, ◌>>=◌, ◌>>◌, if◌then◌else◌, is_not_exist,
}
use config_sync_nginx.Base.Chain.{on_ok}
use config_sync_nginx.Base.Dict.{Dict, insert}
use config_sync_nginx.Base.Keys.{has, remove}
use config_sync_nginx.Release.Types.{is_terminal, release_type_frontend_static}
use config_sync_nginx.Release.Identity.{is_commit}
use config_sync_nginx.State.{Target, TargetState, Record, Version}
use config_sync_nginx.Publisher.Steps.{normalize_snapshot_link, snapshot_commit}
use config_sync_nginx.Snapshot.Types.{
  Manifest, ManifestFile, Leaf, Entry, dir, Layout, direct, nested, Asset, Base, Context,
}
use config_sync_nginx.Snapshot.Load.{load_manifest, existing_link, link_of}

-- `RemoveTree` succeeds, or fails and leaves a part of the files.
pub data Removal : Type 0 where
  removed : Removal
  stopped : Error → Dict Leaf → Removal

-- What the system answers to a cleanup: the opening of the directory, the listing of `.manifests`, the
-- text of `latest`, the time at which a record or an asset is looked at, and the removals by name.
pub record System : Type 0 where
  pub opened : Fallible (Unit {0})
  pub listed : Fallible (Unit {0})
  pub live_link : Fallible String
  pub now : String → ℕ
  pub ctx : Context
  pub remove_tree : String → Removal
  pub unlink : String → Fallible (Unit {0})

-- A set of names.
abbrev pub Names : Type 0
Names = Dict (Unit {0})

-- The closure `keep`.
unfoldable pub keep : Option Version → Names → Names
keep none protect = protect
keep (some v) protect = insert v.commit_id tt protect

-- Whether the versions of a record are kept: its release is not over, or it is a frontend release that
-- clients may still use.
unfoldable pub is_held : System → ℕ → Target → String → Record → Bool
is_held sys asset_retention t id r =
    not (is_terminal r.result.status)
    || (t.type == release_type_frontend_static
        && r.intent
        && ltb (sys.now id) (r.result.finished_at + asset_retention))

-- The loop over the records.
unfoldable pub keep_records : System → ℕ → Target → Dict Record → Names → Names
unfolding keep is_held
keep_records sys asset_retention t [] protect = protect
keep_records sys asset_retention t ((id, r) ∷ rs) protect = keep_records sys asset_retention t rs (
    if is_held sys asset_retention t id r
    then keep r.candidate (keep r.baseline protect)
    else protect)

-- The commit that `latest` names.
unfoldable pub keep_live : Target → String → Names → Names
keep_live t raw protect = elim (normalize_snapshot_link t raw) [
  | err e ↦ protect
  | ok live ↦
      if is_commit (snapshot_commit live) then insert (snapshot_commit live) tt protect else protect
]

-- The loop over the manifest files; a file whose name is no commit is left alone.
unfoldable pub load_manifests : Context → Base → Dict ManifestFile → Fallible (List Manifest)
load_manifests ctx base [] = ok []
load_manifests ctx base ((id, file) ∷ files) = do
  ctx id
  elim (is_commit id) [
    | false ↦ load_manifests ctx base files
    | true ↦ do m ← load_manifest base id; ms ← load_manifests ctx base files; ok (m ∷ ms)
  ]

-- `sort.Slice` by `CreatedAt`, the newest first.
unfoldable pub place_newest : Manifest → List Manifest → List Manifest
place_newest m [] = m ∷ []
place_newest m (k ∷ ks) =
    let later = place_newest m ks in if ltb m.created_at k.created_at then k ∷ later else m ∷ k ∷ ks

unfoldable pub newest_first : List Manifest → List Manifest
unfolding place_newest
newest_first [] = []
newest_first (m ∷ ms) = place_newest m (newest_first ms)

-- The newest `KeepReleases` manifests are kept.
unfoldable pub keep_newest : ℕ → List Manifest → Names → Names
keep_newest zero ms protect = protect
keep_newest (suc n) [] protect = protect
keep_newest (suc n) (m ∷ ms) protect = keep_newest n ms (insert m.commit_id tt protect)

-- The assets of a manifest that is kept.
unfoldable pub add_assets : Dict String → Names → Names
add_assets [] live = live
add_assets ((name, digest) ∷ assets) live = add_assets assets (insert name tt live)

-- The directory with the snapshot at a place replaced, or removed.
unfoldable pub put_snapshot : Layout → String → Entry → Base → Base
put_snapshot direct commit e base = record base {
  direct_snapshots = insert commit e base.direct_snapshots;
}
put_snapshot nested commit e base = record base {
  nested_snapshots = insert commit e base.nested_snapshots;
}

unfoldable pub drop_snapshot : Layout → String → Base → Base
drop_snapshot direct commit base = record base {
  direct_snapshots = remove commit base.direct_snapshots;
}
drop_snapshot nested commit base = record base {
  nested_snapshots = remove commit base.nested_snapshots;
}

unfoldable pub drop_manifest : String → Base → Base
drop_manifest commit base = record base { manifests = remove commit base.manifests }

-- What is done behind `RemoveTree`: `base.Remove` of the manifest.
unfoldable pub remove_manifest :
    System → String → Layout → Base → Removal → Fallible (Unit {0}) × Base
unfolding put_snapshot drop_snapshot drop_manifest
remove_manifest sys commit layout base (stopped e left) =
    (err e, put_snapshot layout commit (dir left) base)
remove_manifest sys commit layout base removed =
    let gone = drop_snapshot layout commit base in
    on_ok (sys.unlink commit) gone λ done. (ok tt, drop_manifest commit gone)

-- The removal of one snapshot and of its manifest.
unfoldable pub remove_snapshot : System → String → Base → Fallible (Unit {0}) × Base
unfolding on_ok remove_manifest
remove_snapshot sys commit base =
    on_ok (existing_link base commit) base
      λ layout. remove_manifest sys commit layout base (sys.remove_tree (link_of layout commit))

-- The loop over the manifests, with the assets of those that stay.
unfoldable pub remove_snapshots :
    System → Names → List Manifest → Names → Base → Fallible Names × Base
unfolding add_assets on_ok
remove_snapshots sys protect [] live base = (ok live, base)
remove_snapshots sys protect (m ∷ ms) live base = on_ok (sys.ctx m.commit_id) base λ going.
    elim (has m.commit_id protect) [
      | true ↦ remove_snapshots sys protect ms (add_assets m.assets live) base
      | false ↦
          let done = remove_snapshot sys m.commit_id base in
          on_ok done.0 done.1 λ removed_one. remove_snapshots sys protect ms live done.1
    ]

-- The walk over the shared assets: those that no kept manifest names and that are old are removed.
unfoldable pub remove_assets : System → ℕ → Names → Dict Asset → Fallible (Unit {0}) × Dict Asset
remove_assets sys asset_retention live [] = (ok tt, [])
remove_assets sys asset_retention live ((name, asset) ∷ rest) = elim (sys.ctx name) [
  | err e ↦ (err e, (name, asset) ∷ rest)
  | ok u ↦
      let others = remove_assets sys asset_retention live rest in
      elim (has name live || ltb (sys.now name) (asset.changed_at + asset_retention)) [
        | true ↦ (others.0, (name, asset) ∷ others.1)
        | false ↦ elim (sys.unlink name) [ err e ↦ (err e, (name, asset) ∷ rest) | ok v ↦ others ]
      ]
]

-- What is kept whatever the age of a manifest.
unfoldable pub needed : System → ℕ → Target → TargetState → String → Names
unfolding keep keep_live keep_records
needed sys asset_retention t st raw =
    keep_records sys asset_retention t st.records
      (keep_live t raw (keep st.previous (keep st.current [])))

-- The removals behind the loading of the manifests.
unfoldable pub remove_unneeded :
    System → ℕ → Target → Names → List Manifest → Base → Fallible (Unit {0}) × Base
unfolding remove_snapshots remove_assets on_ok
remove_unneeded sys asset_retention t protect ms base =
    let done = remove_snapshots sys protect ms [] base in
    on_ok done.0 done.1 λ live.
      let swept = remove_assets sys asset_retention live (done.1).assets in
      if t.type == release_type_frontend_static && t.shared_assets
      then (swept.0, record (done.1) { assets = swept.1 })
      else (ok tt, done.1)

-- `cleanupSnapshots` behind the listing of the manifests.
unfoldable pub cleanup_listed :
    System → ℕ → ℕ → Target → TargetState → Base → Fallible (Unit {0}) → Fallible (Unit {0}) × Base
unfolding needed load_manifests newest_first keep_newest remove_unneeded on_ok
cleanup_listed sys keep_releases asset_retention t st base (err e) =
    (if is_not_exist e then ok tt else err e, base)
cleanup_listed sys keep_releases asset_retention t st base (ok listed) =
    on_ok sys.live_link base λ raw.
      on_ok (load_manifests sys.ctx base base.manifests) base λ loaded.
        let ms = newest_first loaded in
        remove_unneeded sys asset_retention t
          (keep_newest keep_releases ms (needed sys asset_retention t st raw)) ms base

-- `cleanupSnapshots`.
unfoldable pub cleanup_snapshots :
    System → ℕ → ℕ → Target → TargetState → Base → Fallible (Unit {0}) × Base
unfolding cleanup_listed on_ok
cleanup_snapshots sys keep_releases asset_retention t st base =
    on_ok sys.opened base
      λ opened. cleanup_listed sys keep_releases asset_retention t st base sys.listed
