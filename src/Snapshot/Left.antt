-- ===== src/Snapshot/Left.antt =====
-- Which manifests `cleanupSnapshots` of internal/application/publisher/apply.go leaves.
use config_sync_nginx.Base.{
  ℕ, ◌≤◌, String, Bool, true, false, not, ◌==◌, ◌≡◌, refl, ap, List, [], ◌∷◌, other, not_exist,
  Fallible, ok, err, inl, inr, arith, eq_iff, subst, Bool-cases, Option-cases, ◌&&◌, ◌||◌, length,
  All,
}
use config_sync_nginx.Base.Chain.{on_ok-ok, >>-ok, >>=-ok, fail_if-ok}
use config_sync_nginx.Base.Dict.{Dict, lookup}
use config_sync_nginx.Base.Keys.{has, remove, lookup-remove, Distinct, Within-le, remove-Distinct}
use config_sync_nginx.Release.Types.{release_type_frontend_static}
use config_sync_nginx.Release.Identity.{is_commit}
use config_sync_nginx.State.{Target}
use config_sync_nginx.Snapshot.Types.{
  Manifest, ManifestFile, unreadable, malformed, without_files, decoded, Layout, direct, nested,
  Base, Context,
}
use config_sync_nginx.Snapshot.Load.{
  existing_link, link_of, load_manifest, read_manifest, check_manifest, check_files, check_assets,
}
use config_sync_nginx.Snapshot.Cleanup.{
  System, Removal, removed, stopped, Names, drop_snapshot, drop_manifest, remove_manifest,
  remove_snapshot, remove_snapshots, remove_assets, remove_unneeded, load_manifests, newest_first,
  place_newest, add_assets,
}

-- Whether one of the manifests is of the commit.
unfoldable pub mentions : String → List Manifest → Bool
mentions c [] = false
mentions c (m ∷ ms) = m.commit_id == c || mentions c ms

mentions-place_newest :
    (c : String) (m : Manifest) (ms : List Manifest)
    → mentions c (place_newest m ms) ≡ (m.commit_id == c || mentions c ms)
unfolding place_newest mentions
mentions-place_newest c m [] = refl
mentions-place_newest c m (k ∷ ks) = ground (arith, mentions-place_newest c m ks)

pub mentions-newest_first :
    (c : String) (ms : List Manifest) → mentions c (newest_first ms) ≡ mentions c ms
unfolding newest_first mentions
mentions-newest_first c [] = refl
mentions-newest_first c (m ∷ ms) =
    rw (mentions-place_newest c m (newest_first ms), mentions-newest_first c ms) refl

read_manifest-commit :
    (c : String) (file : ManifestFile) {m : Manifest}
    → read_manifest c file ≡ ok m
    → m.commit_id ≡ c
unfolding read_manifest check_manifest
read_manifest-commit c (unreadable e) read = absurd (cc)
read_manifest-commit c malformed read = absurd (cc)
read_manifest-commit c without_files read = absurd (cc)
read_manifest-commit c (decoded k) {m} read =
    let (same, behind) = fail_if-ok (not (k.commit_id == c)) _ _ read in
    let (files, behind₁) = >>-ok (check_files k.files) _ behind in
    let (assets, given) = >>-ok (check_assets k.files k.assets) _ behind₁ in
    let k_is_m : k ≡ m = cc in
    let k_is_c : k.commit_id ≡ c = ground (arith, eq_iff k.commit_id c) in
    subst (λ x. x.commit_id ≡ c) k_is_m k_is_c

-- A manifest that is loaded is of the commit that was asked for.
load_manifest-commit :
    (base : Base) (c : String) {m : Manifest} → load_manifest base c ≡ ok m → m.commit_id ≡ c
unfolding load_manifest
load_manifest-commit base c {m} loaded = elim (Bool-cases (is_commit c)) [
  | inr bad ↦ let h : err (other "invalid manifest commit") ≡ ok m = rw bad at loaded in absurd (cc)
  | inl good ↦ elim (Option-cases (lookup c base.manifests)) [
    | inl missing ↦ let h : err not_exist ≡ ok m = rw (good, missing) at loaded in absurd (cc)
    | inr (file, there) ↦ read_manifest-commit c file (rw (good, there) at loaded)
  ]
]

pub load_manifests-mentions :
    (ctx : Context) (base : Base) (files : Dict ManifestFile) {ms : List Manifest} (c : String)
    → All (λ e. is_commit e.0 ≡ true) files
    → load_manifests ctx base files ≡ ok ms
    → has c files ≡ true
    → mentions c ms ≡ true
unfolding load_manifests lookup mentions
load_manifests-mentions ctx base [] c full loaded there = absurd (cc)
load_manifests-mentions ctx base ((id, file) ∷ files) {ms} c (good, full) loaded there =
    let (going, behind) = >>-ok (ctx id) _ loaded in
    let (m, read, behind₁) = >>=-ok (load_manifest base id) _ (rw good at behind) in
    let (later, read_later, given) = >>=-ok (load_manifests ctx base files) _ behind₁ in
    let m_is : m.commit_id ≡ id = load_manifest-commit base id read in
    let ms_is : m ∷ later ≡ ms = cc in
    let later_has : has c files ≡ true → mentions c later ≡ true =
      load_manifests-mentions ctx base files c full read_later in
    let all_have : mentions c (m ∷ later) ≡ true =
      rw m_is (ground (arith, later_has, eq_iff id c)) in
    subst (λ l. mentions c l ≡ true) ms_is all_have

drop_snapshot-manifests :
    (layout : Layout) (name : String) (base : Base)
    → (drop_snapshot layout name base).manifests ≡ base.manifests
unfolding drop_snapshot
drop_snapshot-manifests direct name base = refl
drop_snapshot-manifests nested name base = refl

remove_manifest-manifests :
    (sys : System) (name : String) (layout : Layout) (base : Base) (r : Removal) {after : Base}
    → remove_manifest sys name layout base r ≡ (ok tt, after)
    → after.manifests ≡ remove name base.manifests
unfolding remove_manifest drop_manifest
remove_manifest-manifests sys name layout base (stopped e left) done = absurd (cc)
remove_manifest-manifests sys name layout base removed {after} done =
    let gone = drop_snapshot layout name base in
    let (u, unlinked, behind) = on_ok-ok (sys.unlink name) gone _ done in
    let now : drop_manifest name gone ≡ after = cc in
    subst (λ b. b.manifests ≡ remove name base.manifests) now
      (ap (remove name) (drop_snapshot-manifests layout name base))

-- A snapshot that was removed takes its manifest along, and no other.
remove_snapshot-manifests :
    (sys : System) (name : String) (base : Base) {after : Base}
    → remove_snapshot sys name base ≡ (ok tt, after)
    → after.manifests ≡ remove name base.manifests
unfolding remove_snapshot
remove_snapshot-manifests sys name base {after} done =
    let (layout, found, behind) = on_ok-ok (existing_link base name) base _ done in
    remove_manifest-manifests sys name layout base (sys.remove_tree (link_of layout name)) behind

-- What is left of a manifest behind the loop: it was there, and it is kept if it was gone through.
abbrev IsLeft : Names → List Manifest → Base → Base → String → Type 0
IsLeft protect ms base after c =
    (has c base.manifests ≡ true) × (mentions c ms ≡ true → has c protect ≡ true)

module _ (sys : System) where
  remove_snapshots-IsLeft :
      (protect : Names) (ms : List Manifest) (live : Names) (base : Base) {kept : Names}
      {after : Base}
      → remove_snapshots sys protect ms live base ≡ (ok kept, after)
      → Distinct base.manifests
      → Distinct after.manifests
        × ((c : String) → has c after.manifests ≡ true → IsLeft protect ms base after c)
  unfolding remove_snapshots mentions
  remove_snapshots-IsLeft protect [] live base {kept} {after} done d =
      let now : base ≡ after = cc in
      let left : (c : String) → has c base.manifests ≡ true → IsLeft protect [] base base c =
        λ c there. (there, λ never. absurd (cc)) in
      subst
        (λ b.
          Distinct b.manifests
          × ((c : String) → has c b.manifests ≡ true → IsLeft protect [] base b c))
        now (d, left)
  remove_snapshots-IsLeft protect (m ∷ ms) live base done d =
      let (u, going, behind) = on_ok-ok (sys.ctx m.commit_id) base _ done in
      elim (Bool-cases (has m.commit_id protect)) [
        | inl held ↦
            let (d₁, left) =
              remove_snapshots-IsLeft protect ms (add_assets m.assets live) base (rw held at behind)
                d in
            (
              d₁,
              λ c there.
                  let (old, by) = left c there in
                  (old, λ mentioned. ground (arith, by, eq_iff m.commit_id c)),
            )
        | inr loose ↦
            let gone = remove_snapshot sys m.commit_id base in
            let (v, removed_one, behind₁) = on_ok-ok gone.0 gone.1 _ (rw loose at behind) in
            let fewer : gone.1.manifests ≡ remove m.commit_id base.manifests =
              remove_snapshot-manifests sys m.commit_id base {after = gone.1} (cc) in
            let (d₁, left) =
              remove_snapshots-IsLeft protect ms live gone.1 behind₁
                (rw fewer (remove-Distinct m.commit_id base.manifests d)) in
            (
              d₁,
              λ c there.
                  let (old, by) = left c there in
                  let old₁ : has c (remove m.commit_id base.manifests) ≡ true = rw fewer at old in
                  ground (arith, by, old₁, lookup-remove m.commit_id c base.manifests),
            )
      ]

  pub remove_unneeded-le :
      (asset_retention : ℕ) (t : Target) (protect : Names) (ms : List Manifest) (base : Base)
      {after : Base}
      → remove_unneeded sys asset_retention t protect ms base ≡ (ok tt, after)
      → Distinct base.manifests
      → ((c : String) → has c base.manifests ≡ true → mentions c ms ≡ true)
      → length after.manifests ≤ length protect
  unfolding remove_unneeded
  remove_unneeded-le asset_retention t protect ms base {after} done d every =
      let loop = remove_snapshots sys protect ms [] base in
      let (live, looped, behind) = on_ok-ok loop.0 loop.1 _ done in
      let (d₁, left) =
        remove_snapshots-IsLeft protect ms [] base {kept = live} {after = loop.1} (cc) d in
      let fits : length loop.1.manifests ≤ length protect =
        Within-le loop.1.manifests protect d₁
          (λ c there. let (old, by) = left c there in by (every c old)) in
      elim (Bool-cases (t.type == release_type_frontend_static && t.shared_assets)) [
        | inr alone ↦
            let now : (ok tt, loop.1) ≡ (ok tt, after) = rw alone at behind in
            subst (λ b. length b.manifests ≤ length protect)
              (ap (λ (r : Fallible (Unit {0}) × Base). r.1) now) fits
        | inl shared ↦
            let swept = remove_assets sys asset_retention live loop.1.assets in
            let now : (swept.0, record (loop.1) { assets = swept.1 }) ≡ (ok tt, after) =
              rw shared at behind in
            subst (λ b. length b.manifests ≤ length protect)
              (ap (λ (r : Fallible (Unit {0}) × Base). r.1) now) fits
      ]
