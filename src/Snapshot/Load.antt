-- ===== src/Snapshot/Load.antt =====
-- `loadManifest`, `existingSnapshotLink`, `verifySnapshot` and what they use, in
-- internal/application/publisher/apply.go.
use config_sync_nginx.Base.{
  ℕ, suc, String, Bool, not, ◌&&◌, ◌||◌, ◌==◌, ◌<>◌, [], ◌∷◌, Option, none, some, other, not_exist,
  Fallible, ok, err, ◌>>=◌, ◌>>◌, fail_if, all, length, nat_eq, len, if◌then◌else◌, is_not_exist,
}
use config_sync_nginx.Base.Dict.{Dict, lookup}
use config_sync_nginx.Base.Int.{pos, is_negative, int_eq}
use config_sync_nginx.Base.Text.{codes, contains_code, has_prefix, cut_after}
use config_sync_nginx.Base.FilePath.{split_path}
use config_sync_nginx.Release.Identity.{is_commit, is_artifact_digest}
use config_sync_nginx.State.{Version}
use config_sync_nginx.Snapshot.Types.{
  File, Manifest, ManifestFile, unreadable, malformed, without_files, decoded, Leaf, regular,
  irregular, broken, Entry, dir, no_dir, lost, Layout, direct, nested, Base, Context,
}

-- `artifactDigest`: the digest behind the first `@` of a source.
unfoldable pub artifact_digest_of : String → String
unfolding cut_after
artifact_digest_of source = elim (cut_after b'@' source) [
  | none ↦ ""
  | some digest ↦ if is_artifact_digest digest then digest else ""
]

-- `fs.ValidPath`: the path is `.`, or no element is empty, `.` or `..`.
unfoldable pub valid_path : String → Bool
valid_path name =
    name == "." || all (λ p. not (p == "") && not (p == ".") && not (p == "..")) (split_path name)

-- `expected == got`.
abbrev pub file_eq : File → File → Bool
file_eq a b = a.sha256 == b.sha256 && int_eq a.size b.size

-- The value of a Go map of files at a name, which is the zero value where it is missing.
abbrev pub file_of : String → Dict File → File
file_of name files = elim (lookup name files) [
  | none ↦ record { sha256 = ""; size = pos 0 }
  | some f ↦ f
]

-- The loop over the files of a manifest.
unfoldable pub check_files : Dict File → Fallible (Unit {0})
check_files [] = ok tt
check_files ((name, file) ∷ rest) = do
  fail_if
      (not (nat_eq (len file.sha256) 64) || not (is_commit file.sha256) || is_negative file.size)
      (other "invalid manifest digest or size")
  fail_if (not (valid_path name) || contains_code 92 (codes name)) (other "unsafe manifest path")
  check_files rest

-- The loop over the assets of a manifest.
unfoldable pub check_assets : Dict File → Dict String → Fallible (Unit {0})
check_assets files [] = ok tt
check_assets files ((name, digest) ∷ rest) = do
  fail_if
      (not (has_prefix name "assets/")
        || not ((file_of name files).sha256 == digest)
        || not (nat_eq (len digest) 64))
      (other "invalid asset manifest")
  check_assets files rest

-- A manifest that was decoded, for the commit.
unfoldable pub check_manifest : String → Manifest → Fallible Manifest
unfolding check_files check_assets
check_manifest commit m = do
  fail_if (not (m.commit_id == commit)) (other "invalid snapshot manifest")
  check_files m.files
  check_assets m.files m.assets
  ok m

unfoldable pub read_manifest : String → ManifestFile → Fallible Manifest
read_manifest commit (unreadable e) = err e
read_manifest commit malformed = err (other "invalid snapshot manifest")
read_manifest commit without_files = err (other "invalid snapshot manifest")
read_manifest commit (decoded m) = check_manifest commit m

-- `loadManifest`.
unfoldable pub load_manifest : Base → String → Fallible Manifest
unfolding read_manifest
load_manifest base commit =
    if not (is_commit commit)
    then err (other "invalid manifest commit")
    else elim (lookup commit base.manifests) [
      | none ↦ err not_exist
      | some file ↦ read_manifest commit file
    ]

-- `hashFile`.
unfoldable pub hash_file : String → Leaf → Fallible File
hash_file name (regular f) = ok f
hash_file name irregular = err (other ("non-regular file " <> name))
hash_file name (broken e) = err e

-- The test of one file of a snapshot against the entry of the manifest.
unfoldable pub check_leaf : String → Option File → Leaf → Fallible (Unit {0})
unfolding hash_file
check_leaf name none leaf = err (other ("unexpected snapshot file " <> name))
check_leaf name (some expected) leaf = do
  got ← hash_file name leaf
  fail_if (not (file_eq expected got)) (other ("snapshot integrity mismatch " <> name))

-- The walk over the files of a snapshot; `seen` counts those that are as the manifest says.
unfoldable pub check_tree : Context → Dict File → Dict Leaf → ℕ → Fallible ℕ
check_tree ctx files [] seen = ok seen
check_tree ctx files ((name, leaf) ∷ rest) seen = do
  ctx name
  check_leaf name (lookup name files) leaf
  check_tree ctx files rest (suc seen)

-- The walk, and the count of the files behind it.
unfoldable pub check_snapshot : Context → Manifest → Dict Leaf → Fallible Manifest
check_snapshot ctx m tree = do
  seen ← check_tree ctx m.files tree 0
  fail_if (not (nat_eq seen (length m.files))) (other "snapshot files missing")
  ok m

-- The text of the link of a snapshot.
unfoldable pub link_of : Layout → String → String
link_of direct commit = commit
link_of nested commit = "releases/" <> commit

-- The snapshots of a layout.
abbrev pub snapshots_of : Layout → Base → Dict Entry
snapshots_of direct base = base.direct_snapshots
snapshots_of nested base = base.nested_snapshots

-- `base.OpenRoot(link)`.
unfoldable pub open_snapshot : Option Entry → Fallible (Dict Leaf)
open_snapshot none = err not_exist
open_snapshot (some (dir tree)) = ok tree
open_snapshot (some no_dir) = err (other "not a directory")
open_snapshot (some (lost e)) = err e

-- `v.Link`, where it is one of the two links of its commit.
unfoldable pub version_layout : Version → Fallible Layout
unfolding link_of
version_layout v =
    if v.link == link_of nested v.commit_id
    then ok nested
    else if v.link == link_of direct v.commit_id
    then ok direct
    else err (other "invalid snapshot link")

-- `verifySnapshot` of a version; `manifest_digest` is the digest of a manifest.
unfoldable pub verify_version : (Manifest → String) → Context → Base → Version → Fallible Manifest
verify_version manifest_digest ctx base v = do
  layout ← version_layout v
  m ← load_manifest base v.commit_id
  fail_if
      (not (m.source == v.source)
        || not (artifact_digest_of v.source == v.artifact_digest)
        || not (manifest_digest m == v.manifest_digest))
      (other "snapshot source or manifest changed")
  tree ← open_snapshot (lookup v.commit_id (snapshots_of layout base))
  check_snapshot ctx m tree

-- `verifySnapshot`.
unfoldable pub verify_snapshot :
    (Manifest → String) → Context → Base → Option Version → Fallible Manifest
verify_snapshot manifest_digest ctx base none = err (other "missing snapshot")
verify_snapshot manifest_digest ctx base (some v) = verify_version manifest_digest ctx base v

-- What `existingSnapshotLink` finds at one of the two links.
unfoldable pub stat_link : String → Option Entry → Fallible (Unit {0})
stat_link link none = err not_exist
stat_link link (some (dir tree)) = ok tt
stat_link link (some no_dir) = err (other ("snapshot is not a real directory: " <> link))
stat_link link (some (lost e)) = err e

-- `existingSnapshotLink`: the layout in which the commit is there.
unfoldable pub existing_link : Base → String → Fallible Layout
unfolding stat_link link_of
existing_link base commit =
    elim (stat_link (link_of direct commit) (lookup commit base.direct_snapshots)) [
      | ok u ↦ ok direct
      | err e ↦
          if not (is_not_exist e)
          then err e
          else elim (stat_link (link_of nested commit) (lookup commit base.nested_snapshots)) [
            | ok u ↦ ok nested
            | err e₁ ↦ err e₁
          ]
    ]
