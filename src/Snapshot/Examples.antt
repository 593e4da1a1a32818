-- ===== src/Snapshot/Examples.antt =====
-- A snapshot of two files, a directory with three manifests, and what
-- internal/application/publisher/apply.go gives there.
use config_sync_nginx.Base.{String, ◌≡◌, ◌≤◌, ◌+◌, ◌*◌, ◌↔◌, refl, [], ◌∷◌, some, ok, inl, length}
use config_sync_nginx.Base.Dict.{Dict, lookup, insert}
use config_sync_nginx.Base.Keys.{remove}
use config_sync_nginx.Publisher.World.{if◌then◌else◌}
use config_sync_nginx.Publisher.Steps.{normalize_snapshot_link, snapshot_commit}
use config_sync_nginx.Base.Int.{pos}
use config_sync_nginx.Release.Examples.{first_commit}
use config_sync_nginx.Release.Identity.{is_commit}
use config_sync_nginx.State.{TargetState}
use config_sync_nginx.Publisher.Examples.{site_target, site_state, version_of}
use config_sync_nginx.Snapshot.Types.{File, Manifest, decoded, Leaf, regular, dir, Base}
use config_sync_nginx.Snapshot.Load.{check_snapshot, load_manifest, check_manifest, existing_link}
use config_sync_nginx.Snapshot.Exact.{IsExact, check_snapshot-iff-IsExact}
use config_sync_nginx.Snapshot.Cleanup.{System, removed, remove_snapshot, cleanup_snapshots}
use config_sync_nginx.Snapshot.Kept.{IsUntouched, cleanup_snapshots-IsUntouched}
use config_sync_nginx.Snapshot.Bounds.{held_records, cleanup_snapshots-le}

abbrev page : File
page = record {
  sha256 = "0123456789abcdef0123456789abcdef0123456789abcdef0123456789abcdef";
  size = pos 12;
}

abbrev site_files : Dict File
site_files = ("index.html", page) ∷ ("app.js", page) ∷ []

abbrev site_tree : Dict Leaf
site_tree = ("app.js", regular page) ∷ ("index.html", regular page) ∷ []

abbrev manifest_of : String → Manifest
manifest_of commit = record {
  commit_id = commit;
  source = "https://git.example.org/config";
  files = [];
  assets = [];
  created_at = 0;
}

abbrev site_manifest : Manifest
site_manifest = record (manifest_of first_commit) { files = site_files }

abbrev second_commit : String
second_commit = "aaaaaaaaaaaaaaaaaaaaaaaaaaaaaaaaaaaaaaaa"

abbrev third_commit : String
third_commit = "bbbbbbbbbbbbbbbbbbbbbbbbbbbbbbbbbbbbbbbb"

abbrev full_base : Base
full_base = record {
  manifests =
      (first_commit, decoded (manifest_of first_commit))
      ∷ (second_commit, decoded (manifest_of second_commit))
      ∷ (third_commit, decoded (manifest_of third_commit))
      ∷ [];
  direct_snapshots = (first_commit, dir []) ∷ (second_commit, dir []) ∷ (third_commit, dir []) ∷ [];
  nested_snapshots = [];
  assets = [];
}

abbrev calm_system : System
calm_system = record {
  opened = ok tt;
  listed = ok tt;
  live_link = ok "";
  now = λ name. 0;
  ctx = λ name. ok tt;
  remove_tree = λ link. removed;
  unlink = λ name. ok tt;
}

-- The first commit is the current one, and no release is under way.
abbrev settled_state : TargetState
settled_state = record site_state { current = some (version_of first_commit); records = [] }

check_snapshot-iff-IsExact_example :
    (check_snapshot (λ name. ok tt) site_manifest site_tree ≡ ok site_manifest)
    ↔ IsExact site_files site_tree
unfolding lookup
check_snapshot-iff-IsExact_example =
    check_snapshot-iff-IsExact (λ name. ok tt) site_manifest site_tree (refl, (refl, tt))
      (refl, (refl, tt)) (λ name. refl)

cleanup_snapshots-IsUntouched_example :
    IsUntouched first_commit full_base
      (cleanup_snapshots calm_system 1 0 site_target settled_state full_base).1
cleanup_snapshots-IsUntouched_example =
    cleanup_snapshots-IsUntouched calm_system 1 0 site_target settled_state full_base first_commit
      (inl (version_of first_commit, refl, refl))

-- What is left: the newest manifest and the current one.
abbrev small_base : Base
small_base = (cleanup_snapshots calm_system 1 0 site_target settled_state full_base).1

cleanup_snapshots-le_example :
    length small_base.manifests ≤ 1 + (2 * held_records calm_system 0 site_target [] + 3)
unfolding cleanup_snapshots lookup is_commit load_manifest check_manifest insert
    normalize_snapshot_link if◌then◌else◌ snapshot_commit remove_snapshot existing_link remove
cleanup_snapshots-le_example =
    cleanup_snapshots-le calm_system 0 site_target 1 settled_state full_base small_base refl
      (refl, (refl, (refl, tt))) (refl, (refl, (refl, tt))) refl
