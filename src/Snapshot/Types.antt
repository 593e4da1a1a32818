-- ===== src/Snapshot/Types.antt =====
-- The deployment directory of a target, as internal/application/publisher/apply.go sees it, and the
-- manifest of internal/domain/state/types.go.
use config_sync_nginx.Base.{ℕ, String, Error, Fallible}
use config_sync_nginx.Base.Dict.{Dict}
use config_sync_nginx.Base.Int.{ℤ}

-- `state.File`: the digest and the size of a file.
pub record File : Type 0 where
  pub sha256 : String
  pub size : ℤ

-- `state.Manifest`, but for `LastUsedAt`, which no code reads.
pub record Manifest : Type 0 where
  pub commit_id : String
  pub source : String
  pub files : Dict File
  pub assets : Dict String
  pub created_at : ℕ

-- What a manifest file holds: it cannot be read, is no JSON, has no `files`, or is a manifest.
pub data ManifestFile : Type 0 where
  unreadable : Error → ManifestFile
  malformed without_files : ManifestFile
  decoded : Manifest → ManifestFile

-- What stands in a directory under a name that is no directory: a regular file, whose content is its
-- digest and size, something else, or a file that cannot be read.
pub data Leaf : Type 0 where
  regular : File → Leaf
  irregular : Leaf
  broken : Error → Leaf

-- What `Lstat` gives for the place of a snapshot: a directory, with the paths of its files, something
-- else, or an error.
pub data Entry : Type 0 where
  dir : Dict Leaf → Entry
  no_dir : Entry
  lost : Error → Entry

-- The place of a snapshot: `<commit>`, or the former `releases/<commit>`.
pub data Layout : Type 0 where
  direct nested : Layout

-- A file below `assets` with the time of its last change.
pub record Asset : Type 0 where
  pub leaf : Leaf
  pub changed_at : ℕ

-- The directory `base`: the manifests and the snapshots by commit, and the shared assets by path.
pub record Base : Type 0 where
  pub manifests : Dict ManifestFile
  pub direct_snapshots : Dict Entry
  pub nested_snapshots : Dict Entry
  pub assets : Dict Asset

-- `ctx.Err()`, when the code comes to the file or directory of that name.
abbrev pub Context : Type 0
Context = String → Fallible (Unit {0})
