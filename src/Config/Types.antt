-- ===== src/Config/Types.antt =====
-- The configuration of internal/config/load.go, and what its checks call.
use config_sync_nginx.Base.{ℕ, String, Bool, List, Fallible}
use config_sync_nginx.Base.Dict.{Dict}
use config_sync_nginx.Base.Int.{ℤ}
use config_sync_nginx.State.{Target}

-- `Repo`, but for `AllowedBranches`.
pub record Repo : Type 0 where
  pub url : String
  pub gitlab_token : String
  pub allow_local : Bool

-- `ORAS`.
pub record Oras : Type 0 where
  pub repository : String
  pub binary : String
  pub registry_config : String
  pub ca_file : String

-- `Config`, but for `App` and the addresses; a `Duration` is its number of nanoseconds, and
-- `targets_given` is false where the slice `Targets` is nil.
pub record Config : Type 0 where
  pub hostname : String
  pub max_dynamic_targets : ℤ
  pub oras : Oras
  pub listen_addr : String
  pub node_id : String
  pub env : String
  pub data_dir : String
  pub lock_file : String
  pub log_file : String
  pub release_auth_tokens : Dict String
  pub repos : Dict Repo
  pub targets_given : Bool
  pub targets : List Target
  pub execution_timeout : ℤ
  pub step_timeout : ℤ
  pub recovery_timeout : ℤ
  pub cleanup_timeout : ℤ
  pub max_request_bytes : ℤ
  pub max_concurrent_requests : ℤ
  pub max_archive_bytes : ℤ
  pub max_archive_files : ℤ
  pub min_free_bytes : ℕ
  pub keep_releases : ℤ
  pub asset_retention : ℤ

-- The parts of a `url.URL` that are read.
pub record Url : Type 0 where
  pub scheme : String
  pub host : String
  pub hostname : String
  pub path : String
  pub raw_query : String
  pub fragment : String
  pub has_user : Bool

-- What the checks call: `fsutil.Canonical`, which reads the file system, `url.Parse`, `os.Hostname`,
-- `strings.ToLower`, `strconv.ParseUint` to base 8, and `release.Digest` of an environment and a path.
pub record Outside : Type 0 where
  pub canonical : String → Fallible String
  pub parse_url : String → Fallible Url
  pub hostname : String
  pub to_lower : String → String
  pub parse_octal : String → Fallible ℕ
  pub digest : String → String → String
