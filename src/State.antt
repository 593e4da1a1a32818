-- ===== src/State.antt =====
-- internal/domain/state/types.go and internal/domain/target/target.go: what a node stores for each
-- target. A pointer that may be nil is an `Option`.
use config_sync_nginx.Base.{ℕ, String, Bool, false, ◌&&◌, List, [], ◌∷◌, Option, none, ◌==◌}
use config_sync_nginx.Base.Dict.{Dict, insert}
use config_sync_nginx.Release.Types.{ReleaseType, ApplyRequest, Result}

pub record HealthCheck : Type 0 where
  pub url : String
  pub host : String
  pub tls_server_name : String
  pub status : ℕ
  pub contains : String

pub record Target : Type 0 where
  pub env : String
  pub dynamic : Bool
  pub artifact_repository : String
  pub shared_assets : Bool
  pub type : ReleaseType
  pub server_name : String
  pub path_dest : String
  pub project : String
  pub required_files : List String
  pub health_checks : List HealthCheck
  pub initial_health_checks : List HealthCheck
  pub public_base_url : String
  pub public_host : String
  pub file_mode : String
  pub id : String
  pub dir : String

-- `Target.IsTemplate`.
unfoldable pub is_template : Target → Bool
is_template t = t.server_name == "" && t.path_dest == ""

-- `Target.SnapshotLink`.
unfoldable pub snapshot_link : Target → String → String
snapshot_link t commit = commit

pub record Version : Type 0 where
  pub artifact_digest : String
  pub commit_id : String
  pub version : String
  pub source : String
  pub link : String
  pub verified_at : ℕ
  pub manifest_digest : String

pub record Record : Type 0 where
  pub legacy_link : String
  pub request : ApplyRequest
  pub fingerprint : String
  pub result : Result
  pub http_status : ℕ
  pub baseline : Option Version
  pub baseline_previous : Option Version
  pub before_link : String
  pub candidate : Option Version
  pub intent : Bool
  pub nginx_tested : Bool

pub record TargetState : Type 0 where
  pub schema : ℕ
  pub target : Target
  pub revision : String
  pub current : Option Version
  pub previous : Option Version
  pub active_id : String
  pub recovery_required : Bool
  pub records : Dict Record
  pub updated_at : ℕ

-- `state.New`, where `fresh` is the UUID that `release.ID()` draws.
unfoldable pub new_state : String → Target → TargetState
new_state fresh t = record {
  schema = 2;
  target = t;
  revision = fresh;
  current = none;
  previous = none;
  active_id = "";
  recovery_required = false;
  records = [];
  updated_at = 0;
}

-- The target behind a round through JSON, which drops its fields marked `json:"-"`.
unfoldable pub persisted_target : Target → Target
persisted_target t = record t {
  shared_assets = false;
  required_files = [];
  health_checks = [];
  initial_health_checks = [];
  public_base_url = "";
  public_host = "";
  file_mode = "";
}

-- The record behind a round through JSON: the result has no HTTP status there.
unfoldable pub persisted_record : Record → Record
persisted_record r = record r { result = record (r.result) { http_status = 0 } }

unfoldable pub persisted_records : Dict Record → Dict Record
unfolding persisted_record
persisted_records [] = []
persisted_records ((id, r) ∷ rs) = (id, persisted_record r) ∷ persisted_records rs

-- `clone`: a state behind a round through JSON.
unfoldable pub clone : TargetState → TargetState
unfolding persisted_target persisted_records
clone st = record st { target = persisted_target st.target; records = persisted_records st.records }

-- The state with the record that the Go code reaches through the pointer `st.Records[id]`.
unfoldable pub attach : TargetState → Record → TargetState
unfolding insert
attach st rec = record st { records = insert rec.request.release_id rec st.records }
