-- ===== src/Release/Types.antt =====
-- internal/domain/release/types.go: requests, steps and results. Times are numbers of nanoseconds,
-- and the fields `json:"-"` are kept with the others.
use config_sync_nginx.Base.{ℕ, String, Bool, true, false, List}
use config_sync_nginx.Base.Dict.{Dict}

-- The type of a release is the text that the request holds.
abbrev pub ReleaseType : Type 0
ReleaseType = String

abbrev pub release_type_config : ReleaseType
release_type_config = "config"

abbrev pub release_type_whitelist : ReleaseType
release_type_whitelist = "whitelist"

abbrev pub release_type_frontend_static : ReleaseType
release_type_frontend_static = "frontend_static"

pub data NodeStatus : Type 0 where
  running succeeded skipped failed recovery_required : NodeStatus

pub record ApplyRequest : Type 0 where
  pub commit_alias : String
  pub server_name : String
  pub server_name_alias : String
  pub path_dest : String
  pub data_dir : String
  pub artifact_digest : String
  pub release_id : String
  pub expected_state_revision : String
  pub restore_of : String
  pub app : String
  pub env : String
  pub type : ReleaseType
  pub source_repo : String
  pub branch : String
  pub commit_id : String
  pub version : String
  pub project : String
  pub params : Dict String
  pub operator : String
  pub build_url : String

pub record NginxCommandRequest : Type 0 where
  pub release_id : String
  pub env : String

pub record RollbackRequest : Type 0 where
  pub env : String
  pub type : ReleaseType
  pub project : String
  pub params : Dict String

pub record Step : Type 0 where
  pub name : String
  pub status : NodeStatus
  pub message : String
  pub started_at : ℕ
  pub duration_ms : ℕ

pub record Result : Type 0 where
  pub artifact_digest : String
  pub release_id : String
  pub target_id : String
  pub status : NodeStatus
  pub phase : String
  pub activation_status : String
  pub rollback_status : String
  pub state_revision_before : String
  pub state_revision_after : String
  pub error_code : String
  pub error : String
  pub warnings : List String
  pub replayed : Bool
  pub env : String
  pub type : ReleaseType
  pub project : String
  pub server_name : String
  pub version : String
  pub commit_id : String
  pub previous_commit_id : String
  pub started_at : ℕ
  pub finished_at : ℕ
  pub steps : List Step
  pub http_status : ℕ

abbrev pub is_terminal : NodeStatus → Bool
is_terminal succeeded = true
is_terminal skipped = true
is_terminal failed = true
is_terminal running = false
is_terminal recovery_required = false

abbrev pub is_succeeded : NodeStatus → Bool
is_succeeded succeeded = true
is_succeeded _ = false

abbrev pub needs_recovery : NodeStatus → Bool
needs_recovery recovery_required = true
needs_recovery _ = false

-- `Result.Terminal`.
abbrev pub terminal : Result → Bool
terminal r = is_terminal r.status
