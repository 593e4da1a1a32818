-- ===== src/Http/Types.antt =====
-- The contract `Publisher` and the answers of internal/interfaces/httpapi/server.go.
use config_sync_nginx.Base.{ℕ, String, Bool, List, Option, Error, Fallible}
use config_sync_nginx.Base.Dict.{Dict}
use config_sync_nginx.Release.Types.{
  ReleaseType, ApplyRequest, NginxCommandRequest, RollbackRequest, Result,
}
use config_sync_nginx.State.{Target, Version}
use config_sync_nginx.Publisher.World.{Config}
use config_sync_nginx.Http.Access.{Request, IpAccessParsed}

-- The map that `Health` gives, less the three entries that never change.
pub record HealthReport : Type 0 where
  pub enabled_envs : List String
  pub node_id : String
  pub env : String
  pub publish_ready : Bool
  pub busy : Bool
  pub reason : String

-- What `State` says of one release.
pub record ReleaseReport : Type 0 where
  pub release : Result
  pub release_http_status : ℕ
  pub baseline : Option Version
  pub before_link : String

-- The map that `State` gives, less the two entries that never change; `observed_link` is the link or
-- the error of reading it.
pub record StateReport : Type 0 where
  pub node_id : String
  pub env : String
  pub target : Target
  pub target_id : String
  pub state_revision : String
  pub current : Option Version
  pub previous : Option Version
  pub active_release_id : String
  pub recovery_required : Bool
  pub current_commit_id : String
  pub previous_commit_id : String
  pub observed_link : Fallible String
  pub release : Option ReleaseReport

-- `(map, status, error)` of `State`.
pub data StateAnswer : Type 0 where
  reported : StateReport → StateAnswer
  refused : ℕ → Error → StateAnswer

-- `Publisher`, over the state that its operations change.
pub record Publisher (S : Type 0) : Type 0 where
  pub stage : ApplyRequest → S → Result × S
  pub rollback_current : RollbackRequest → S → Result × S
  pub nginx_test : NginxCommandRequest → S → Result × S
  pub nginx_reload : NginxCommandRequest → S → Result × S
  pub abort : NginxCommandRequest → S → Result × S
  pub health : S → HealthReport × S
  pub find_target : String → S → Option Target × S
  pub resolve : ReleaseType → String → String → String → String → S → Fallible Target × S
  pub state : String → String → S → StateAnswer × S

-- The patterns of the routes.
pub data Route : Type 0 where
  apply_route rollback_route nginx_test_route nginx_reload_route abort_route : Route
  state_route health_route metrics_route : Route

pub data Payload : Type 0 where
  error_payload : String → String → Payload
  release_payload : Result → Payload
  state_payload : StateReport → Payload
  health_payload : HealthReport → Payload
  metrics_payload : Payload
  mux_payload : Payload

pub record Response : Type 0 where
  pub code : ℕ
  pub payload : Payload

-- What `Decode` gives: a value, the error of a body over the limit, or another error.
pub data Decoding (A : Type 0) : Type 0 where
  decoded : A → Decoding A
  too_large malformed : String → Decoding A

-- What the second `Decode` finds behind the value: `io.EOF`, a value, or an error.
pub data Rest : Type 0 where
  at_end another_value : Rest
  rest_too_large rest_malformed : String → Rest

-- The calls of `net/http` and `encoding/json`: the choice of a route by the patterns, or the own
-- answer of `ServeMux`, and the strict decoding of a body up to a number of bytes.
pub record Library : Type 0 where
  pub serve_mux : Dict Route → Request → Option Route
  pub mux_code : Request → ℕ
  pub decode_apply : ℕ → String → Decoding ApplyRequest × Rest
  pub decode_rollback : ℕ → String → Decoding RollbackRequest × Rest
  pub decode_command : ℕ → String → Decoding NginxCommandRequest × Rest

-- The fields of `config.Config` that the server reads beside those of the publisher.
pub record ServerConfig (Network : Type 0) : Type 0 where
  pub config : Config
  pub access : IpAccessParsed Network
  pub max_request_bytes : ℕ
  pub max_concurrent_requests : ℕ
