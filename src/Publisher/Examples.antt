-- ===== src/Publisher/Examples.antt =====
-- A node on which everything succeeds, a request of a configuration release, and what the transactions
-- of internal/application/publisher/runner.go give there.
use config_sync_nginx.Base.{String, true, false, ◌≡◌, refl, ◌≤◌, [], ◌∷◌, none, some, ok, ◌⊎◌}
use config_sync_nginx.Base.Dict.{lookup}
use config_sync_nginx.Release.Types.{
  failed, succeeded, ApplyRequest, RollbackRequest, NginxCommandRequest, Result, running,
}
use config_sync_nginx.Release.Examples.{
  first_commit, first_release, second_release, release_request,
}
use config_sync_nginx.Release.Validate.{trim_command_request}
use config_sync_nginx.State.{Target, TargetState, Record, Version}
use config_sync_nginx.Publisher.World.{if◌then◌else◌, on_fail, Config, Node, World, written}
use config_sync_nginx.Publisher.Targets.{blank_result}
use config_sync_nginx.Publisher.Activate.{activate}
use config_sync_nginx.Publisher.Apply.{apply, takeover}
use config_sync_nginx.Publisher.Rollback.{rollback_current}
use config_sync_nginx.Publisher.Command.{test, reload, abort, run_nginx_command}
use config_sync_nginx.Publisher.WriteAhead.{AreLogged, activate-AreLogged}
use config_sync_nginx.Publisher.Agreement.{IsReported, Sound}
use config_sync_nginx.Publisher.Agreement.Apply.{apply-IsReported}
use config_sync_nginx.Publisher.Agreement.Command.{IsAnswered, run_nginx_command-IsAnswered}
use config_sync_nginx.Publisher.Agreement.Rollback.{rollback_current-IsReported}
use config_sync_nginx.Publisher.Agreement.Startup.{start-Sound}
use config_sync_nginx.Publisher.Startup.{start}
use config_sync_nginx.Publisher.Allowed.{IsIdle, IsAllowed}
use config_sync_nginx.Publisher.Allowed.Run.{run_nginx_command-IsAllowed}
use config_sync_nginx.Publisher.Exclusive.{IsQuiet, busy-IsQuiet}
use config_sync_nginx.Publisher.Store.{index_states}
use config_sync_nginx.Publisher.Unique.{AreDisjoint, index_states-AreDisjoint}
use config_sync_nginx.Base.FilePath.{is_abs, rel, clean}
use config_sync_nginx.Release.Identity.{is_commit}
use config_sync_nginx.Publisher.Steps.{
  snapshot_commit, normalize_snapshot_link, check_snapshot_link,
}
use config_sync_nginx.Publisher.Links.{normalize_snapshot_link-IsCommit}
use config_sync_nginx.Publisher.WriteAhead.Command.{run_nginx_command-AreLogged}
use config_sync_nginx.Publisher.Takeover.{is_ended_by, takeover-lookup}

abbrev pub target_id : String
target_id = "0123456789abcdef0123456789abcdef0123456789abcdef0123456789abcdef"

abbrev pub site_target : Target
site_target = record {
  env = "prod";
  dynamic = false;
  artifact_repository = "";
  shared_assets = false;
  type = "config";
  server_name = "example.org";
  path_dest = "/srv/site";
  project = "site";
  required_files = [];
  health_checks = [];
  initial_health_checks = [];
  public_base_url = "";
  public_host = "";
  file_mode = "0644";
  id = target_id;
  dir = "/srv/site";
}

abbrev pub site_config : Config
site_config = record {
  node_id = "node-1";
  env = "prod";
  data_dir = "/data";
  release_auth_tokens = ("prod", "token") ∷ [];
  repos = ("config", "https://git.example.org/config") ∷ [];
  max_dynamic_targets = 10;
  targets = site_target ∷ [];
}

abbrev pub version_of : String → Version
version_of commit = record {
  artifact_digest = "";
  commit_id = commit;
  version = commit;
  source = "https://git.example.org/config";
  link = commit;
  verified_at = 0;
  manifest_digest = "sha256:0";
}

abbrev pub calm_node : Node
calm_node = record {
  config = site_config;
  now = λ k. k;
  fresh_id = λ k. second_release;
  fingerprint = λ req id src. req.commit_id;
  context_error = λ k c. none;
  canonical = λ k path. ok path;
  target_for_env = λ k type name path project env. ok site_target;
  try_lock = λ k. none;
  write_state = λ k st. written;
  read_states = λ k. none;
  read_state = λ k id. none;
  claim_target = λ k t. none;
  open_target = λ k t. none;
  read_dir = λ k t. ok [];
  read_link = λ k t. none;
  switch_link = λ k t link. written;
  resolves_digests = true;
  resolve_digest = λ k t commit. ok "";
  pull = λ k t commit digest. ("", none);
  checkout = λ k req t. ("work", req.commit_id, none);
  prepare_snapshot = λ k t work commit src version. ok (version_of commit);
  verify_snapshot = λ k t v. none;
  install_assets = λ k t v. none;
  reports_output = true;
  nginx_test = λ k. ("syntax is ok", none);
  nginx_reload = λ k. ("", none);
  runtime_verify = λ k t link baseline. none;
  verify_frontend_http = λ k t v. none;
  verify_retained_assets = λ k t st v. none;
  cleanup_snapshots = λ k t st. none;
}

abbrev pub running_record : Record
running_record = record {
  legacy_link = "";
  request = release_request;
  fingerprint = first_commit;
  result = record blank_result {
    release_id = first_release;
    target_id = target_id;
    status = running;
    phase = "verify_candidate";
  };
  http_status = 409;
  baseline = none;
  baseline_previous = none;
  before_link = "";
  candidate = some (version_of first_commit);
  intent = false;
  nginx_tested = false;
}

abbrev pub site_state : TargetState
site_state = record {
  schema = 2;
  target = site_target;
  revision = second_release;
  current = none;
  previous = none;
  active_id = first_release;
  recovery_required = false;
  records = (first_release, running_record) ∷ [];
  updated_at = 0;
}

abbrev pub empty_world : World
empty_world = record {
  calls = 0;
  disk = [];
  views = [];
  blocked = "";
  stopping = false;
  busy = false;
  locked = false;
  links = [];
  trace = [];
}

abbrev pub site_world : World
site_world = record empty_world {
  disk = (target_id, site_state) ∷ [];
  views = (target_id, site_state) ∷ [];
}

abbrev busy_world : World
busy_world = record site_world { busy = true }

abbrev pub command_request : NginxCommandRequest
command_request = record { release_id = first_release; env = "prod" }

abbrev pub back_request : RollbackRequest
back_request = record {
  env = "prod";
  type = "config";
  project = "site";
  params = ("server_name", "example.org") ∷ ("path_dest", "/srv/site") ∷ [];
}

abbrev pub next_request : ApplyRequest
next_request = record release_request { release_id = second_release }

-- A whole release succeeds on this node.
abbrev applied : Result
applied = (apply calm_node false release_request empty_world).0

activate-AreLogged_example :
    AreLogged first_release
      (activate calm_node false site_target site_state running_record site_world).1
activate-AreLogged_example =
    activate-AreLogged calm_node false site_target site_state running_record site_world refl tt

apply-IsReported_example :
    IsReported (apply calm_node false next_request site_world).0
    × Sound false false (apply calm_node false next_request site_world).1
apply-IsReported_example =
    apply-IsReported calm_node false next_request site_world
      (refl, refl, ((refl, tt), tt), ((refl, tt), tt))

run_nginx_command-IsAnswered_example :
    IsAnswered (run_nginx_command calm_node test command_request site_world).0
    × Sound false false (run_nginx_command calm_node test command_request site_world).1
run_nginx_command-IsAnswered_example =
    run_nginx_command-IsAnswered calm_node test command_request site_world
      (refl, refl, ((refl, tt), tt), ((refl, tt), tt))

rollback_current-IsReported_example :
    IsReported (rollback_current calm_node back_request site_world).0
    × Sound false false (rollback_current calm_node back_request site_world).1
rollback_current-IsReported_example =
    rollback_current-IsReported calm_node back_request site_world
      (refl, refl, ((refl, tt), tt), ((refl, tt), tt))

busy-IsQuiet_example :
    IsQuiet busy_world (apply calm_node true next_request busy_world).1
    × IsQuiet busy_world (run_nginx_command calm_node reload command_request busy_world).1
    × (400 ≤ (run_nginx_command calm_node reload command_request busy_world).0.http_status)
busy-IsQuiet_example =
    busy-IsQuiet calm_node busy_world true next_request reload command_request refl

takeover-lookup_example :
    (lookup first_release (takeover 7 next_request site_state).records
      ≡ some (record running_record {
        result = record (running_record.result) {
          status = failed;
          error_code = "SUPERSEDED";
          error = "superseded by a newer publication";
          finished_at = 7;
        };
        http_status = 409;
      }))
    × ((takeover 7 next_request site_state).active_id ≡ "")
    × ((takeover 7 next_request site_state).recovery_required ≡ false)
unfolding lookup if◌then◌else◌ is_ended_by
takeover-lookup_example =
    takeover-lookup 7 next_request site_state first_release running_record refl

start-Sound_example : Sound false false (start calm_node site_world).1
start-Sound_example =
    start-Sound calm_node site_world (refl, refl, ((refl, tt), tt), ((refl, tt), tt))

-- A second target of the node, with its own release.
abbrev pub second_state : TargetState
second_state = record site_state {
  target = record site_target { id = "second"; dir = "/srv/second" };
  records = (second_release, running_record) ∷ [];
}

index_states-AreDisjoint_example : AreDisjoint (site_state ∷ second_state ∷ [])
unfolding index_states if◌then◌else◌
index_states-AreDisjoint_example =
    index_states-AreDisjoint (site_state ∷ second_state ∷ [])
      ((target_id, site_state) ∷ ("second", second_state) ∷ []) refl

normalize_snapshot_link-IsCommit_example : is_commit (snapshot_commit first_commit) ≡ true
unfolding normalize_snapshot_link check_snapshot_link is_abs rel clean is_commit on_fail
    if◌then◌else◌
normalize_snapshot_link-IsCommit_example =
    normalize_snapshot_link-IsCommit site_target
      "/srv/site/0123456789abcdef0123456789abcdef01234567" first_commit refl refl

-- A release whose link is switched, and which is aborted then.
abbrev staged_record : Record
staged_record = record running_record {
  result = record blank_result {
    release_id = first_release;
    target_id = target_id;
    status = succeeded;
    phase = "latest_switched";
  };
  http_status = 200;
  intent = true;
}

abbrev staged_state : TargetState
staged_state = record site_state {
  current = some (version_of first_commit);
  active_id = "";
  records = (first_release, staged_record) ∷ [];
}

abbrev staged_world : World
staged_world = record empty_world {
  disk = (target_id, staged_state) ∷ [];
  views = (target_id, staged_state) ∷ [];
  links = ("/srv/site", first_commit) ∷ [];
}

run_nginx_command-AreLogged_example :
    AreLogged
      (trim_command_request command_request).release_id
      (run_nginx_command calm_node abort command_request staged_world).1
run_nginx_command-AreLogged_example =
    run_nginx_command-AreLogged calm_node abort command_request staged_world tt

run_nginx_command-IsAllowed_example :
    IsIdle staged_world (run_nginx_command calm_node abort command_request staged_world).1
    ⊎ IsAllowed abort (trim_command_request command_request) staged_world
run_nginx_command-IsAllowed_example =
    run_nginx_command-IsAllowed calm_node abort command_request staged_world
