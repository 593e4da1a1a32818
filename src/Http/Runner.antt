-- ===== src/Http/Runner.antt =====
-- `Health` and `State` of internal/application/publisher/runner.go, and the runner as the publisher
-- of the server.
use config_sync_nginx.Base.{
  String, not, ◌&&◌, ◌==◌, List, [], ◌∷◌, Option, none, some, other, Fallible,
}
use config_sync_nginx.Base.Dict.{Dict, lookup}
use config_sync_nginx.State.{Target, TargetState, Record, Version}
use config_sync_nginx.Publisher.World.{
  Node, World, Config, Action, ◌>>=◌, pure, ask, gets, on_error, on_fail, on_none, if◌then◌else◌,
}
use config_sync_nginx.Publisher.Store.{store_load}
use config_sync_nginx.Publisher.Steps.{read_link}
use config_sync_nginx.Publisher.Targets.{accepts_env, find_target, resolve}
use config_sync_nginx.Publisher.Command.{run_nginx_command, test, reload, abort}
use config_sync_nginx.Publisher.Apply.{stage}
use config_sync_nginx.Publisher.Rollback.{rollback_current}
use config_sync_nginx.Http.Types.{
  HealthReport, ReleaseReport, StateReport, StateAnswer, reported, refused, Publisher,
}

-- The environments of the tokens that the node serves, in the order of the tokens.
unfoldable pub enabled_envs : Config → Dict String → List String
unfolding accepts_env
enabled_envs c [] = []
enabled_envs c ((env, token) ∷ tokens) =
    let rest = enabled_envs c tokens in if accepts_env c env then env ∷ rest else rest

-- `Health`; the metrics that it sets are left out.
unfoldable pub health : Node → World → HealthReport × World
unfolding enabled_envs
health n w = (
  record {
    enabled_envs = enabled_envs n.config n.config.release_auth_tokens;
    node_id = n.config.node_id;
    env = n.config.env;
    publish_ready = not w.stopping && w.blocked == "";
    busy = w.busy;
    reason = w.blocked;
  },
  w,
)

unfoldable pub commit_of : Option Version → String
commit_of none = ""
commit_of (some v) = v.commit_id

unfoldable pub release_report : Record → ReleaseReport
release_report rec = record {
  release = rec.result;
  release_http_status = rec.http_status;
  baseline = rec.baseline;
  before_link = rec.before_link;
}

module _ (n : Node) where
  unfoldable pub state_report :
      Target → String → TargetState → Fallible String → Option ReleaseReport → StateReport
  unfolding commit_of
  state_report t id st link release = record {
    node_id = n.config.node_id;
    env = t.env;
    target = t;
    target_id = id;
    state_revision = st.revision;
    current = st.current;
    previous = st.previous;
    active_release_id = st.active_id;
    recovery_required = st.recovery_required;
    current_commit_id = commit_of st.current;
    previous_commit_id = commit_of st.previous;
    observed_link = link;
    release = release;
  }

  -- The release that is asked for, if one is.
  unfoldable pub answer_release :
      Target → String → String → TargetState → Fallible String → StateAnswer
  unfolding state_report release_report lookup
  answer_release t id release_id st link =
      if release_id == ""
      then reported (state_report t id st link none)
      else on_none (lookup release_id st.records) (refused 404 (other "release_id not found"))
          (λ rec. reported (state_report t id st link (some (release_report rec))))

  -- The view of a state, once the publisher is blocked.
  unfoldable pub local_view : String → World → Option TargetState
  unfolding lookup
  local_view id w = if w.blocked == "" then none else lookup id w.views

  -- `State` behind the load of the state.
  unfoldable pub state_of_target : Target → String → String → TargetState → Action StateAnswer
  unfolding local_view answer_release
  state_of_target t id release_id stored = do
    local ← gets (local_view id)
    closed ← ask (λ k. n.open_target k t)
    on_error closed (λ e. pure (refused 503 e))
        do
          link ← read_link n t
          pure (answer_release t id release_id (on_none local stored (λ st. st)) link)

  -- `State`.
  unfoldable pub state : String → String → Action StateAnswer
  unfolding find_target store_load state_of_target
  state id release_id = do
    found ← find_target n id
    on_none found (pure (refused 403 (other "target not authorized"))) (λ t. do
      stored ← store_load n id
      on_fail stored (λ e. pure (refused 503 e)) (λ st. state_of_target t id release_id st))

  -- The runner as the publisher of the server.
  unfoldable pub runner : Publisher World
  unfolding stage rollback_current run_nginx_command health find_target resolve state
  runner = record {
    stage = stage n;
    rollback_current = rollback_current n;
    nginx_test = run_nginx_command n test;
    nginx_reload = run_nginx_command n reload;
    abort = run_nginx_command n abort;
    health = health n;
    find_target = find_target n;
    resolve = resolve n;
    state = state;
  }
