-- ===== src/Publisher/Rollback.antt =====
-- `RollbackCurrent` of internal/application/publisher/runner.go.
use config_sync_nginx.Base.{
  ℕ, String, Bool, false, ◌&&◌, not, [], ◌∷◌, Option, none, some, error_text, is_lock_busy, ◌==◌,
}
use config_sync_nginx.Base.Dict.{Dict}
use config_sync_nginx.Release.Types.{ApplyRequest, RollbackRequest, Result, is_succeeded}
use config_sync_nginx.Release.Identity.{server_identity, get_param}
use config_sync_nginx.Release.Validate.{trim_rollback_request, validate_rollback_request}
use config_sync_nginx.State.{Target, TargetState, Record, Version}
use config_sync_nginx.Publisher.World.{
  if◌then◌else◌, Node, Action, ◌>>=◌, pure, ask, on_fail, on_none,
}
use config_sync_nginx.Publisher.Store.{store_load}
use config_sync_nginx.Publisher.Targets.{accepts_env, blank_result, resolve}
use config_sync_nginx.Publisher.Apply.{stage}

-- Whether the record is the successful release that made the current version.
unfoldable pub is_rollback_origin : TargetState → Version → Version → Record → Bool
is_rollback_origin st current previous rec =
    is_succeeded rec.result.status
    && rec.result.phase == "complete"
    && rec.result.activation_status == "reload_requested"
    && rec.result.state_revision_after == st.revision
    && on_none rec.candidate false (λ v. v.commit_id == current.commit_id)
    && on_none rec.baseline false (λ v. v.commit_id == previous.commit_id)

unfoldable pub find_rollback_origin :
    TargetState → Version → Version → Dict Record → Option (String × Record)
unfolding is_rollback_origin
find_rollback_origin st current previous [] = none
find_rollback_origin st current previous ((id, rec) ∷ rs) =
    if is_rollback_origin st current previous rec
    then some (id, rec)
    else find_rollback_origin st current previous rs

-- The request that `RollbackCurrent` stages.
unfoldable pub rollback_apply :
    RollbackRequest → Target → TargetState → Version → String → Record → ApplyRequest
rollback_apply req t st previous release_id original = record (original.request) {
  release_id = "";
  expected_state_revision = st.revision;
  restore_of = release_id;
  env = req.env;
  type = t.type;
  project = t.project;
  commit_id = previous.commit_id;
  version = previous.version;
  artifact_digest = previous.artifact_digest;
  params = ("server_name", t.server_name) ∷ ("path_dest", t.path_dest) ∷ [];
}

module _ (n : Node) where
  -- `rollbackReject`.
  unfoldable pub rollback_reject : RollbackRequest → ℕ → String → String → Action Result
  rollback_reject req code key msg = do
    fresh ← ask n.fresh_id
    started ← ask n.now
    finished ← ask n.now
    pure (record blank_result {
      release_id = fresh;
      env = req.env;
      type = req.type;
      project = req.project;
      server_name = server_identity req.params;
      error_code = key;
      error = msg;
      http_status = code;
      started_at = started;
      finished_at = finished;
    })

  -- The search for the release to roll back, behind the loading of the target.
  unfoldable pub rollback_target : RollbackRequest → Target → TargetState → Action Result
  unfolding rollback_reject find_rollback_origin rollback_apply stage
  rollback_target req t st =
      on_none st.current
        (rollback_reject req 409 "ROLLBACK_NOT_AVAILABLE"
          "current version has no retained previous snapshot")
        (λ current.
          on_none st.previous
            (rollback_reject req 409 "ROLLBACK_NOT_AVAILABLE"
              "current version has no retained previous snapshot")
            (λ previous.
              on_none (find_rollback_origin st current previous st.records)
                (rollback_reject req 409 "ROLLBACK_NOT_AVAILABLE"
                  "current version has no matching successful release record")
                (λ f. stage n (rollback_apply req t st previous f.0 f.1))))

  -- `RollbackCurrent`.
  unfoldable pub rollback_current : RollbackRequest → Action Result
  unfolding rollback_target
  rollback_current req₀ =
      on_fail (validate_rollback_request req₀)
        (λ e. rollback_reject (trim_rollback_request req₀) 400 "INVALID_REQUEST" (error_text e))
        (λ req.
          if not (accepts_env n.config req.env)
          then rollback_reject req 403 "ENV_NOT_ALLOWED" "environment does not match this node"
          else (do
            answer ←
                resolve n req.type (get_param "server_name" req.params)
                  (get_param "path_dest" req.params) req.project req.env
            on_fail answer
                (λ e.
                  if is_lock_busy e
                  then rollback_reject req 409 "NODE_BUSY" (error_text e)
                  else rollback_reject req 403 "TARGET_NOT_ALLOWED" (error_text e))
                (λ t. do
                  stored ← store_load n t.id
                  on_fail stored (λ e. rollback_reject req 503 "STATE_UNAVAILABLE" (error_text e))
                      (rollback_target req t))))
