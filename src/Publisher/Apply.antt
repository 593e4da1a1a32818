-- ===== src/Publisher/Apply.antt =====
-- `apply`, `Apply`, `Stage` and `takeover` of
-- internal/application/publisher/runner.go.
use config_sync_nginx.Base.{
  ℕ, String, Bool, true, false, ◌&&◌, ◌||◌, not, Option, none, some, error_text, is_lock_busy, ◌==◌,
  ◌<>◌,
}
use config_sync_nginx.Base.Dict.{Dict, lookup, insert}
use config_sync_nginx.Release.Types.{
  ApplyRequest, Result, running, failed, is_terminal, is_succeeded, release_type_frontend_static,
}
use config_sync_nginx.Release.Identity.{server_identity, effective_version, get_param}
use config_sync_nginx.Release.Validate.{normalize_request, validate_normalized}
use config_sync_nginx.State.{Target, TargetState, Record, Version, attach}
use config_sync_nginx.Publisher.World.{
  if◌then◌else◌, Node, Action, ◌>>=◌, ◌>>◌, pure, ask, gets, on_error, on_fail, on_none,
}
use config_sync_nginx.Publisher.Store.{save, load, store_load, block}
use config_sync_nginx.Publisher.Finish.{uncertain}
use config_sync_nginx.Publisher.Targets.{
  accepts_env, blank_result, reject, duplicate, resolve, with_node_lock,
}
use config_sync_nginx.Publisher.Prepare.{source, execute}

-- The record of a release that a newer one supersedes.
unfoldable pub superseded : ℕ → Record → Record
superseded time rec = record rec {
  result = record (rec.result) {
    status = failed;
    error_code = "SUPERSEDED";
    error = "superseded by a newer publication";
    finished_at = time;
  };
  http_status = 409;
}

-- The records of `takeover`.
unfoldable pub supersede : ℕ → String → String → Dict Record → Dict Record
unfolding superseded
supersede time active release_id records =
    if active == "" || active == release_id
    then records
    else on_none (lookup active records) records (λ rec.
      if is_terminal rec.result.status
      then records
      else insert active (superseded time rec) records)

-- `takeover`.
unfoldable pub takeover : ℕ → ApplyRequest → TargetState → TargetState
unfolding supersede
takeover time req st = record st {
  records = supersede time st.active_id req.release_id st.records;
  active_id = "";
  recovery_required = false;
}

-- The baseline of the original of a restore, if every condition on it holds.
unfoldable pub restore_baseline : TargetState → ApplyRequest → Record → Option Version
restore_baseline st req original = on_none original.baseline none (λ baseline.
    on_none original.candidate none (λ candidate. on_none st.current none (λ current.
      if is_succeeded original.result.status
        && original.result.state_revision_after == st.revision
        && current.commit_id == candidate.commit_id
        && req.commit_id == baseline.commit_id
      then some baseline
      else none)))

-- `req.ArtifactDigest` of a restored frontend.
unfoldable pub restored_digest : ApplyRequest → Version → ApplyRequest
restored_digest req baseline =
    if req.type == release_type_frontend_static && req.artifact_digest == ""
    then record req { artifact_digest = baseline.artifact_digest }
    else req

-- The commit of the current version, which the accepted record names as the previous one.
unfoldable pub current_commit : Option Version → String
current_commit none = ""
current_commit (some v) = v.commit_id

-- The record of an accepted request.
unfoldable pub accepted_record : ApplyRequest → String → Target → TargetState → ℕ → Record
unfolding current_commit
accepted_record req fingerprint t st time = record {
  legacy_link = "";
  request = req;
  fingerprint = fingerprint;
  result = record blank_result {
    artifact_digest = req.artifact_digest;
    release_id = req.release_id;
    target_id = t.id;
    env = req.env;
    type = req.type;
    project = req.project;
    server_name = t.server_name;
    version = req.version;
    commit_id = req.commit_id;
    status = running;
    phase = "accepted";
    state_revision_before = st.revision;
    state_revision_after = st.revision;
    started_at = time;
    previous_commit_id = current_commit st.current;
  };
  http_status = 409;
  baseline = st.current;
  baseline_previous = st.previous;
  before_link = "";
  candidate = none;
  intent = false;
  nginx_tested = false;
}

module _ (n : Node) where
  -- The acceptance of a request whose target may be changed: what it supersedes, its record, and
  -- the transaction.
  unfoldable pub accept :
      Bool → Target → ApplyRequest → String → String → TargetState → Action Result
  unfolding takeover accepted_record
  accept defer_nginx_commands t req src fingerprint st = do
    time ← ask n.now
    let st₁ = takeover time req st
    started ← ask n.now
    let rec = accepted_record req fingerprint t st₁ started
    let st₂ = record (attach st₁ rec) { active_id = req.release_id }
    failure ← save n st₂
    on_error failure (λ e. uncertain n st₂ rec "STATE_PERSIST_FAILED" (error_text e))
        (execute n defer_nginx_commands t st₂ req src rec)

  -- The conditions of a restore, in front of the acceptance.
  unfoldable pub check_restore :
      Bool → Target → ApplyRequest → String → String → TargetState → Action Result
  unfolding accept restore_baseline restored_digest
  check_restore defer_nginx_commands t req src fingerprint st =
      if req.restore_of == ""
      then accept defer_nginx_commands t req src fingerprint st
      else on_none (on_none (lookup req.restore_of st.records) none (restore_baseline st req))
          (reject n req 409 "RESTORE_BASELINE_CONFLICT"
            "restore requires the successful release's retained baseline and unchanged resulting revision")
          (λ baseline.
            let req₁ = restored_digest req baseline in
            if req₁.type == release_type_frontend_static
              && not (baseline.artifact_digest == req₁.artifact_digest)
            then reject n req₁ 409 "RESTORE_BASELINE_CONFLICT"
                "artifact digest must match the recorded local baseline"
            else accept defer_nginx_commands t req₁ src fingerprint st)

  -- The tests under the lock of the node.
  unfoldable pub apply_locked : Bool → Target → ApplyRequest → String → String → Action Result
  unfolding check_restore
  apply_locked defer_nginx_commands t req src fingerprint = do
    failure ← load n
    on_error failure
        (λ e. block (error_text e) >> reject n req 503 "STATE_UNAVAILABLE" (error_text e))
        (do
          known ← duplicate n req fingerprint
          on_none known
              (do
                blocked ← gets (λ w. w.blocked)
                stopping ← gets (λ w. w.stopping)
                if not (blocked == "") || stopping
                    then reject n req 503 "RECOVERY_REQUIRED"
                        ("publication unavailable: " <> blocked)
                    else (do
                      stored ← store_load n t.id
                      on_fail stored (λ e. reject n req 503 "STATE_UNAVAILABLE" (error_text e))
                          (λ st.
                            if not (req.expected_state_revision == "")
                              && not (req.expected_state_revision == st.revision)
                            then reject n req 409 "STATE_REVISION_CONFLICT"
                                "target revision has changed; query live state"
                            else check_restore defer_nginx_commands t req src fingerprint st)))
              pure)

  -- The request behind the resolution of its target.
  unfoldable pub apply_resolved : Bool → Target → ApplyRequest → Action Result
  unfolding source apply_locked
  apply_resolved defer_nginx_commands t req₀ = do
    let req₁ = record req₀ {
      params = insert "path_dest" t.path_dest req₀.params;
      project = if req₀.project == "" then t.project else req₀.project;
      version = effective_version req₀;
    }
    let src = source n req₁ t
    let fingerprint = n.fingerprint req₁ t.id src
    known ← duplicate n req₁ fingerprint
    on_none known
        (with_node_lock n (reject n req₁ 409 "NODE_BUSY" "another release owns the node lock")
          (λ e.
            if is_lock_busy e
            then reject n req₁ 409 "NODE_BUSY" (error_text e)
            else reject n req₁ 503 "LOCK_FAILED" (error_text e))
          (apply_locked defer_nginx_commands t req₁ src fingerprint))
        pure

  -- The resolution of the target of a valid request.
  unfoldable pub apply_valid : Bool → ApplyRequest → Action Result
  unfolding apply_resolved
  apply_valid defer_nginx_commands req = do
    answer ←
        resolve n req.type (server_identity req.params) (get_param "path_dest" req.params)
          req.project req.env
    on_fail answer
        (λ e.
          if is_lock_busy e
          then reject n req 409 "NODE_BUSY" (error_text e)
          else reject n req 403 "TARGET_NOT_ALLOWED" (error_text e))
        (λ t. apply_resolved defer_nginx_commands t req)

  -- Whether the `data_dir` of the request is the one of the service.
  unfoldable pub is_data_dir : String → Action Bool
  is_data_dir path = do
    answer ← ask (λ k. n.canonical k path)
    pure (on_fail answer (λ e. false) (λ real. real == n.config.data_dir))

  -- `apply`.
  unfoldable pub apply : Bool → ApplyRequest → Action Result
  unfolding normalize_request validate_normalized is_data_dir apply_valid
  apply defer_nginx_commands req₀ = do
    fresh ← ask n.fresh_id
    on_fail (normalize_request fresh req₀) (λ e. reject n req₀ 400 "INVALID_REQUEST" (error_text e))
        (λ req₁.
          on_fail (validate_normalized req₁)
            (λ e. reject n req₁ 400 "INVALID_REQUEST" (error_text e))
            (λ req.
              if not (accepts_env n.config req.env)
              then reject n req 403 "ENV_NOT_ALLOWED" "environment does not match this node"
              else if req.data_dir == ""
              then apply_valid defer_nginx_commands req
              else (do
                same ← is_data_dir req.data_dir
                if not same
                    then reject n req 400 "INVALID_DATA_DIR"
                        "data_dir must match the service configuration"
                    else apply_valid defer_nginx_commands (record req { data_dir = "" }))))

  -- `Stage`; `Apply` is `apply false`.
  unfoldable pub stage : ApplyRequest → Action Result
  unfolding apply
  stage = apply true
