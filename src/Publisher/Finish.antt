-- ===== src/Publisher/Finish.antt =====
-- The ends of a transaction in internal/application/publisher/runner.go: `result`, `fail`,
-- `uncertain`, `commitGitStage`, `commit` and `restore`.
use config_sync_nginx.Base.{
  ℕ, String, true, false, [], ◌∷◌, ◌++◌, Option, none, some, Error, error_text, ◌==◌, ◌<>◌, not,
}
use config_sync_nginx.Release.Types.{succeeded, failed, recovery_required, Result}
use config_sync_nginx.State.{Target, TargetState, Record, Version, attach}
use config_sync_nginx.Publisher.World.{
  if◌then◌else◌, Node, Action, recovery_context, ◌>>=◌, ◌>>◌, pure, ask, on_error,
}
use config_sync_nginx.Publisher.Store.{save, publish, block}
use config_sync_nginx.Publisher.Steps.{rollback_link, switch, nginx_test, nginx_reload, verify}

-- `result`, less its metrics and its log line.
unfoldable pub result_of : Record → Result
result_of rec = record (rec.result) { http_status = rec.http_status }

-- The record of `fail`.
unfoldable pub failed_record : String → String → ℕ → Record → Record
failed_record key cause time rec = record rec {
  result = record (rec.result) {
    status = failed;
    error_code = key;
    error = cause;
    finished_at = time;
  };
  http_status = 500;
}

-- `st.ActiveID = ""` and `st.RecoveryRequired = false`.
unfoldable pub release_active : TargetState → TargetState
release_active st = record st { active_id = ""; recovery_required = false }

-- The record of `uncertain`.
unfoldable pub uncertain_record : String → String → Record → Record
uncertain_record key cause rec = record rec {
  result = record (rec.result) {
    status = recovery_required;
    error_code = key;
    error = cause;
    activation_status = if rec.intent then "unknown" else rec.result.activation_status;
    rollback_status = if key == "RECOVERY_FAILED" then "failed" else "unavailable";
  };
  http_status = 503;
}

unfoldable pub uncertain_state : Record → TargetState → TargetState
uncertain_state rec st = record st { active_id = rec.request.release_id; recovery_required = true }

-- The record of `commitGitStage` and of `commit`.
unfoldable pub succeeded_record : String → String → String → ℕ → Record → Record
succeeded_record phase activation revision time rec = record rec {
  result = record (rec.result) {
    status = succeeded;
    phase = phase;
    activation_status = activation;
    rollback_status = "not_needed";
    error_code = "";
    error = "";
    state_revision_after = revision;
    finished_at = time;
  };
  http_status = 200;
}

-- The state of `commitGitStage`.
unfoldable pub staged_state : String → Record → TargetState → TargetState
staged_state revision rec st = record st {
  previous = rec.baseline;
  current = rec.candidate;
  revision = revision;
  active_id = "";
  recovery_required = false;
}

-- `rec.Candidate.VerifiedAt = …`.
unfoldable pub verified : ℕ → Option Version → Option Version
verified time none = none
verified time (some v) = some (record v { verified_at = time })

-- The state of `commit`: a migrated baseline has no predecessor.
unfoldable pub committed_state : String → Record → TargetState → TargetState
unfolding staged_state
committed_state revision rec st = record (staged_state revision rec st) {
  previous = if not (rec.legacy_link == "") then none else rec.baseline;
}

-- The state of `restore`.
unfoldable pub restored_state : String → Record → TargetState → TargetState
restored_state revision rec st = record st {
  current = rec.baseline;
  previous = rec.baseline_previous;
  revision = revision;
  active_id = "";
  recovery_required = false;
}

-- The record of `restore`.
unfoldable pub restored_record : String → Record → Record
restored_record revision rec = record rec {
  result = record (rec.result) {
    activation_status = "restored";
    rollback_status = "succeeded";
    state_revision_after = revision;
    phase = "restored";
  };
}

unfoldable pub add_warning : String → Record → Record
add_warning warning rec = record rec {
  result = record (rec.result) { warnings = rec.result.warnings ++ warning ∷ [] };
}

module _ (n : Node) where
  -- `uncertain`.
  unfoldable pub uncertain : TargetState → Record → String → String → Action Result
  unfolding uncertain_record uncertain_state result_of
  uncertain st rec key cause = do
    let rec₁ = uncertain_record key cause rec
    let st₁ = attach (uncertain_state rec st) rec₁
    publish st₁
    failure ← save n st₁
    on_error failure (λ e. block ("state persistence failed: " <> error_text e)) (pure tt)
    pure (result_of rec₁)

  -- `fail`.
  unfoldable pub fail : TargetState → Record → String → String → Action Result
  unfolding uncertain failed_record release_active
  fail st rec key cause = do
    time ← ask n.now
    let rec₁ = failed_record key cause time rec
    let st₁ = release_active st
    failure ← save n (attach st₁ rec₁)
    on_error failure (λ e. uncertain st₁ rec₁ "STATE_PERSIST_FAILED" (error_text e))
        (pure (result_of rec₁))

  -- `commitGitStage`.
  unfoldable pub commit_git_stage : TargetState → Record → Action Result
  unfolding uncertain staged_state succeeded_record
  commit_git_stage st rec = do
    revision ← ask n.fresh_id
    time ← ask n.now
    let st₁ = staged_state revision rec st
    let rec₁ = succeeded_record "latest_switched" "latest_switched" revision time rec
    failure ← save n (attach st₁ rec₁)
    on_error failure (λ e. uncertain st₁ rec₁ "STATE_PERSIST_FAILED" (error_text e))
        (pure (result_of rec₁))

  -- The end of `commit`: the cleanup, whose failure is a warning.
  unfoldable pub commit_cleanup : Target → TargetState → Record → Action Result
  unfolding result_of add_warning
  commit_cleanup t st rec = do
    failure ← ask (λ k. n.cleanup_snapshots k t (attach st rec))
    on_error failure
        (λ e. do
          let rec₁ = add_warning ("cleanup: " <> error_text e) rec
          lost ← save n (attach st rec₁)
          pure (
              result_of (
                on_error lost
                  (λ e₁. add_warning ("cleanup warning not persisted: " <> error_text e₁) rec₁)
                  rec₁)))
        (pure (result_of rec))

  -- `commit`.
  unfoldable pub commit : Target → TargetState → Record → Action Result
  unfolding uncertain committed_state succeeded_record verified commit_cleanup
  commit t st rec₀ = do
    verified_at ← ask n.now
    let rec = record rec₀ { candidate = verified verified_at rec₀.candidate }
    revision ← ask n.fresh_id
    time ← ask n.now
    let st₁ = committed_state revision rec st
    let rec₁ = succeeded_record "complete" "reload_requested" revision time rec
    failure ← save n (attach st₁ rec₁)
    on_error failure (λ e. uncertain st₁ rec₁ "STATE_PERSIST_FAILED" (error_text e))
        (commit_cleanup t st₁ rec₁)

  -- The check of the baseline in `restoreLocal`.
  unfoldable pub verify_baseline : Target → Option Version → Action (Option Error)
  verify_baseline t none = pure none
  verify_baseline t (some v) = ask (λ k. n.verify_snapshot k t v)

  -- `restoreLocal`.
  unfoldable pub restore_local : Target → Record → Action (Option Error)
  unfolding verify_baseline rollback_link switch nginx_test nginx_reload verify
  restore_local t rec = do
    changed ← verify_baseline t rec.baseline
    on_error changed (λ e. pure (some e))
        do
          ended ← ask (λ k. n.context_error k recovery_context)
          on_error ended (λ e. pure (some e))
              do
                lost ← switch n t (rollback_link t rec)
                on_error lost (λ e. pure (some e))
                    do
                      test ← nginx_test n
                      on_error test.1 (λ e. pure (some e))
                          do
                            reload ← nginx_reload n
                            on_error reload.1 (λ e. pure (some e)) (verify n t rec.baseline)

  -- `restore`.
  unfoldable pub restore : Target → TargetState → Record → String → String → Action Result
  unfolding uncertain restore_local restored_state restored_record fail
  restore t st rec key cause = do
    closed ← ask (λ k. n.open_target k t)
    on_error closed (λ e. uncertain st rec "RECOVERY_FAILED" (error_text e))
        do
          failure ← restore_local t rec
          on_error failure
              (λ e. uncertain st rec "RECOVERY_FAILED" (cause <> "; recovery: " <> error_text e))
              do
                revision ← ask n.fresh_id
                fail (restored_state revision rec st) (restored_record revision rec) key cause
