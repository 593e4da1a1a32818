-- ===== src/Publisher/Command.antt =====
-- `runNginxCommand` of internal/application/publisher/runner.go: the test, the reload and the abort
-- of a release whose files are in place.
use config_sync_nginx.Base.{
  ℕ, String, Bool, true, false, ◌&&◌, ◌||◌, not, Option, none, some, error_text, Fallible,
  is_lock_busy, ◌==◌, ◌<>◌,
}
use config_sync_nginx.Base.Dict.{lookup}
use config_sync_nginx.Release.Types.{succeeded, Result, NginxCommandRequest}
use config_sync_nginx.Release.Validate.{trim_command_request, validate_nginx_command_request}
use config_sync_nginx.State.{Target, TargetState, Record, Version, attach}
use config_sync_nginx.Publisher.World.{
  if◌then◌else◌, Node, Action, command_context, ◌>>=◌, ◌>>◌, pure, ask, gets, on_error, on_fail,
  on_none,
}
use config_sync_nginx.Publisher.Store.{save, load, store_load, block}
use config_sync_nginx.Publisher.Steps.{
  snapshot_commit, normalize_snapshot_link, read_link, nginx_test, nginx_reload, verify_activation,
  step, step_with_output,
}
use config_sync_nginx.Publisher.Finish.{result_of, uncertain, commit, restore}
use config_sync_nginx.Publisher.Targets.{
  accepts_env, stored_env, blank_result, find_release, find_target, with_node_lock,
}

pub data Command : Type 0 where
  test reload abort : Command

-- Whether the version is the one of the release.
unfoldable pub is_current : Option Version → Version → Bool
is_current none candidate = false
is_current (some v) candidate = v.commit_id == candidate.commit_id && v.source == candidate.source

-- Whether the text of `latest` names the commit.
unfoldable pub is_live : Target → String → String → Bool
unfolding on_fail normalize_snapshot_link snapshot_commit
is_live t commit link =
    on_fail (normalize_snapshot_link t link) (λ e. false) (λ live. snapshot_commit live == commit)

-- `result.Replayed = true` and the status 200.
unfoldable pub replayed_result : Record → Result
replayed_result rec = record (rec.result) { replayed = true; http_status = 200 }

-- The record behind a successful `nginx -t`.
unfoldable pub tested_record : ℕ → Record → Record
tested_record time rec = record rec {
  nginx_tested = true;
  result = record (rec.result) {
    status = succeeded;
    phase = "nginx_test_succeeded";
    activation_status = "nginx_test_passed";
    rollback_status = "not_needed";
    finished_at = time;
  };
  http_status = 200;
}

-- The phases in which the commands are accepted.
unfoldable pub can_abort : Record → Bool
can_abort rec = rec.result.phase == "latest_switched" || rec.result.phase == "nginx_test_succeeded"

unfoldable pub can_test : Record → Bool
can_test rec = rec.result.phase == "latest_switched" || rec.result.phase == "nginx_test"

unfoldable pub can_reload : Record → Bool
can_reload rec =
    (rec.result.phase == "nginx_test_succeeded"
      || rec.result.phase == "reload"
      || rec.result.phase == "verify_activation")
    && rec.nginx_tested

module _ (n : Node) where
  -- `nginxCommandReject`.
  unfoldable pub command_reject : NginxCommandRequest → ℕ → String → String → Action Result
  command_reject req code key msg = do
    started ← ask n.now
    finished ← ask n.now
    pure (record blank_result {
      release_id = req.release_id;
      env = req.env;
      error_code = key;
      error = msg;
      http_status = code;
      started_at = started;
      finished_at = finished;
    })

  -- `case "abort"`.
  unfoldable pub run_abort : NginxCommandRequest → Target → TargetState → Record → Action Result
  unfolding command_reject can_abort
  run_abort req t st rec =
      if not (can_abort rec)
      then command_reject req 409 "RELEASE_NOT_CURRENT"
          "release has already completed nginx activation"
      else restore n t st rec "RELEASE_ABORTED" "release aborted before nginx activation"

  -- `case "test"`.
  unfoldable pub run_test : NginxCommandRequest → Target → TargetState → Record → Action Result
  unfolding command_reject replayed_result can_test tested_record
  run_test req t st rec =
      if rec.result.phase == "nginx_test_succeeded" && rec.nginx_tested
      then pure (replayed_result rec)
      else if not (can_test rec)
      then command_reject req 409 "NGINX_TEST_NOT_AVAILABLE"
          "release has not completed its Git switch"
      else do
        answer ← step_with_output n command_context st rec "nginx_test" (nginx_test n)
        on_error answer.1 (λ e. restore n t st answer.0 "NGINX_TEST_FAILED" (error_text e))
            do
              time ← ask n.now
              let rec₁ = tested_record time answer.0
              failure ← save n (attach st rec₁)
              on_error failure (λ e. uncertain n st rec₁ "STATE_PERSIST_FAILED" (error_text e))
                  (pure (result_of rec₁))

  -- `case "reload"`.
  unfoldable pub run_reload : NginxCommandRequest → Target → TargetState → Record → Action Result
  unfolding command_reject replayed_result can_reload
  run_reload req t st rec =
      if rec.result.phase == "complete" && rec.result.activation_status == "reload_requested"
      then pure (replayed_result rec)
      else if not (can_reload rec)
      then command_reject req 409 "NGINX_RELOAD_NOT_AVAILABLE"
          "release requires a successful nginx -t"
      else do
        answer ← step_with_output n command_context st rec "reload" (nginx_reload n)
        on_error answer.1 (λ e. restore n t st answer.0 "NGINX_RELOAD_FAILED" (error_text e))
            do
              verified ←
                  step n command_context st answer.0 "verify_activation"
                    (verify_activation n t (attach st answer.0) rec.candidate)
              on_error verified.1
                  (λ e. restore n t st verified.0 "ACTIVATION_FAILED" (error_text e))
                  (commit n t st verified.0)

  -- The `switch` over the command.
  unfoldable pub dispatch :
      Command → NginxCommandRequest → Target → TargetState → Record → Action Result
  dispatch test = run_test
  dispatch reload = run_reload
  dispatch abort = run_abort

  -- The test of the live link.
  unfoldable pub command_on_link :
      Command
      → NginxCommandRequest
      → Target
      → TargetState
      → Record
      → Version
      → Fallible String
      → Action Result
  unfolding command_reject is_live dispatch
  command_on_link command req t st rec candidate raw =
      on_fail raw
        (λ e. command_reject req 409 "RELEASE_NOT_CURRENT" "latest is unavailable for this release")
        (λ link.
          if not (is_live t candidate.commit_id link)
          then command_reject req 409 "RELEASE_NOT_CURRENT" "a newer Git switch is now current"
          else dispatch command req t st rec)

  -- The tests of the target and of its version, in front of the `switch` over the command.
  unfoldable pub command_on_target :
      Command → NginxCommandRequest → Target → TargetState → Record → Version → Action Result
  unfolding command_reject is_current command_on_link
  command_on_target command req t st rec candidate = do
    closed ← ask (λ k. n.open_target k t)
    on_error closed (λ e. uncertain n st rec "TARGET_UNAVAILABLE" (error_text e))
        (if not (is_current st.current candidate)
          then command_reject req 409 "RELEASE_NOT_CURRENT" "a newer Git switch is now current"
          else (do raw ← read_link n t; command_on_link command req t st rec candidate raw))

  -- The tests of the stored record and of its environment.
  unfoldable pub command_on_record :
      Command → NginxCommandRequest → String → TargetState → Action Result
  unfolding command_on_target stored_env
  command_on_record command req target_id st =
      on_none (lookup req.release_id st.records)
        (command_reject req 409 "RELEASE_NOT_FOUND" "release has no switched candidate")
        (λ rec.
          on_none rec.candidate
            (command_reject req 409 "RELEASE_NOT_FOUND" "release has no switched candidate")
            (λ candidate.
              if not rec.intent
              then command_reject req 409 "RELEASE_NOT_FOUND" "release has no switched candidate"
              else if not (stored_env n.config st == req.env) || not (rec.request.env == req.env)
              then command_reject req 403 "ENV_NOT_ALLOWED"
                  "release environment does not match this node"
              else do
                target ← find_target n target_id
                on_none target
                    (command_reject req 403 "TARGET_NOT_ALLOWED"
                      "release target is no longer authorized")
                    (λ t. command_on_target command req t st rec candidate)))

  -- What runs under the lock of the node.
  unfoldable pub command_locked : Command → NginxCommandRequest → Action Result
  unfolding command_on_record find_release
  command_locked command req = do
    failure ← load n
    on_error failure
        (λ e. block (error_text e) >> command_reject req 503 "STATE_UNAVAILABLE" (error_text e))
        do
          blocked ← gets (λ w. w.blocked)
          stopping ← gets (λ w. w.stopping)
          if not (blocked == "") || stopping
              then command_reject req 503 "RECOVERY_REQUIRED"
                  ("publication unavailable: " <> blocked)
              else do
                found ← gets (λ w. find_release req.release_id w.views)
                on_none found (command_reject req 404 "RELEASE_NOT_FOUND" "release_id not found")
                    (λ f. do
                      stored ← store_load n f.0
                      on_fail stored
                          (λ e. command_reject req 503 "STATE_UNAVAILABLE" (error_text e))
                          (command_on_record command req f.0))

  -- `runNginxCommand`.
  unfoldable pub run_nginx_command : Command → NginxCommandRequest → Action Result
  unfolding command_locked
  run_nginx_command command req₀ =
      on_fail (validate_nginx_command_request req₀)
        (λ e. command_reject (trim_command_request req₀) 400 "INVALID_REQUEST" (error_text e))
        (λ req.
          if not (accepts_env n.config req.env)
          then command_reject req 403 "ENV_NOT_ALLOWED" "environment does not match this node"
          else with_node_lock n
              (command_reject req 409 "NODE_BUSY" "another release owns the node lock")
              (λ e.
                if is_lock_busy e
                then command_reject req 409 "NODE_BUSY" (error_text e)
                else command_reject req 503 "LOCK_FAILED" (error_text e))
              (command_locked command req))
