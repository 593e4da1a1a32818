-- ===== src/Publisher/Startup.antt =====
-- The start of the service in internal/application/publisher/runner.go: `NewWithRuntime`,
-- `recoverStartup` and `checkStoredBaseline`.
use config_sync_nginx.Base.{
  String, Bool, true, false, ◌&&◌, ◌||◌, not, List, [], ◌∷◌, Option, none, some, Error, error_text,
  other, is_some, ◌==◌, ◌<>◌,
}
use config_sync_nginx.Base.Dict.{Dict, lookup, insert}
use config_sync_nginx.State.{Target, TargetState, Record, is_template}
use config_sync_nginx.Publisher.World.{
  if◌then◌else◌, Node, Action, ◌>>=◌, ◌>>◌, pure, discard, ask, gets, modify, on_error, on_fail,
  on_none,
}
use config_sync_nginx.Publisher.Store.{save, load, block}
use config_sync_nginx.Publisher.Steps.{
  read_link, nginx_test, nginx_reload, verify_version, verify_activation,
}
use config_sync_nginx.Publisher.Finish.{fail, uncertain, commit, restore, verify_baseline}
use config_sync_nginx.Publisher.Targets.{configured_target, ensure_target}
use config_sync_nginx.Publisher.Command.{is_live}

-- The targets of the configuration that are no templates, by identity.
unfoldable pub explicit_targets : List Target → Dict Target → Dict Target
unfolding is_template
explicit_targets [] found = found
explicit_targets (t ∷ ts) found =
    explicit_targets ts (if is_template t then found else insert t.id t found)

-- The record of an interrupted release whose baseline could be checked again.
unfoldable pub revised_record : String → Record → Record
revised_record revision rec = record rec {
  result = record (rec.result) { state_revision_after = revision };
}

module _ (n : Node) where
  -- `checkStoredBaseline`.
  unfoldable pub check_stored_baseline : Target → TargetState → Action (Option Error)
  check_stored_baseline t st = do
    closed ← ask (λ k. n.open_target k t)
    on_error closed (λ e. pure (some e))
        (do
          changed ← verify_baseline n t st.current
          on_error changed (λ e. pure (some e)) (ask (λ k. n.verify_retained_assets k t st none)))

  -- The activation of an interrupted release again, without its steps.
  unfoldable pub reactivate : Target → TargetState → Record → Action (Option Error)
  reactivate t st rec = do
    changed ← verify_version n t rec.candidate
    on_error changed (λ e. pure (some e))
        (do
          test ← nginx_test n
          on_error test.1 (λ e. pure (some e))
              (do
                reload ← nginx_reload n
                on_error reload.1 (λ e. pure (some e)) (verify_activation n t st rec.candidate)))

  -- An interrupted release before its intent.
  unfoldable pub recover_without_intent : Target → TargetState → Record → Action (Unit {0})
  unfolding revised_record
  recover_without_intent t st rec =
      if rec.result.error_code == "BASELINE_UNVERIFIED"
      then (do
        failure ← check_stored_baseline t st
        on_error failure (λ e. pure tt)
            (do
              revision ← ask n.fresh_id
              discard (
                  fail n (record st { revision = revision; recovery_required = false })
                    (revised_record revision rec) "INTERRUPTED"
                    "service stopped before activation")))
      else discard (
          fail n (record st { recovery_required = false }) rec "INTERRUPTED"
            "service stopped before activation")

  -- An interrupted release behind its intent, whose link was read.
  unfoldable pub recover_live : Target → TargetState → Record → Bool → Action (Unit {0})
  recover_live t st rec live =
      if live
      then (do
        failure ← reactivate t st rec
        on_error failure
            (λ e.
              discard
                (restore n t st rec "INTERRUPTED" ("interrupted activation: " <> error_text e)))
            (discard (commit n t st rec)))
      else discard
          (restore n t st rec "INTERRUPTED" "interrupted activation; restoring local baseline")

  -- An interrupted release behind its intent.
  unfoldable pub recover_with_intent : Target → TargetState → Record → Action (Unit {0})
  unfolding is_live
  recover_with_intent t st rec =
      if rec.result.phase == "awaiting_nginx_test" || rec.result.phase == "awaiting_nginx_reload"
      then discard
          (restore n t st rec "INTERRUPTED" "service restarted before the pending nginx command")
      else (do
        closed ← ask (λ k. n.open_target k t)
        on_error closed (λ e. discard (uncertain n st rec "RECOVERY_FAILED" (error_text e)))
            (do
              raw ← read_link n t
              on_fail raw (λ e. discard (uncertain n st rec "RECOVERY_FAILED" (error_text e)))
                  (λ link.
                    recover_live t st rec
                      (on_none rec.candidate false (λ v. is_live t v.commit_id link)))))

  -- `recoverStartup`.
  unfoldable pub recover_startup : Target → TargetState → Action (Unit {0})
  recover_startup t st =
      on_none (lookup st.active_id st.records) (block "active release record missing") (λ rec.
        if rec.intent then recover_with_intent t st rec else recover_without_intent t st rec)

  -- The check of a target with no active release.
  unfoldable pub recheck : Target → TargetState → Action (Unit {0})
  recheck t st = do
    failure ← check_stored_baseline t st
    lost ← save n (record st { recovery_required = is_some failure })
    on_error lost (λ e. block (error_text e)) (pure tt)

  -- One round of the loop over the targets of the start.
  unfoldable pub start_target : Target → Action (Option Error)
  start_target t = do
    ensured ← ensure_target n t
    on_fail ensured (λ e. pure (some e))
        (λ st. do
          if not (st.active_id == "")
              then recover_startup t st
              else (if is_some st.current then recheck t st else pure tt)
          pure none)

  unfoldable pub start_targets : Dict Target → Action (Option Error)
  start_targets [] = pure none
  start_targets ((id, t) ∷ ts) = do
    failure ← start_target t
    on_error failure (λ e. pure (some e)) (start_targets ts)

  -- The stored targets that the configuration still gives, added to the explicit ones.
  unfoldable pub add_stored : Dict TargetState → Dict Target → Action (Dict Target)
  add_stored [] found = pure found
  add_stored ((id, st) ∷ views) found = do
    answer ← configured_target n st st.target.id
    add_stored views (on_none answer found (λ t. insert t.id t found))

  -- Work of targets that the configuration no longer gives blocks the node.
  unfoldable pub block_unconfigured : Dict TargetState → Action (Unit {0})
  block_unconfigured [] = pure tt
  block_unconfigured ((id, st) ∷ views) = do
    answer ← configured_target n st st.target.id
    if (not (st.active_id == "") || st.recovery_required) && not (is_some answer)
        then block ("unconfigured target needs recovery: " <> st.target.id)
        else pure tt
    block_unconfigured views

  -- What `NewWithRuntime` does under the lock of the node.
  unfoldable pub start_locked : Action (Option Error)
  unfolding explicit_targets
  start_locked = do
    failure ← load n
    on_error failure (λ e. pure (some e))
        (do
          views ← gets (λ w. w.views)
          targets ← add_stored views (explicit_targets n.config.targets [])
          stopped ← start_targets targets
          on_error stopped (λ e. pure (some e))
              (do left ← gets (λ w. w.views); block_unconfigured left; pure none))

  -- `NewWithRuntime`, behind the opening of the store and of the lock file.
  unfoldable pub start : Action (Option Error)
  start = do
    failure ← ask n.try_lock
    on_error failure
        (λ e. pure (some (other ("startup requires idle node lock: " <> error_text e))))
        (do
          modify (λ w. record w { locked = true })
          stopped ← start_locked
          modify (λ w. record w { locked = false })
          pure stopped)
