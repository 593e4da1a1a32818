-- ===== src/Publisher/Steps.antt =====
-- The steps of a transaction in internal/application/publisher/runner.go: `stepWithOutput` and
-- `step`, the two nginx commands, `verify`, and the links of snapshots.
use Prim.Native.Nat.{◌/◌}
use Prim.Native.String.{slice}
use config_sync_nginx.Base.{
  ◌-◌, String, Bool, true, false, ◌&&◌, ◌||◌, not, [], ◌∷◌, ◌++◌, Option, none, some, Error,
  error_text, Fallible, ok, err, other, ltb, len, is_some, ◌==◌, ◌<>◌,
}
use config_sync_nginx.Base.Text.{trim_space}
use config_sync_nginx.Base.Dict.{lookup, insert}
use config_sync_nginx.Base.FilePath.{clean, is_abs, rel, join}
use config_sync_nginx.Release.Types.{
  NodeStatus, succeeded, failed, Step, release_type_frontend_static,
}
use config_sync_nginx.Release.Identity.{is_commit}
use config_sync_nginx.State.{Target, TargetState, Record, Version, attach}
use config_sync_nginx.Publisher.World.{
  if◌then◌else◌, Node, World, Action, Context, WriteOutcome, not_written, tested, reloaded,
  switched, ◌>>=◌, ◌>>◌, pure, ask, gets, modify, emit, on_error, on_fail, on_none,
}
use config_sync_nginx.Publisher.Store.{save, write_error}

-- `nginxCommandOutput`.
unfoldable pub nginx_command_output : String → String → Option Error → String
unfolding trim_space on_error error_text
nginx_command_output command output failure =
    if not (trim_space output == "")
    then command <> " output: " <> trim_space output
    else on_error failure error_text (command <> " succeeded")

-- The text is that of the error.
unfoldable pub is_error_text : String → Option Error → Bool
unfolding error_text
is_error_text output none = false
is_error_text output (some e) = output == error_text e

-- `commandOutput`. Go cuts at a byte; the cut here leaves out a character that the limit divides.
unfoldable pub command_output : String → Option Error → String
unfolding trim_space is_error_text
command_output output failure =
    let text = trim_space output in
    if text == "" || is_error_text text failure
    then text
    else if ltb 8192 (len text)
    then slice text 0 8192 <> " [truncated]"
    else text

unfoldable pub step_status : Option Error → NodeStatus
step_status none = succeeded
step_status (some e) = failed

unfoldable pub step_message : String → Option Error → String
unfolding error_text
step_message output none = output
step_message output (some e) = if output == "" then error_text e else output

-- `rec.Result.Phase = phase`.
unfoldable pub set_phase : String → Record → Record
set_phase phase rec = record rec { result = record (rec.result) { phase = phase } }

-- The line of `rec.Result.Steps` for a step that ran.
unfoldable pub append_step : Step → Record → Record
append_step s rec = record rec {
  result = record (rec.result) { steps = rec.result.steps ++ s ∷ [] };
}

-- `snapshotCommit`.
unfoldable pub snapshot_commit : String → String
snapshot_commit link =
    if is_commit link
    then link
    else if slice link 0 9 == "releases/"
    then slice link 9 (len link)
    else link

-- The link behind `filepath.Rel` and `filepath.Clean`, if it names a snapshot.
unfoldable pub check_snapshot_link : String → Fallible String
check_snapshot_link raw =
    let link = clean raw in
    if is_commit link
    then ok link
    else if slice link 0 9 == "releases/" && is_commit (slice link 9 (len link))
    then ok link
    else err (other "unsafe snapshot link")

-- `normalizeSnapshotLink`.
unfoldable pub normalize_snapshot_link : Target → String → Fallible String
normalize_snapshot_link t link =
    if link == ""
    then ok ""
    else if is_abs link
    then on_fail (rel t.dir link) err check_snapshot_link
    else check_snapshot_link link

-- `rollbackLink`.
unfoldable pub rollback_link : Target → Record → String
unfolding normalize_snapshot_link on_fail
rollback_link t rec = elim rec.baseline [
  | none ↦ on_fail (normalize_snapshot_link t rec.before_link) (λ e. rec.before_link) (λ l. l)
  | some v ↦
      if not (v.link == "")
      then on_fail (normalize_snapshot_link t v.link) (λ e. v.link) (λ l. l)
      else on_fail (normalize_snapshot_link t rec.before_link) (λ e. rec.before_link) (λ l. l)
]

-- `resumableNginxPhase`.
unfoldable pub resumable_nginx_phase : String → Bool
resumable_nginx_phase phase =
    phase == "latest_switched"
    || phase == "nginx_test"
    || phase == "nginx_test_succeeded"
    || phase == "reload"
    || phase == "verify_activation"

-- The link `latest` behind a switch; an empty target removes it.
unfoldable pub apply_switch : WriteOutcome → Target → String → World → World
unfolding insert join lookup
apply_switch (not_written e) t link w = w
apply_switch _ t link w =
    emit (switched t.id link (lookup t.id w.disk))
      (record w { links = insert t.dir (if link == "" then "" else join t.dir link) w.links })

module _ (n : Node) where
  -- `fsutil.Link`: the text of `latest`, empty if there is none.
  unfoldable pub read_link : Target → Action (Fallible String)
  unfolding lookup
  read_link t = do
    failure ← ask (λ k. n.read_link k t)
    link ← gets (λ w. lookup t.dir w.links)
    pure (on_error failure err (on_none link (ok "") ok))

  -- `fsutil.Switch`.
  unfoldable pub switch : Target → String → Action (Option Error)
  unfolding apply_switch write_error
  switch t link = do
    outcome ← ask (λ k. n.switch_link k t link)
    modify (apply_switch outcome t link)
    pure (write_error outcome)

  -- `nginxTest`, with or without a runtime that reports the output.
  unfoldable pub nginx_test : Action (String × Option Error)
  unfolding nginx_command_output
  nginx_test = do
    answer ← ask n.nginx_test
    modify (emit (tested (not (is_some answer.1))))
    pure (
      nginx_command_output "nginx -t" (if n.reports_output then answer.0 else "") answer.1,
      answer.1,
    )

  -- `nginxReload`.
  unfoldable pub nginx_reload : Action (String × Option Error)
  unfolding nginx_command_output
  nginx_reload = do
    answer ← ask n.nginx_reload
    modify (emit (reloaded (not (is_some answer.1))))
    pure (
      nginx_command_output "nginx -s reload" (if n.reports_output then answer.0 else "") answer.1,
      answer.1,
    )

  -- The end of `verify`, behind the check of the snapshot.
  unfoldable pub verify_runtime : Target → Option Version → Action (Option Error)
  verify_runtime t none = ask (λ k. n.runtime_verify k t "" true)
  verify_runtime t (some v) = do
    failure ← ask (λ k. n.runtime_verify k t v.commit_id false)
    on_error failure (λ e. pure (some e))
        (if t.type == release_type_frontend_static && not (t.public_base_url == "")
          then ask (λ k. n.verify_frontend_http k t v)
          else pure none)

  -- `verifySnapshot`, where the version is not nil.
  unfoldable pub verify_version : Target → Option Version → Action (Option Error)
  verify_version t none = pure (some (other "missing snapshot"))
  verify_version t (some v) = ask (λ k. n.verify_snapshot k t v)

  -- `verify`.
  unfoldable pub verify : Target → Option Version → Action (Option Error)
  unfolding verify_runtime
  verify t none = verify_runtime t none
  verify t (some v) = do
    failure ← ask (λ k. n.verify_snapshot k t v)
    on_error failure (λ e. pure (some e)) (verify_runtime t (some v))

  -- `verify` and `verifyRetainedAssets`, the function of the step `verify_activation`.
  unfoldable pub verify_activation : Target → TargetState → Option Version → Action (Option Error)
  unfolding verify
  verify_activation t st v = do
    failure ← verify t v
    on_error failure (λ e. pure (some e)) (ask (λ k. n.verify_retained_assets k t st v))

  -- `stepWithOutput`. The function gives the record as it has changed it, the variables of the caller
  -- that it has assigned, its output and its error; it is not called if the context has ended.
  unfoldable pub step_assigning {ℓ} :
      {A : Type ℓ}
      → Context
      → TargetState
      → Record
      → String
      → A
      → (Record → Action (Record × A × String × Option Error))
      → Action (Record × A × Option Error)
  unfolding set_phase append_step command_output step_status step_message
  step_assigning ctx st rec name a fn = do
    let rec₁ = set_phase name rec
    failure ← save n (attach st rec₁)
    on_error failure (λ e. pure (rec₁, a, some e))
        do
          started ← ask n.now
          ended ← ask (λ k. n.context_error k ctx)
          answer ← on_error ended (λ e. pure (rec₁, a, "", some e)) (fn rec₁)
          finished ← ask n.now
          let output = command_output answer.2 answer.3
          let line : Step = record {
            name = name;
            status = step_status answer.3;
            message = step_message output answer.3;
            started_at = started;
            duration_ms = (finished - started) / 1000000;
          }
          pure (append_step line answer.0, answer.1, answer.3)

  -- A command whose output the step keeps.
  unfoldable pub reporting :
      Action (String × Option Error) → Record → Action (Record × Unit {0} × String × Option Error)
  reporting m rec = do answer ← m; pure (rec, tt, answer.0, answer.1)

  -- A function that leaves the record alone and has no output.
  unfoldable pub quiet :
      Action (Option Error) → Record → Action (Record × Unit {0} × String × Option Error)
  quiet m rec = do failure ← m; pure (rec, tt, "", failure)

  -- `stepWithOutput`, for a function that assigns nothing.
  unfoldable pub step_with_output :
      Context
      → TargetState
      → Record
      → String
      → Action (String × Option Error)
      → Action (Record × Option Error)
  unfolding step_assigning reporting
  step_with_output ctx st rec name m = do
    answer ← step_assigning ctx st rec name tt (reporting m)
    pure (answer.0, answer.2)

  -- `step`, for a function that assigns nothing.
  unfoldable pub step :
      Context
      → TargetState
      → Record
      → String
      → Action (Option Error)
      → Action (Record × Option Error)
  unfolding step_assigning quiet
  step ctx st rec name m = do
    answer ← step_assigning ctx st rec name tt (quiet m)
    pure (answer.0, answer.2)
