-- ===== src/Publisher/Targets.antt =====
-- The targets of a node in internal/application/publisher/runner.go: `Target`, `configured`,
-- `Resolve`, `ensureTarget` and `duplicate`; `AcceptsEnv` of internal/config/load.go.
use config_sync_nginx.Base.{
  ℕ, String, Bool, true, false, ◌&&◌, ◌||◌, not, List, [], ◌∷◌, Option, none, some, Error, Fallible,
  ok, err, other, lock_busy, is_not_exist, leb, length, ◌==◌,
}
use config_sync_nginx.Base.Dict.{Dict, lookup}
use config_sync_nginx.Base.Text.{trim_space}
use config_sync_nginx.Base.FilePath.{within}
use config_sync_nginx.Release.Types.{
  failed, ReleaseType, Result, ApplyRequest, is_terminal, needs_recovery,
}
use config_sync_nginx.Release.Identity.{get_param}
use config_sync_nginx.State.{Target, TargetState, Record, new_state}
use config_sync_nginx.Publisher.World.{
  if◌then◌else◌, Node, Config, Action, ◌>>=◌, ◌>>◌, pure, ask, gets, modify, on_error, on_fail,
  on_none,
}
use config_sync_nginx.Publisher.Store.{save, load, store_load}

-- `Config.AcceptsEnv`.
unfoldable pub accepts_env : Config → String → Bool
unfolding trim_space get_param
accepts_env c env =
    not (env == "")
    && not (trim_space (get_param env c.release_auth_tokens) == "")
    && (c.env == "" || c.env == env)

-- A stored target with no environment has that of the node.
unfoldable pub stored_env : Config → TargetState → String
stored_env c st = if st.target.env == "" then c.env else st.target.env

abbrev pub blank_result : Result
blank_result = record {
  artifact_digest = "";
  release_id = "";
  target_id = "";
  status = failed;
  phase = "";
  activation_status = "unchanged";
  rollback_status = "not_needed";
  state_revision_before = "";
  state_revision_after = "";
  error_code = "";
  error = "";
  warnings = [];
  replayed = false;
  env = "";
  type = "";
  project = "";
  server_name = "";
  version = "";
  commit_id = "";
  previous_commit_id = "";
  started_at = 0;
  finished_at = 0;
  steps = [];
  http_status = 0;
}

-- Whether the directory overlaps that of another registered target.
unfoldable pub overlaps : Target → Dict TargetState → Bool
unfolding within
overlaps t [] = false
overlaps t ((id, st) ∷ views) =
    (not (id == t.id) && (within t.dir st.target.dir || within st.target.dir t.dir))
    || overlaps t views

-- Whether the directory holds anything but the mark of its owner.
unfoldable pub has_foreign_entry : List String → Bool
has_foreign_entry [] = false
has_foreign_entry (name ∷ names) = not (name == ".publisher.json") || has_foreign_entry names

-- The first record with the release_id in the views, with its target.
unfoldable pub find_release : String → Dict TargetState → Option (String × Record)
unfolding lookup
find_release release_id [] = none
find_release release_id ((id, st) ∷ views) =
    let rest = find_release release_id views in
    on_none (lookup release_id st.records) rest (λ rec. some (id, rec))

module _ (n : Node) where
  abbrev c : Config
  c = n.config

  -- `reject`.
  unfoldable pub reject : ApplyRequest → ℕ → String → String → Action Result
  reject req code key msg = do
    time ← ask n.now
    pure (record blank_result {
      release_id = req.release_id;
      error_code = key;
      error = msg;
      http_status = code;
      started_at = time;
    })

  -- The answer of `duplicate` to a record that it has found.
  unfoldable pub replay : ApplyRequest → String → Record → Action (Option Result)
  unfolding reject
  replay req fingerprint rec =
      if not (rec.fingerprint == fingerprint)
      then (do
        r ←
            reject req 409 "RELEASE_ID_CONFLICT"
              "release_id was already used with different parameters"
        pure (some r))
      else if is_terminal rec.result.status
      then pure (some (record (rec.result) { http_status = rec.http_status; replayed = true }))
      else if needs_recovery rec.result.status
      then pure none
      else pure (some (record (rec.result) { http_status = 409; error_code = "RELEASE_RUNNING" }))

  -- `duplicate`.
  unfoldable pub duplicate : ApplyRequest → String → Action (Option Result)
  unfolding find_release replay
  duplicate req fingerprint = do
    found ← gets (λ w. find_release req.release_id w.views)
    on_none found (pure none) (λ f. replay req fingerprint f.1)

  -- The target that the configuration gives for a stored one, if its identity is the same.
  unfoldable pub configured_target : TargetState → String → Action (Option Target)
  unfolding stored_env
  configured_target st id = do
    let t = st.target
    answer ←
        ask (λ k. n.target_for_env k t.type t.server_name t.path_dest t.project (stored_env c st))
    pure (on_fail answer (λ e. none) (λ t₁. if t₁.id == id then some t₁ else none))

  -- `Runner.Target`.
  unfoldable pub find_target : String → Action (Option Target)
  unfolding configured_target
  find_target id = do
    view ← gets (λ w. lookup id w.views)
    on_none view (pure none) (λ st. configured_target st id)

  -- The state of a target that is registered for the first time.
  unfoldable pub register : Target → Action (Fallible TargetState)
  unfolding new_state has_foreign_entry
  register t = do
    count ← gets (λ w. length w.views)
    if leb c.max_dynamic_targets count && t.dynamic
        then pure (err (other "registered target limit reached"))
        else do
          fresh ← ask n.fresh_id
          refused ← ask (λ k. n.claim_target k t)
          on_error refused (λ e. pure (err e))
              do
                closed ← ask (λ k. n.open_target k t)
                on_error closed (λ e. pure (err e))
                    do
                      entries ← ask (λ k. n.read_dir k t)
                      pure (
                          on_fail entries err (λ names. ok (record (new_state fresh t) {
                            recovery_required = has_foreign_entry names;
                          })))

  -- The state of a target that is registered already.
  unfoldable pub adopt : Target → TargetState → Action (Fallible TargetState)
  adopt t st =
      if not (st.target.dir == t.dir) || not (st.target.type == t.type)
      then pure (err (other "state target mismatch"))
      else do
        refused ← ask (λ k. n.claim_target k t)
        pure (on_error refused err (ok (record st { target = t })))

  -- `ensureTarget`.
  unfoldable pub ensure_target : Target → Action (Fallible TargetState)
  unfolding overlaps register adopt
  ensure_target t = do
    conflict ← gets (λ w. overlaps t w.views)
    if conflict then pure (err (other "deployment directory overlaps a registered target")) else do
      stored ← store_load n t.id
      prepared ← on_fail stored (λ e. if is_not_exist e then register t else pure (err e)) (adopt t)
      on_fail prepared (λ e. pure (err e))
          (λ st. do failure ← save n st; pure (on_error failure err (ok st)))

  -- The channel `busy` and the lock of the node around a transaction, both released at its end.
  unfoldable pub with_node_lock {ℓ} :
      {A : Type ℓ} → Action A → (Error → Action A) → Action A → Action A
  with_node_lock full refused body = do
    taken ← gets (λ w. w.busy)
    if taken then full else do
      modify (λ w. record w { busy = true })
      failure ← ask n.try_lock
      answer ← on_error failure refused do
        modify (λ w. record w { locked = true })
        a ← body
        modify (λ w. record w { locked = false })
        pure a
      modify (λ w. record w { busy = false })
      pure answer

  -- `Resolve`.
  unfoldable pub resolve :
      ReleaseType → String → String → String → String → Action (Fallible Target)
  unfolding find_target with_node_lock ensure_target
  resolve typ site root project env = do
    answer ← ask (λ k. n.target_for_env k typ site root project env)
    on_fail answer (λ e. pure (err e))
        (λ t. do
          existing ← find_target t.id
          on_none existing
              (with_node_lock (pure (err lock_busy)) (λ e. pure (err e))
                do
                  failure ← load n
                  on_error failure (λ e. pure (err e))
                      do ensured ← ensure_target t; pure (on_fail ensured err (λ st. ok t)))
              (λ t₁. pure (ok t₁)))
