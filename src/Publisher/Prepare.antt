-- ===== src/Publisher/Prepare.antt =====
-- The middle of `apply` in internal/application/publisher/runner.go: the baseline, the release that
-- is in place already, the fetch and the snapshot.
use config_sync_nginx.Base.{
  String, Bool, true, false, ◌&&◌, not, [], ◌∷◌, Option, none, some, Error, error_text, other,
  is_context_error, ◌==◌, ◌<>◌,
}
use config_sync_nginx.Base.Dict.{Dict, lookup}
use config_sync_nginx.Release.Types.{
  ApplyRequest, Result, skipped, is_succeeded, release_type_frontend_static,
}
use config_sync_nginx.Release.Identity.{is_artifact_digest, get_param}
use config_sync_nginx.State.{Target, TargetState, Record, Version, attach}
use config_sync_nginx.Publisher.World.{
  if◌then◌else◌, Node, Action, prepare_context, ◌>>=◌, pure, ask, on_error, on_fail, on_none,
}
use config_sync_nginx.Publisher.Store.{save}
use config_sync_nginx.Publisher.Steps.{
  resumable_nginx_phase, read_link, verify_version, step, step_assigning,
}
use config_sync_nginx.Publisher.Finish.{result_of, uncertain, fail}
use config_sync_nginx.Publisher.Command.{is_live, replayed_result}
use config_sync_nginx.Publisher.Activate.{activate}

-- `source`.
unfoldable pub source : Node → ApplyRequest → Target → String
unfolding get_param
source n req t =
    if req.type == release_type_frontend_static
    then t.artifact_repository <> "@" <> req.artifact_digest
    else get_param req.source_repo n.config.repos

-- The record of the step `verify_baseline`: its rollback target is the stored current version.
unfoldable pub set_baseline : Option Version → Record → Record
set_baseline none rec = rec
set_baseline (some v) rec = record rec {
  baseline = some v;
  before_link = v.link;
  result = record (rec.result) { previous_commit_id = v.commit_id };
}

-- Whether the version is the one that is asked for.
unfoldable pub is_unchanged : Option Version → String → String → Bool
is_unchanged none commit src = false
is_unchanged (some v) commit src = v.commit_id == commit && v.source == src

-- Whether the record is a switch of the same candidate whose commands of nginx can go on.
unfoldable pub is_resumable : String → String → Record → Bool
unfolding resumable_nginx_phase is_unchanged
is_resumable commit src existing =
    is_succeeded existing.result.status
    && resumable_nginx_phase existing.result.phase
    && is_unchanged existing.candidate commit src

unfoldable pub find_resumable : String → String → Dict Record → Option Record
unfolding is_resumable
find_resumable commit src [] = none
find_resumable commit src ((id, existing) ∷ rs) =
    if is_resumable commit src existing then some existing else find_resumable commit src rs

-- The record of a release whose files are in place already.
unfoldable pub skipped_record : Record → Record
skipped_record rec = record rec {
  result = record (rec.result) { status = skipped; phase = "complete" };
  http_status = 200;
}

-- What the fetch assigns: `work`, `actual`, `req.ArtifactDigest` and `source`.
pub record Fetched : Type 0 where
  pub work : String
  pub actual : String
  pub digest : String
  pub source : String

unfoldable pub set_digest : String → Record → Record
set_digest digest rec = record rec { result = record (rec.result) { artifact_digest = digest } }

module _ (n : Node) where
  -- The pull of a frontend, whose digest is known.
  unfoldable pub pull :
      Target → ApplyRequest → Fetched → Record → Action (Record × Fetched × String × Option Error)
  pull t req got rec = do
    answer ← ask (λ k. n.pull k t req.commit_id got.digest)
    pure (rec, record got { work = answer.0; actual = req.commit_id }, "", answer.1)

  -- The digest that the registry has for the commit, which is saved before the pull.
  unfoldable pub resolve_and_pull :
      Target
      → TargetState
      → ApplyRequest
      → Fetched
      → Record
      → Action (Record × Fetched × String × Option Error)
  unfolding source set_digest pull
  resolve_and_pull t st req got rec =
      if not n.resolves_digests
      then pure (rec, got, "", some (other "artifact source does not support SHA tag resolution"))
      else do
        answer ← ask (λ k. n.resolve_digest k t req.commit_id)
        on_fail answer (λ e. pure (rec, got, "", some e))
            (λ digest.
              if not (is_artifact_digest digest)
              then pure (rec, got, "", some (other "invalid resolved artifact digest"))
              else do
                let req₁ = record req { artifact_digest = digest }
                let got₁ = record got { digest = digest; source = source n req₁ t }
                let rec₁ = set_digest digest rec
                failure ← save n (attach st rec₁)
                on_error failure (λ e. pure (rec₁, got₁, "", some e)) (pull t req₁ got₁ rec₁))

  -- The function of the steps `fetch` and `oras_pull`.
  unfoldable pub fetch :
      Target
      → TargetState
      → ApplyRequest
      → Fetched
      → Record
      → Action (Record × Fetched × String × Option Error)
  unfolding resolve_and_pull pull
  fetch t st req got rec =
      if req.type == release_type_frontend_static
      then (if req.artifact_digest == ""
          then resolve_and_pull t st req got rec
          else pull t req got rec)
      else do
        answer ← ask (λ k. n.checkout k req t)
        pure (rec, record got { work = answer.0; actual = answer.1 }, "", answer.2)

  -- The function of the step `prepare_snapshot` behind a fetch.
  unfoldable pub snapshot :
      Target → ApplyRequest → Fetched → Record → Action (Record × Unit {0} × String × Option Error)
  snapshot t req got rec = do
    answer ← ask (λ k. n.prepare_snapshot k t got.work got.actual got.source req.version)
    on_fail answer (λ e. pure (record rec { candidate = none }, tt, "", some e))
        (λ v. pure (record rec { candidate = some v }, tt, "", none))

  -- The record and the error behind the fetch and the snapshot.
  unfoldable pub fetch_candidate :
      Target → TargetState → ApplyRequest → String → Record → Action (Record × Option Error)
  unfolding fetch snapshot
  fetch_candidate t st req src rec = do
    let got : Fetched = record {
      work = "";
      actual = "";
      digest = req.artifact_digest;
      source = src;
    }
    fetched ←
        step_assigning n prepare_context st rec
          (if req.type == release_type_frontend_static then "oras_pull" else "fetch") got
          (fetch t st req got)
    on_error fetched.2 (λ e. pure (fetched.0, some e))
        do
          prepared ←
              step_assigning n prepare_context st fetched.0 "prepare_snapshot" tt
                (snapshot t req fetched.1)
          pure (prepared.0, prepared.2)

  -- A restored release takes the retained baseline of the original as its candidate.
  unfoldable pub restore_candidate :
      Target → TargetState → ApplyRequest → Record → Action (Record × Option Error)
  restore_candidate t st req rec = do
    let original = lookup req.restore_of st.records
    let baseline = on_none original none (λ r. r.baseline)
    let candidate = on_none baseline none (λ v. some (record v { version = req.version }))
    let rec₁ = record rec { candidate = candidate }
    step n prepare_context st rec₁ "prepare_snapshot" (verify_version n t candidate)

  -- The function of the step `verify_candidate`.
  unfoldable pub check_candidate : Target → Option Version → Action (Option Error)
  check_candidate t none = pure (some (other "missing snapshot"))
  check_candidate t (some v) = do
    failure ← ask (λ k. n.verify_snapshot k t v)
    on_error failure (λ e. pure (some e)) (ask (λ k. n.install_assets k t v))

  -- The candidate, its check, and the activation.
  unfoldable pub prepare_and_activate :
      Bool → Target → TargetState → ApplyRequest → String → Record → Action Result
  unfolding fetch_candidate restore_candidate check_candidate
  prepare_and_activate defer_nginx_commands t st req src rec = do
    prepared ←
        (if not (req.restore_of == "")
          then restore_candidate t st req rec
          else fetch_candidate t st req src rec)
    on_error prepared.1 (λ e. fail n st prepared.0 "PREPARE_FAILED" (error_text e))
        do
          checked ←
              step n prepare_context st prepared.0 "verify_candidate"
                (check_candidate t prepared.0.candidate)
          on_error checked.1 (λ e. fail n st checked.0 "CANDIDATE_INVALID" (error_text e))
              do
                ended ← ask (λ k. n.context_error k prepare_context)
                on_error ended (λ e. fail n st checked.0 "PREPARE_CANCELLED" (error_text e))
                    (activate n defer_nginx_commands t st checked.0)

  -- The release that is in place already: the record of its own switch is replayed, or this one is
  -- skipped.
  unfoldable pub skip : TargetState → ApplyRequest → String → Record → Action Result
  unfolding find_resumable skipped_record
  skip st req src rec =
      on_none (find_resumable req.commit_id src (attach st rec).records)
        (do
          time ← ask n.now
          let rec₁ = record (skipped_record rec) {
            result = record ((skipped_record rec).result) { finished_at = time };
          }
          let st₁ = record st { active_id = "" }
          failure ← save n (attach st₁ rec₁)
          on_error failure (λ e. uncertain n st₁ rec₁ "STATE_PERSIST_FAILED" (error_text e))
              (pure (result_of rec₁)))
        (λ existing. pure (replayed_result existing))

  -- Whether `latest` names the commit and the stored snapshot is whole.
  unfoldable pub is_in_place : Target → TargetState → String → Action Bool
  unfolding is_live
  is_in_place t st commit = do
    raw ← read_link n t
    if on_fail raw (λ e. false) (is_live t commit)
        then (do failure ← verify_version n t st.current; pure (on_error failure (λ e. false) true))
        else pure false

  -- The function of the step `verify_baseline`.
  unfoldable pub baseline_step :
      TargetState → Record → Action (Record × Unit {0} × String × Option Error)
  unfolding set_baseline
  baseline_step st rec = do
    ended ← ask (λ k. n.context_error k prepare_context)
    on_error ended (λ e. pure (rec, tt, "", some e))
        (pure (set_baseline st.current rec, tt, "", none))

  -- The test for a release that is in place, and the rest of the transaction.
  unfoldable pub skip_or_prepare :
      Bool → Target → TargetState → ApplyRequest → String → Record → Action Result
  unfolding is_unchanged is_in_place skip prepare_and_activate
  skip_or_prepare defer_nginx_commands t st req src rec = do
    in_place ←
        (if is_unchanged st.current req.commit_id src
          then is_in_place t st req.commit_id
          else pure false)
    if in_place
        then skip st req src rec
        else prepare_and_activate defer_nginx_commands t st req src rec

  -- The transaction behind the saved acceptance.
  unfoldable pub execute :
      Bool → Target → TargetState → ApplyRequest → String → Record → Action Result
  unfolding baseline_step skip_or_prepare
  execute defer_nginx_commands t st req src rec = do
    closed ← ask (λ k. n.open_target k t)
    on_error closed (λ e. fail n st rec "TARGET_UNAVAILABLE" (error_text e))
        do
          based ← step_assigning n prepare_context st rec "verify_baseline" tt (baseline_step st)
          on_error based.2
              (λ e.
                if is_context_error e
                then fail n st based.0 "BASELINE_CHECK_CANCELLED" (error_text e)
                else uncertain n st based.0 "STATE_PERSIST_FAILED" (error_text e))
              (skip_or_prepare defer_nginx_commands t st req src based.0)
