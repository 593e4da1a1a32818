-- ===== src/Publisher/Agreement/Prepare.antt =====
-- The middle of a transaction keeps the agreement of the statuses.
use config_sync_nginx.Base.{
  String, Bool, true, false, ◌&&◌, ◌≡◌, refl, [], ◌∷◌, Option, none, some, OnSome, Bool-cases, inl,
  inr,
}
use config_sync_nginx.Base.Dict.{Dict}
use config_sync_nginx.Release.Types.{
  ApplyRequest, NodeStatus, running, succeeded, skipped, failed, recovery_required, is_succeeded,
}
use config_sync_nginx.State.{Target, TargetState, Record, Version, attach}
use config_sync_nginx.Publisher.World.{if◌then◌else◌, Node, World}
use config_sync_nginx.Publisher.Command.{replayed_result}
use config_sync_nginx.Publisher.Prepare.{
  set_baseline, is_resumable, find_resumable, skipped_record, Fetched, set_digest, pull,
  resolve_and_pull, fetch, snapshot, fetch_candidate, restore_candidate, check_candidate,
  prepare_and_activate, skip, is_in_place, baseline_step, skip_or_prepare, execute,
}
use config_sync_nginx.Publisher.Activate.{intended, activate}
use config_sync_nginx.Publisher.Gives.{
  Gives, Any, if-Gives, on_error-Gives, on_none-Gives, on_fail-Gives, pure-Gives, bind-Gives,
}
use config_sync_nginx.Publisher.Laws.Steps.{
  ask-Gives, same-Gives, save-Gives, step-Gives, step_assigning-Gives, read_link-Gives,
  verify_version-Gives,
}
use config_sync_nginx.Publisher.Laws.Finish.{result-Gives, uncertain-Gives, fail-Gives}
use config_sync_nginx.Publisher.Laws.Command.{switch_and_finish-Gives}
use config_sync_nginx.Publisher.Agreement.{
  IsAgreeing, IsReported, Reports, Sound, IsSoundTx, sound, switch-Sound,
}

set_baseline-IsAgreeing :
    (v : Option Version) (rec : Record) → IsAgreeing rec → IsAgreeing (set_baseline v rec)
unfolding set_baseline
set_baseline-IsAgreeing none rec h = h
set_baseline-IsAgreeing (some v) rec h = h

succeeded-Reports : (s : NodeStatus) → is_succeeded s ≡ true → Reports s 200
succeeded-Reports succeeded e = refl
succeeded-Reports running e = absurd (cc)
succeeded-Reports skipped e = absurd (cc)
succeeded-Reports failed e = absurd (cc)
succeeded-Reports recovery_required e = absurd (cc)

and-left : (a b : Bool) → (a && b) ≡ true → a ≡ true
and-left true b e = refl
and-left false b e = e

is_resumable-succeeded :
    (commit src : String) (r : Record)
    → is_resumable commit src r ≡ true
    → is_succeeded r.result.status ≡ true
unfolding is_resumable
is_resumable-succeeded commit src r e = and-left _ _ (and-left _ _ e)

-- A record that is replayed is a success.
find_resumable-succeeded :
    (commit src : String) (rs : Dict Record)
    → OnSome (λ r. is_succeeded r.result.status ≡ true) (find_resumable commit src rs)
unfolding find_resumable if◌then◌else◌
find_resumable-succeeded commit src [] = tt
find_resumable-succeeded commit src ((id, existing) ∷ rs) =
    elim (Bool-cases (is_resumable commit src existing)) [
      | inl e ↦ rw e (is_resumable-succeeded commit src existing e)
      | inr e ↦ rw e (find_resumable-succeeded commit src rs)
    ]

module _ (n : Node) (busy locked : Bool) where
  abbrev S : World → Type 0
  S = Sound busy locked

  pull-Gives :
      (t : Target) (st : TargetState) (req : ApplyRequest) (got : Fetched) (rec : Record)
      → IsSoundTx busy locked st rec
      → Gives S (λ x. IsSoundTx busy locked st x.0) S (pull n t req got rec)
  unfolding pull
  pull-Gives t st req got rec h =
      bind-Gives (ask-Gives n (sound busy locked) _) (λ answer _. pure-Gives _ h (λ w s. s))

  resolve_and_pull-Gives :
      (t : Target) (st : TargetState) (req : ApplyRequest) (got : Fetched) (rec : Record)
      → IsSoundTx busy locked st rec
      → Gives S (λ x. IsSoundTx busy locked st x.0) S (resolve_and_pull n t st req got rec)
  unfolding resolve_and_pull set_digest
  resolve_and_pull-Gives t st req got rec h =
      if-Gives _ (λ _. pure-Gives _ h (λ w s. s))
        (λ _. bind-Gives (ask-Gives n (sound busy locked) _) (λ answer _.
          on_fail-Gives answer (λ e _. pure-Gives _ h (λ w s. s))
            (λ digest _.
              if-Gives _ (λ _. pure-Gives _ h (λ w s. s))
                (λ _.
                  bind-Gives (save-Gives n (sound busy locked) st (set_digest digest rec) h)
                    (λ failure _.
                      on_error-Gives failure (λ e _. pure-Gives _ h (λ w s. s))
                        (λ _.
                          bind-Gives (ask-Gives n (sound busy locked) _)
                            (λ pulled _. pure-Gives _ h (λ w s. s))))))))

  fetch-Gives :
      (t : Target) (st : TargetState) (req : ApplyRequest) (got : Fetched) (rec : Record)
      → IsSoundTx busy locked st rec
      → Gives S (λ x. IsSoundTx busy locked st x.0) S (fetch n t st req got rec)
  unfolding fetch
  fetch-Gives t st req got rec h =
      if-Gives _
        (λ _.
          if-Gives _ (λ _. resolve_and_pull-Gives t st req got rec h)
            (λ _. pull-Gives t st req got rec h))
        (λ _.
          bind-Gives (ask-Gives n (sound busy locked) _) (λ answer _. pure-Gives _ h (λ w s. s)))

  snapshot-Gives :
      (t : Target) (st : TargetState) (req : ApplyRequest) (got : Fetched) (rec : Record)
      → IsSoundTx busy locked st rec
      → Gives S (λ x. IsSoundTx busy locked st x.0) S (snapshot n t req got rec)
  unfolding snapshot
  snapshot-Gives t st req got rec h = bind-Gives (ask-Gives n (sound busy locked) _) (λ answer _.
      on_fail-Gives answer (λ e _. pure-Gives _ h (λ w s. s)) (λ v _. pure-Gives _ h (λ w s. s)))

  fetch_candidate-Gives :
      (t : Target) (st : TargetState) (req : ApplyRequest) (src : String) (rec : Record)
      → IsSoundTx busy locked st rec
      → Gives S (λ x. IsSoundTx busy locked st x.0) S (fetch_candidate n t st req src rec)
  unfolding fetch_candidate
  fetch_candidate-Gives t st req src rec h =
      bind-Gives
        (step_assigning-Gives n (sound busy locked) _ st rec _ _ _ h
          (λ r k. fetch-Gives t st req _ r k))
        (λ fetched k.
          on_error-Gives fetched.2 (λ e _. pure-Gives _ k (λ w s. s))
            (λ _.
              bind-Gives
                (step_assigning-Gives n (sound busy locked) _ st fetched.0 _ _ _ k
                  (λ r k₁. snapshot-Gives t st req fetched.1 r k₁))
                (λ prepared k₁. pure-Gives _ k₁ (λ w s. s))))

  restore_candidate-Gives :
      (t : Target) (st : TargetState) (req : ApplyRequest) (rec : Record)
      → IsSoundTx busy locked st rec
      → Gives S (λ x. IsSoundTx busy locked st x.0) S (restore_candidate n t st req rec)
  unfolding restore_candidate
  restore_candidate-Gives t st req rec h =
      step-Gives n (sound busy locked) _ st _ _ _ h (verify_version-Gives n (sound busy locked) t _)

  check_candidate-Gives : (t : Target) (v : Option Version) → Gives S Any S (check_candidate n t v)
  unfolding check_candidate
  check_candidate-Gives t none = same-Gives n (sound busy locked) _
  check_candidate-Gives t (some v) = bind-Gives (ask-Gives n (sound busy locked) _) (λ failure _.
      on_error-Gives failure (λ e _. same-Gives n (sound busy locked) _)
        (λ _. ask-Gives n (sound busy locked) _))

  pub activate-Gives :
      (defer_nginx_commands : Bool) (t : Target) (st : TargetState) (rec : Record)
      → IsSoundTx busy locked st rec
      → Gives S IsReported S (activate n defer_nginx_commands t st rec)
  unfolding activate intended
  activate-Gives defer_nginx_commands t st rec h =
      let inv = sound busy locked in
      let k = inv.for_phase "switch_intent" st (record rec { intent = true }) h in
      bind-Gives (save-Gives n inv st (intended rec) k) (λ failure _.
        on_error-Gives failure (λ e _. uncertain-Gives n inv st _ _ _ k)
          (λ _.
            switch_and_finish-Gives n inv t (switch-Sound busy locked t) defer_nginx_commands st _ _
              k))

  prepare_and_activate-Gives :
      (defer_nginx_commands : Bool) (t : Target) (st : TargetState) (req : ApplyRequest)
      (src : String) (rec : Record)
      → IsSoundTx busy locked st rec
      → Gives S IsReported S (prepare_and_activate n defer_nginx_commands t st req src rec)
  unfolding prepare_and_activate
  prepare_and_activate-Gives defer_nginx_commands t st req src rec h =
      let inv = sound busy locked in
      bind-Gives {R = λ x. IsSoundTx busy locked st x.0}
        (if-Gives _ (λ _. restore_candidate-Gives t st req rec h)
          (λ _. fetch_candidate-Gives t st req src rec h))
        (λ prepared k.
          on_error-Gives prepared.1 (λ e _. fail-Gives n inv st prepared.0 _ _ k)
            (λ _.
              bind-Gives (step-Gives n inv _ st prepared.0 _ _ k (check_candidate-Gives t _))
                (λ checked k₁.
                  on_error-Gives checked.1 (λ e _. fail-Gives n inv st checked.0 _ _ k₁)
                    (λ _. bind-Gives (ask-Gives n inv _) (λ ended _.
                      on_error-Gives ended (λ e _. fail-Gives n inv st checked.0 _ _ k₁)
                        (λ _. activate-Gives defer_nginx_commands t st checked.0 k₁))))))

  skip-Gives :
      (st : TargetState) (req : ApplyRequest) (src : String) (rec : Record)
      → IsSoundTx busy locked st rec
      → Gives S IsReported S (skip n st req src rec)
  unfolding skip skipped_record replayed_result
  skip-Gives st req src rec h =
      let inv = sound busy locked in
      on_none-Gives (find_resumable req.commit_id src (attach st rec).records)
        (λ _. bind-Gives (ask-Gives n inv _) (λ time _.
          bind-Gives (save-Gives n inv _ _ (h.0, refl)) (λ failure _.
            on_error-Gives failure (λ e _. uncertain-Gives n inv _ _ _ _ (h.0, refl))
              (λ _. result-Gives n inv (record st { active_id = "" }) _ (h.0, refl)))))
        (λ existing e.
          pure-Gives _
            (succeeded-Reports existing.result.status
              (rw e at (find_resumable-succeeded req.commit_id src (attach st rec).records)))
            (λ w s. s))

  is_in_place-Gives :
      (t : Target) (st : TargetState) (commit : String) → Gives S Any S (is_in_place n t st commit)
  unfolding is_in_place
  is_in_place-Gives t st commit =
      let inv = sound busy locked in
      bind-Gives (read_link-Gives n inv t) (λ raw _.
        if-Gives _
          (λ _.
            bind-Gives (verify_version-Gives n inv t st.current) (λ failure _. same-Gives n inv _))
          (λ _. same-Gives n inv _))

  baseline_step-Gives :
      (st : TargetState) (rec : Record)
      → IsSoundTx busy locked st rec
      → Gives S (λ x. IsSoundTx busy locked st x.0) S (baseline_step n st rec)
  unfolding baseline_step
  baseline_step-Gives st rec h = bind-Gives (ask-Gives n (sound busy locked) _) (λ ended _.
      on_error-Gives ended (λ e _. pure-Gives _ h (λ w s. s))
        (λ _. pure-Gives _ (h.0, set_baseline-IsAgreeing st.current rec h.1) (λ w s. s)))

  skip_or_prepare-Gives :
      (defer_nginx_commands : Bool) (t : Target) (st : TargetState) (req : ApplyRequest)
      (src : String) (rec : Record)
      → IsSoundTx busy locked st rec
      → Gives S IsReported S (skip_or_prepare n defer_nginx_commands t st req src rec)
  unfolding skip_or_prepare
  skip_or_prepare-Gives defer_nginx_commands t st req src rec h =
      bind-Gives {R = Any}
        (if-Gives _ (λ _. is_in_place-Gives t st req.commit_id)
          (λ _. same-Gives n (sound busy locked) _))
        (λ in_place _.
          if-Gives in_place (λ _. skip-Gives st req src rec h)
            (λ _. prepare_and_activate-Gives defer_nginx_commands t st req src rec h))

  -- The transaction behind the saved acceptance.
  pub execute-Gives :
      (defer_nginx_commands : Bool) (t : Target) (st : TargetState) (req : ApplyRequest)
      (src : String) (rec : Record)
      → IsSoundTx busy locked st rec
      → Gives S IsReported S (execute n defer_nginx_commands t st req src rec)
  unfolding execute
  execute-Gives defer_nginx_commands t st req src rec h =
      let inv = sound busy locked in
      bind-Gives (ask-Gives n inv _) (λ closed _.
        on_error-Gives closed (λ e _. fail-Gives n inv st rec _ _ h)
          (λ _.
            bind-Gives
              (step_assigning-Gives n inv _ st rec _ _ _ h (λ r k. baseline_step-Gives st r k))
              (λ based k.
                on_error-Gives based.2
                  (λ e _.
                    if-Gives _ (λ _. fail-Gives n inv st based.0 _ _ k)
                      (λ _. uncertain-Gives n inv st based.0 _ _ k))
                  (λ _. skip_or_prepare-Gives defer_nginx_commands t st req src based.0 k))))
