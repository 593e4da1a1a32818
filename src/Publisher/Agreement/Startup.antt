-- ===== src/Publisher/Agreement/Startup.antt =====
-- The start of the service, `NewWithRuntime` of internal/application/publisher/runner.go, and what it
-- does to interrupted releases.
use config_sync_nginx.Base.{Bool, true, false, refl, [], ◌∷◌, Error, error_text}
use config_sync_nginx.Base.Dict.{Dict, lookup, AllValues-lookup}
use config_sync_nginx.State.{Target, TargetState, Record}
use config_sync_nginx.Publisher.World.{Node, World}
use config_sync_nginx.Publisher.Startup.{
  revised_record, check_stored_baseline, reactivate, recover_without_intent, recover_live,
  recover_with_intent, recover_startup, recheck, start_target, start_targets, add_stored,
  block_unconfigured, start_locked, start,
}
use config_sync_nginx.Publisher.Gives.{
  Gives, Any, if-Gives, on_none-Gives, on_error-Gives, on_fail-Gives, bind-Gives, gets-Gives,
  next-Gives, discard-Gives, change-Gives, then-Gives,
}
use config_sync_nginx.Publisher.Laws.Steps.{
  ask-Gives, same-Gives, block-Gives, read_link-Gives, nginx_test-Gives, nginx_reload-Gives,
  verify_version-Gives, verify_activation-Gives,
}
use config_sync_nginx.Publisher.Laws.Finish.{
  uncertain-Gives, fail-Gives, commit-Gives, restore-Gives, verify_baseline-Gives,
}
use config_sync_nginx.Publisher.Agreement.{
  IsAgreeing, IsSound, Sound, IsSoundTx, sound, switch-Sound,
}
use config_sync_nginx.Publisher.Agreement.Targets.{
  configured_target-Gives, ensure_target-Gives, load-Gives, save_plain-Gives,
}

module _ (n : Node) (busy locked : Bool) where
  abbrev S : World → Type 0
  S = Sound busy locked

  abbrev Tx : TargetState → Record → Type 0
  Tx = IsSoundTx busy locked

  check_stored_baseline-Gives :
      (t : Target) (st : TargetState) → Gives S Any S (check_stored_baseline n t st)
  unfolding check_stored_baseline
  check_stored_baseline-Gives t st =
      let inv = sound busy locked in
      bind-Gives (ask-Gives n inv _) (λ closed _.
        on_error-Gives closed (λ e _. same-Gives n inv _)
          (λ _. bind-Gives (verify_baseline-Gives n inv t st.current) (λ changed _.
            on_error-Gives changed (λ e _. same-Gives n inv _) (λ _. ask-Gives n inv _))))

  reactivate-Gives :
      (t : Target) (st : TargetState) (rec : Record) → Gives S Any S (reactivate n t st rec)
  unfolding reactivate
  reactivate-Gives t st rec =
      let inv = sound busy locked in
      bind-Gives (verify_version-Gives n inv t rec.candidate) (λ changed _.
        on_error-Gives changed (λ e _. same-Gives n inv _)
          (λ _. bind-Gives (nginx_test-Gives n inv) (λ test _.
            on_error-Gives test.1 (λ e _. same-Gives n inv _)
              (λ _. bind-Gives (nginx_reload-Gives n inv) (λ reload _.
                on_error-Gives reload.1 (λ e _. same-Gives n inv _)
                  (λ _. verify_activation-Gives n inv t st rec.candidate))))))

  recover_without_intent-Gives :
      (t : Target) (st : TargetState) (rec : Record)
      → Tx st rec
      → Gives S Any S (recover_without_intent n t st rec)
  unfolding recover_without_intent revised_record
  recover_without_intent-Gives t st rec h =
      let inv = sound busy locked in
      if-Gives _
        (λ _. bind-Gives (check_stored_baseline-Gives t st) (λ failure _.
          on_error-Gives failure (λ e _. same-Gives n inv _)
            (λ _. bind-Gives (ask-Gives n inv n.fresh_id) (λ revision _. discard-Gives (
              fail-Gives n inv (record st { revision = revision; recovery_required = false })
                (revised_record revision rec) _ _ h)))))
        (λ _. discard-Gives (fail-Gives n inv (record st { recovery_required = false }) rec _ _ h))

  recover_live-Gives :
      (t : Target) (st : TargetState) (rec : Record) (live : Bool)
      → Tx st rec
      → Gives S Any S (recover_live n t st rec live)
  unfolding recover_live
  recover_live-Gives t st rec live h =
      let inv = sound busy locked in
      let keep = switch-Sound busy locked t in
      if-Gives live
        (λ _. bind-Gives (reactivate-Gives t st rec) (λ failure _.
          on_error-Gives failure (λ e _. discard-Gives (restore-Gives n inv t st rec _ _ keep h))
            (λ _. discard-Gives (commit-Gives n inv t st rec h))))
        (λ _. discard-Gives (restore-Gives n inv t st rec _ _ keep h))

  recover_with_intent-Gives :
      (t : Target) (st : TargetState) (rec : Record)
      → Tx st rec
      → Gives S Any S (recover_with_intent n t st rec)
  unfolding recover_with_intent
  recover_with_intent-Gives t st rec h =
      let inv = sound busy locked in
      let lost = λ (e : Error).
        discard-Gives (uncertain-Gives n inv st rec "RECOVERY_FAILED" (error_text e) h) in
      if-Gives _
        (λ _. discard-Gives (restore-Gives n inv t st rec _ _ (switch-Sound busy locked t) h))
        (λ _. bind-Gives (ask-Gives n inv _) (λ closed _.
          on_error-Gives closed (λ e _. lost e)
            (λ _. bind-Gives (read_link-Gives n inv t) (λ raw _.
              on_fail-Gives raw (λ e _. lost e) (λ link _. recover_live-Gives t st rec _ h)))))

  recover_startup-Gives :
      (t : Target) (st : TargetState) → IsSound st → Gives S Any S (recover_startup n t st)
  unfolding recover_startup
  recover_startup-Gives t st h =
      on_none-Gives (lookup st.active_id st.records) (λ _. block-Gives n (sound busy locked) _)
        (λ rec e.
          let tx : Tx st rec = (h, AllValues-lookup IsAgreeing st.active_id st.records h e) in
          if-Gives rec.intent (λ _. recover_with_intent-Gives t st rec tx)
            (λ _. recover_without_intent-Gives t st rec tx))

  recheck-Gives : (t : Target) (st : TargetState) → IsSound st → Gives S Any S (recheck n t st)
  unfolding recheck
  recheck-Gives t st h =
      let inv = sound busy locked in
      bind-Gives (check_stored_baseline-Gives t st) (λ failure _.
        bind-Gives (save_plain-Gives n busy locked _ h)
          (λ lost _. on_error-Gives lost (λ e _. block-Gives n inv _) (λ _. same-Gives n inv _)))

  start_target-Gives : (t : Target) → Gives S Any S (start_target n t)
  unfolding start_target
  start_target-Gives t =
      let inv = sound busy locked in
      bind-Gives (ensure_target-Gives n busy locked t) (λ ensured h.
        on_fail-Gives ensured (λ e _. same-Gives n inv _)
          (λ st e.
            let st_sound : IsSound st = rw e at h in
            next-Gives
              (if-Gives _ (λ _. recover_startup-Gives t st st_sound)
                (λ _. if-Gives _ (λ _. recheck-Gives t st st_sound) (λ _. same-Gives n inv _)))
              (same-Gives n inv _)))

  start_targets-Gives : (ts : Dict Target) → Gives S Any S (start_targets n ts)
  unfolding start_targets
  start_targets-Gives [] = same-Gives n (sound busy locked) _
  start_targets-Gives ((id, t) ∷ ts) = bind-Gives (start_target-Gives t) (λ failure _.
      on_error-Gives failure (λ e _. same-Gives n (sound busy locked) _)
        (λ _. start_targets-Gives ts))

  add_stored-Gives :
      (views : Dict TargetState) (found : Dict Target) → Gives S Any S (add_stored n views found)
  unfolding add_stored
  add_stored-Gives [] found = same-Gives n (sound busy locked) _
  add_stored-Gives ((id, st) ∷ views) found =
      bind-Gives (configured_target-Gives n busy locked st st.target.id)
        (λ answer _. add_stored-Gives views _)

  block_unconfigured-Gives : (views : Dict TargetState) → Gives S Any S (block_unconfigured n views)
  unfolding block_unconfigured
  block_unconfigured-Gives [] = same-Gives n (sound busy locked) _
  block_unconfigured-Gives ((id, st) ∷ views) =
      let inv = sound busy locked in
      bind-Gives (configured_target-Gives n busy locked st st.target.id) (λ answer _.
        next-Gives (if-Gives _ (λ _. block-Gives n inv _) (λ _. same-Gives n inv _))
          (block_unconfigured-Gives views))

  start_locked-Gives : Gives S Any S (start_locked n)
  unfolding start_locked
  start_locked-Gives =
      let inv = sound busy locked in
      bind-Gives (load-Gives n busy locked) (λ failure _.
        on_error-Gives failure (λ e _. same-Gives n inv _)
          (λ _. bind-Gives (gets-Gives {R = Any} _ (λ w s. tt)) (λ views _.
            bind-Gives (add_stored-Gives views _) (λ targets _.
              bind-Gives (start_targets-Gives targets) (λ stopped _.
                on_error-Gives stopped (λ e _. same-Gives n inv _)
                  (λ _. bind-Gives (gets-Gives {R = Any} _ (λ w s. tt)) (λ left _.
                    next-Gives (block_unconfigured-Gives left) (same-Gives n inv _))))))))

start-Gives : (n : Node) (busy : Bool) → Gives (Sound busy false) Any (Sound busy false) (start n)
unfolding start
start-Gives n busy =
    let inv = sound busy false in
    bind-Gives (ask-Gives n inv _) (λ failure _.
      on_error-Gives failure (λ e _. same-Gives n inv _)
        (λ _. then-Gives {S = Sound busy true} (change-Gives _ (λ w s. (s.0, refl, s.2, s.3))) (
          bind-Gives (start_locked-Gives n busy true) (λ stopped _.
            then-Gives {S = Sound busy false} (change-Gives _ (λ w s. (s.0, refl, s.2, s.3)))
              (same-Gives n inv _)))))

-- The start of the service, whatever the system answers: when every stored record agrees with its
-- HTTP status and the lock of the node is free, the recovery of every interrupted release leaves only
-- agreeing records, on disk and in the views, and the lock is free again.
pub start-Sound : (n : Node) (w : World) → Sound w.busy false w → Sound w.busy false (start n w).1
start-Sound n w s = ((start-Gives n w.busy).at w s).1
