-- ===== src/Publisher/Laws/Finish.antt =====
-- The ends of a transaction keep every invariant and give results that it allows.
use config_sync_nginx.Base.{String, Option, none, some, Error, error_text, ◌<>◌}
use config_sync_nginx.Release.Types.{Result}
use config_sync_nginx.State.{Target, TargetState, Record, Version}
use config_sync_nginx.Publisher.World.{Node, World, pure, on_error}
use config_sync_nginx.Publisher.Finish.{
  result_of, failed_record, release_active, uncertain_record, uncertain_state, succeeded_record,
  staged_state, committed_state, verified, add_warning, uncertain, fail, commit_git_stage,
  commit_cleanup, commit, verify_baseline, restore_local, restore,
}
use config_sync_nginx.Publisher.Gives.{
  Gives, Any, on_error-Gives, pure-Gives, bind-Gives, next-Gives,
}
use config_sync_nginx.Publisher.Invariant.{Invariant, KeepsSwitch}
use config_sync_nginx.Publisher.Laws.Steps.{
  ask-Gives, same-Gives, block-Gives, publish-Gives, save-Gives, switch-Gives, nginx_test-Gives,
  nginx_reload-Gives, verify-Gives,
}

module _ {S : World → Type 0} {T : TargetState → Record → Type 0} {R : Result → Type 0} (n : Node)
    (inv : Invariant S T R) where
  pub result-Gives :
      (st : TargetState) (rec : Record) → T st rec → Gives S R S (pure (result_of rec))
  result-Gives st rec t = pure-Gives _ (inv.gives_result st rec t) (λ w s. s)

  pub uncertain-Gives :
      (st : TargetState) (rec : Record) (key cause : String)
      → T st rec
      → Gives S R S (uncertain n st rec key cause)
  unfolding uncertain
  uncertain-Gives st rec key cause t =
      let t₁ = inv.for_uncertain key cause st rec t in
      next-Gives (publish-Gives n inv (uncertain_state rec st) (uncertain_record key cause rec) t₁)
        (bind-Gives (save-Gives n inv (uncertain_state rec st) (uncertain_record key cause rec) t₁)
          (λ failure _.
            next-Gives
              (on_error-Gives failure (λ e _. block-Gives n inv _) (λ _. same-Gives n inv _))
              (result-Gives (uncertain_state rec st) _ t₁)))

  pub fail-Gives :
      (st : TargetState) (rec : Record) (key cause : String)
      → T st rec
      → Gives S R S (fail n st rec key cause)
  unfolding fail
  fail-Gives st rec key cause t = bind-Gives (ask-Gives n inv _) (λ time _.
      let t₁ = inv.for_fail key cause time st rec t in
      bind-Gives (save-Gives n inv (release_active st) (failed_record key cause time rec) t₁)
        (λ failure _.
          on_error-Gives failure (λ e _. uncertain-Gives _ _ _ _ t₁)
            (λ _. result-Gives (release_active st) _ t₁)))

  pub commit_git_stage-Gives :
      (st : TargetState) (rec : Record) → T st rec → Gives S R S (commit_git_stage n st rec)
  unfolding commit_git_stage
  commit_git_stage-Gives st rec t = bind-Gives (ask-Gives n inv _) (λ revision _.
      bind-Gives (ask-Gives n inv _) (λ time _.
        let t₁ = inv.for_stage "latest_switched" "latest_switched" revision time st rec t in
        bind-Gives
          (save-Gives n inv (staged_state revision rec st)
            (succeeded_record "latest_switched" "latest_switched" revision time rec) t₁)
          (λ failure _.
            on_error-Gives failure (λ e _. uncertain-Gives _ _ _ _ t₁)
              (λ _. result-Gives (staged_state revision rec st) _ t₁))))

  warn-Gives :
      (st : TargetState) (rec : Record) (lost : Option Error)
      → T st rec
      → Gives S R S (
          pure (
            result_of (
              on_error lost
                (λ e. add_warning ("cleanup warning not persisted: " <> error_text e) rec)
                rec)))
  unfolding on_error
  warn-Gives st rec none t = result-Gives st rec t
  warn-Gives st rec (some e) t = result-Gives st _ (inv.for_warning _ st rec t)

  pub commit_cleanup-Gives :
      (target : Target) (st : TargetState) (rec : Record)
      → T st rec
      → Gives S R S (commit_cleanup n target st rec)
  unfolding commit_cleanup
  commit_cleanup-Gives target st rec t = bind-Gives (ask-Gives n inv _) (λ failure _.
      on_error-Gives failure
        (λ e _.
          let t₁ = inv.for_warning ("cleanup: " <> error_text e) st rec t in
          bind-Gives (save-Gives n inv st (add_warning ("cleanup: " <> error_text e) rec) t₁)
            (λ lost _. warn-Gives st _ lost t₁))
        (λ _. result-Gives st rec t))

  pub commit-Gives :
      (target : Target) (st : TargetState) (rec : Record)
      → T st rec
      → Gives S R S (commit n target st rec)
  unfolding commit
  commit-Gives target st rec₀ t = bind-Gives (ask-Gives n inv _) (λ at _.
      bind-Gives (ask-Gives n inv _) (λ revision _. bind-Gives (ask-Gives n inv _) (λ time _.
        let t₁ = inv.for_commit "complete" "reload_requested" revision at time st rec₀ t in
        let rec : Record = record rec₀ { candidate = verified at rec₀.candidate } in
        bind-Gives
          (save-Gives n inv (committed_state revision rec st)
            (succeeded_record "complete" "reload_requested" revision time rec) t₁)
          (λ failure _.
            on_error-Gives failure (λ e _. uncertain-Gives _ _ _ _ t₁)
              (λ _. commit_cleanup-Gives target (committed_state revision rec st) _ t₁)))))

  pub verify_baseline-Gives :
      (target : Target) (v : Option Version) → Gives S Any S (verify_baseline n target v)
  unfolding verify_baseline
  verify_baseline-Gives target none = same-Gives n inv _
  verify_baseline-Gives target (some v) = ask-Gives n inv _

  pub restore_local-Gives :
      (target : Target) (rec : Record)
      → KeepsSwitch S target
      → Gives S Any S (restore_local n target rec)
  unfolding restore_local
  restore_local-Gives target rec keep =
      bind-Gives (verify_baseline-Gives target rec.baseline) (λ changed _.
        on_error-Gives changed (λ e _. same-Gives n inv _)
          (λ _. bind-Gives (ask-Gives n inv _) (λ ended _.
            on_error-Gives ended (λ e _. same-Gives n inv _)
              (λ _. bind-Gives (switch-Gives n inv target _ keep) (λ lost _.
                on_error-Gives lost (λ e _. same-Gives n inv _)
                  (λ _. bind-Gives (nginx_test-Gives n inv) (λ test _.
                    on_error-Gives test.1 (λ e _. same-Gives n inv _)
                      (λ _. bind-Gives (nginx_reload-Gives n inv) (λ reload _.
                        on_error-Gives reload.1 (λ e _. same-Gives n inv _)
                          (λ _. verify-Gives n inv target rec.baseline))))))))))

  pub restore-Gives :
      (target : Target) (st : TargetState) (rec : Record) (key cause : String)
      → KeepsSwitch S target
      → T st rec
      → Gives S R S (restore n target st rec key cause)
  unfolding restore
  restore-Gives target st rec key cause keep t = bind-Gives (ask-Gives n inv _) (λ closed _.
      on_error-Gives closed (λ e _. uncertain-Gives st rec _ _ t)
        (λ _. bind-Gives (restore_local-Gives target rec keep) (λ failure _.
          on_error-Gives failure (λ e _. uncertain-Gives st rec _ _ t)
            (λ _.
              bind-Gives (ask-Gives n inv _)
                (λ revision _. fail-Gives _ _ key cause (inv.for_restore revision st rec t))))))
