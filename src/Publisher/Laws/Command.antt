-- ===== src/Publisher/Laws/Command.antt =====
-- The commands of nginx, and the activation of a release, keep every invariant that a switch keeps.
use config_sync_nginx.Base.{error_text, String, Bool}
use config_sync_nginx.Release.Types.{Result, NginxCommandRequest}
use config_sync_nginx.State.{Target, TargetState, Record}
use config_sync_nginx.Publisher.World.{
  if◌then◌else◌, Node, World, critical_context, ◌>>=◌, on_error,
}
use config_sync_nginx.Publisher.Steps.{step}
use config_sync_nginx.Publisher.Finish.{restore, commit_git_stage}
use config_sync_nginx.Publisher.Command.{
  Command, test, reload, abort, command_reject, replayed_result, run_abort, run_test, run_reload,
  dispatch,
}
use config_sync_nginx.Publisher.Activate.{guarded_switch, activate_nginx}
use config_sync_nginx.Publisher.Gives.{Gives, Any, if-Gives, on_error-Gives, pure-Gives, bind-Gives}
use config_sync_nginx.Publisher.Invariant.{Invariant, KeepsSwitch}
use config_sync_nginx.Publisher.Laws.Steps.{
  ask-Gives, same-Gives, save-Gives, switch-Gives, step-Gives, step_with_output-Gives,
  nginx_test-Gives, nginx_reload-Gives, verify_activation-Gives,
}
use config_sync_nginx.Publisher.Laws.Finish.{
  result-Gives, uncertain-Gives, commit_git_stage-Gives, commit-Gives, restore-Gives,
}

module _ {S : World → Type 0} {T : TargetState → Record → Type 0} {R : Result → Type 0} (n : Node)
    (inv : Invariant S T R) (target : Target) (keep : KeepsSwitch S target) where
  pub activate_nginx-Gives :
      (st : TargetState) (rec : Record) → T st rec → Gives S R S (activate_nginx n target st rec)
  unfolding activate_nginx
  activate_nginx-Gives st rec₀ t =
      bind-Gives (step_with_output-Gives n inv _ st rec₀ _ _ t (nginx_test-Gives n inv)) (λ test t₁.
        on_error-Gives test.1 (λ e _. restore-Gives n inv target st _ _ _ keep t₁)
          (λ _.
            bind-Gives (step_with_output-Gives n inv _ st test.0 _ _ t₁ (nginx_reload-Gives n inv))
              (λ reload t₂.
                on_error-Gives reload.1 (λ e _. restore-Gives n inv target st _ _ _ keep t₂)
                  (λ _.
                    bind-Gives
                      (step-Gives n inv _ st reload.0 _ _ t₂
                        (verify_activation-Gives n inv target _ _))
                      (λ verified t₃.
                        on_error-Gives verified.1
                          (λ e _. restore-Gives n inv target st _ _ _ keep t₃)
                          (λ _. commit-Gives n inv target st _ t₃))))))

  pub guarded_switch-Gives : (link : String) → Gives S Any S (guarded_switch n target link)
  unfolding guarded_switch
  guarded_switch-Gives link = bind-Gives (ask-Gives n inv _) (λ ended _.
      on_error-Gives ended (λ e _. same-Gives n inv _) (λ _. switch-Gives n inv target link keep))

  -- What follows the saved intent.
  pub switch_and_finish-Gives :
      (defer_nginx_commands : Bool) (st : TargetState) (rec : Record) (link : String)
      → T st rec
      → Gives S R S (
          step n critical_context st rec "switch" (guarded_switch n target link) >>= λ switched.
          on_error switched.1
            (λ e. restore n target st switched.0 "ACTIVATION_FAILED" (error_text e))
            (if defer_nginx_commands
              then commit_git_stage n st switched.0
              else activate_nginx n target st switched.0))
  switch_and_finish-Gives defer_nginx_commands st rec link t =
      bind-Gives (step-Gives n inv _ st rec _ _ t (guarded_switch-Gives link)) (λ switched t₁.
        on_error-Gives switched.1 (λ e _. restore-Gives n inv target st _ _ _ keep t₁)
          (λ _.
            if-Gives defer_nginx_commands (λ _. commit_git_stage-Gives n inv st _ t₁)
              (λ _. activate_nginx-Gives st _ t₁)))

  module _
      (rejected : (req : NginxCommandRequest) (key msg : String)
        → Gives S R S (command_reject n req 409 key msg)) where
    pub run_abort-Gives :
        (req : NginxCommandRequest) (st : TargetState) (rec : Record)
        → T st rec
        → Gives S R S (run_abort n req target st rec)
    unfolding run_abort
    run_abort-Gives req st rec t =
        if-Gives _ (λ _. rejected req _ _) (λ _. restore-Gives n inv target st rec _ _ keep t)

    pub run_test-Gives :
        (req : NginxCommandRequest) (st : TargetState) (rec : Record)
        → R (replayed_result rec)
        → T st rec
        → Gives S R S (run_test n req target st rec)
    unfolding run_test
    run_test-Gives req st rec replay t =
        if-Gives _ (λ _. pure-Gives _ replay (λ w s. s))
          (λ _.
            if-Gives _ (λ _. rejected req _ _)
              (λ _.
                bind-Gives (step_with_output-Gives n inv _ st rec _ _ t (nginx_test-Gives n inv))
                  (λ answer t₁.
                    on_error-Gives answer.1 (λ e _. restore-Gives n inv target st _ _ _ keep t₁)
                      (λ _. bind-Gives (ask-Gives n inv _) (λ time _.
                        let t₂ = inv.for_test time st answer.0 t₁ in
                        bind-Gives (save-Gives n inv st _ t₂) (λ failure _.
                          on_error-Gives failure (λ e _. uncertain-Gives n inv st _ _ _ t₂)
                            (λ _. result-Gives n inv st _ t₂)))))))

    pub run_reload-Gives :
        (req : NginxCommandRequest) (st : TargetState) (rec : Record)
        → R (replayed_result rec)
        → T st rec
        → Gives S R S (run_reload n req target st rec)
    unfolding run_reload
    run_reload-Gives req st rec replay t =
        if-Gives _ (λ _. pure-Gives _ replay (λ w s. s))
          (λ _.
            if-Gives _ (λ _. rejected req _ _)
              (λ _.
                bind-Gives (step_with_output-Gives n inv _ st rec _ _ t (nginx_reload-Gives n inv))
                  (λ answer t₁.
                    on_error-Gives answer.1 (λ e _. restore-Gives n inv target st _ _ _ keep t₁)
                      (λ _.
                        bind-Gives
                          (step-Gives n inv _ st answer.0 _ _ t₁
                            (verify_activation-Gives n inv target _ _))
                          (λ verified t₂.
                            on_error-Gives verified.1
                              (λ e _. restore-Gives n inv target st _ _ _ keep t₂)
                              (λ _. commit-Gives n inv target st _ t₂))))))

    pub dispatch-Gives :
        (command : Command) (req : NginxCommandRequest) (st : TargetState) (rec : Record)
        → R (replayed_result rec)
        → T st rec
        → Gives S R S (dispatch n command req target st rec)
    unfolding dispatch
    dispatch-Gives test req st rec replay t = run_test-Gives req st rec replay t
    dispatch-Gives reload req st rec replay t = run_reload-Gives req st rec replay t
    dispatch-Gives abort req st rec replay t = run_abort-Gives req st rec t
