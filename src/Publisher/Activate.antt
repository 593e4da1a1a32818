-- ===== src/Publisher/Activate.antt =====
-- The critical end of `apply` in internal/application/publisher/runner.go: the durable intent, the
-- switch of `latest`, and for a whole release the commands of nginx.
use config_sync_nginx.Base.{String, Bool, true, Option, none, some, Error, error_text}
use config_sync_nginx.Release.Types.{Result}
use config_sync_nginx.State.{Target, TargetState, Record, attach}
use config_sync_nginx.Publisher.World.{
  if◌then◌else◌, Node, Action, critical_context, ◌>>=◌, pure, ask, on_error,
}
use config_sync_nginx.Publisher.Store.{save}
use config_sync_nginx.Publisher.Steps.{
  set_phase, switch, nginx_test, nginx_reload, verify_activation, step, step_with_output,
}
use config_sync_nginx.Publisher.Finish.{uncertain, commit_git_stage, commit, restore}

-- `rec.Intent = true` and the phase `switch_intent`.
unfoldable pub intended : Record → Record
unfolding set_phase
intended rec = set_phase "switch_intent" (record rec { intent = true })

unfoldable pub candidate_link : Record → String
candidate_link rec = elim rec.candidate [ none ↦ "" | some v ↦ v.link ]

module _ (n : Node) where
  -- The function of the step `switch`.
  unfoldable pub guarded_switch : Target → String → Action (Option Error)
  unfolding switch
  guarded_switch t link = do
    ended ← ask (λ k. n.context_error k critical_context)
    on_error ended (λ e. pure (some e)) (switch n t link)

  -- The commands of nginx behind the switch, and the commit.
  unfoldable pub activate_nginx : Target → TargetState → Record → Action Result
  activate_nginx t st rec₀ = do
    test ← step_with_output n critical_context st rec₀ "nginx_test" (nginx_test n)
    let rec₁ = test.0
    on_error test.1 (λ e. restore n t st rec₁ "NGINX_TEST_FAILED" (error_text e))
        do
          reload ← step_with_output n critical_context st rec₁ "reload" (nginx_reload n)
          let rec₂ = reload.0
          on_error reload.1 (λ e. restore n t st rec₂ "NGINX_RELOAD_FAILED" (error_text e))
              do
                verified ←
                    step n critical_context st rec₂ "verify_activation"
                      (verify_activation n t (attach st rec₂) rec₂.candidate)
                let rec₃ = verified.0
                on_error verified.1 (λ e. restore n t st rec₃ "ACTIVATION_FAILED" (error_text e))
                    (commit n t st rec₃)

  -- The intent, the switch, and what follows; the flag defers the commands of nginx.
  unfoldable pub activate : Bool → Target → TargetState → Record → Action Result
  unfolding intended candidate_link guarded_switch activate_nginx
  activate defer_nginx_commands t st rec = do
    let rec₁ = intended rec
    failure ← save n (attach st rec₁)
    on_error failure (λ e. uncertain n st rec₁ "STATE_PERSIST_FAILED" (error_text e))
        do
          switched ←
              step n critical_context st rec₁ "switch" (guarded_switch t (candidate_link rec₁))
          on_error switched.1 (λ e. restore n t st switched.0 "ACTIVATION_FAILED" (error_text e))
              (if defer_nginx_commands
                then commit_git_stage n st switched.0
                else activate_nginx t st switched.0)
