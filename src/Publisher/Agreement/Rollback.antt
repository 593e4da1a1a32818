-- ===== src/Publisher/Agreement/Rollback.antt =====
-- `RollbackCurrent` of internal/application/publisher/runner.go answers as `apply` does.
use config_sync_nginx.Base.{ℕ, String, Bool, true, false, ◌≤◌, arith}
use config_sync_nginx.Release.Types.{RollbackRequest}
use config_sync_nginx.Release.Validate.{validate_rollback_request}
use config_sync_nginx.State.{Target, TargetState}
use config_sync_nginx.Publisher.World.{Node, World}
use config_sync_nginx.Publisher.Apply.{stage}
use config_sync_nginx.Publisher.Rollback.{rollback_reject, rollback_target, rollback_current}
use config_sync_nginx.Publisher.Gives.{
  Gives, if-Gives, on_none-Gives, on_fail-Gives, pure-Gives, bind-Gives,
}
use config_sync_nginx.Publisher.Laws.Steps.{ask-Gives}
use config_sync_nginx.Publisher.Agreement.{IsReported, Sound, sound}
use config_sync_nginx.Publisher.Agreement.Targets.{store_load-Gives}
use config_sync_nginx.Publisher.Agreement.Apply.{resolve-Gives, apply-Gives}

module _ (n : Node) (busy : Bool) where
  abbrev S : World → Type 0
  S = Sound busy false

  rollback_reject-Gives :
      (req : RollbackRequest) (code : ℕ) (key msg : String)
      → 400 ≤ code
      → code ≤ 503
      → Gives S IsReported S (rollback_reject n req code key msg)
  unfolding rollback_reject
  rollback_reject-Gives req code key msg low high =
      let inv = sound busy false in
      bind-Gives (ask-Gives n inv _) (λ fresh _. bind-Gives (ask-Gives n inv _) (λ started _.
        bind-Gives (ask-Gives n inv _) (λ finished _. pure-Gives _ (low, high) (λ w s. s))))

  rollback_target-Gives :
      (req : RollbackRequest) (t : Target) (st : TargetState)
      → Gives S IsReported S (rollback_target n req t st)
  unfolding rollback_target stage
  rollback_target-Gives req t st =
      on_none-Gives _ (λ _. rollback_reject-Gives req 409 _ _ (omega arith) (omega arith))
        (λ current _.
          on_none-Gives _ (λ _. rollback_reject-Gives req 409 _ _ (omega arith) (omega arith))
            (λ previous _.
              on_none-Gives _ (λ _. rollback_reject-Gives req 409 _ _ (omega arith) (omega arith))
                (λ f _. apply-Gives n busy true _)))

  pub rollback_current-Gives :
      (req : RollbackRequest) → Gives S IsReported S (rollback_current n req)
  unfolding rollback_current
  rollback_current-Gives req₀ =
      on_fail-Gives (validate_rollback_request req₀)
        (λ e _. rollback_reject-Gives _ 400 _ _ (omega arith) (omega arith))
        (λ req _.
          if-Gives _ (λ _. rollback_reject-Gives req 403 _ _ (omega arith) (omega arith))
            (λ _. bind-Gives (resolve-Gives n busy _ _ _ _ _) (λ answer _.
              on_fail-Gives answer
                (λ e _.
                  if-Gives _ (λ _. rollback_reject-Gives req 409 _ _ (omega arith) (omega arith))
                    (λ _. rollback_reject-Gives req 403 _ _ (omega arith) (omega arith)))
                (λ t _. bind-Gives (store_load-Gives n busy false t.id) (λ stored h.
                  on_fail-Gives stored
                    (λ e _. rollback_reject-Gives req 503 _ _ (omega arith) (omega arith))
                    (λ st e. rollback_target-Gives req t st))))))

-- `RollbackCurrent`, whatever the system answers: when every stored record agrees with its HTTP
-- status and the lock of the node is free, the HTTP status of the result agrees with its status,
-- every stored record agrees afterwards, and the lock and the channel `busy` are as before.
pub rollback_current-IsReported :
    (n : Node) (req : RollbackRequest) (w : World)
    → Sound w.busy false w
    → IsReported (rollback_current n req w).0 × Sound w.busy false (rollback_current n req w).1
rollback_current-IsReported n req w s = (rollback_current-Gives n w.busy req).at w s
