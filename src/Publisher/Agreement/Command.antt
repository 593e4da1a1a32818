-- ===== src/Publisher/Agreement/Command.antt =====
-- The commands of nginx, `runNginxCommand` of internal/application/publisher/runner.go: what they
-- answer, and what they leave behind.
use config_sync_nginx.Base.{
  ℕ, String, Bool, true, false, ◌≡◌, refl, ◌≤◌, Fallible, arith, inl, inr, ◌⊎◌,
}
use config_sync_nginx.Base.Dict.{AllValues-lookup}
use config_sync_nginx.Release.Types.{NginxCommandRequest, Result}
use config_sync_nginx.Release.Validate.{validate_nginx_command_request}
use config_sync_nginx.State.{Target, TargetState, Record, Version}
use config_sync_nginx.Publisher.World.{Node, World}
use config_sync_nginx.Publisher.Command.{
  Command, command_reject, replayed_result, command_on_link, command_on_target, command_on_record,
  command_locked, run_nginx_command,
}
use config_sync_nginx.Publisher.Gives.{
  Gives, Any, if-Gives, on_none-Gives, on_error-Gives, on_fail-Gives, pure-Gives, bind-Gives,
  gets-Gives, next-Gives,
}
use config_sync_nginx.Publisher.Invariant.{Invariant, weaken}
use config_sync_nginx.Publisher.Laws.Steps.{ask-Gives, block-Gives, read_link-Gives}
use config_sync_nginx.Publisher.Laws.Finish.{uncertain-Gives}
use config_sync_nginx.Publisher.Laws.Command.{dispatch-Gives}
use config_sync_nginx.Publisher.Agreement.{
  IsAgreeing, IsReported, IsSound, Sound, IsSoundTx, sound, switch-Sound,
}
use config_sync_nginx.Publisher.Agreement.Targets.{find_target-Gives, store_load-Gives, load-Gives}
use config_sync_nginx.Publisher.Agreement.Apply.{with_node_lock-Gives}

-- The answer to a command is that to an earlier one, or its HTTP status agrees with its status.
abbrev pub IsAnswered : Result → Type 0
IsAnswered r = (r.replayed ≡ true) ⊎ IsReported r

module _ (n : Node) (busy locked : Bool) where
  abbrev S : World → Type 0
  S = Sound busy locked

  abbrev inv : Invariant (Sound busy locked) (IsSoundTx busy locked) IsAnswered
  inv = weaken (λ r h. inr h) (sound busy locked)

  command_reject-Gives :
      (req : NginxCommandRequest) (code : ℕ) (key msg : String)
      → 400 ≤ code
      → code ≤ 503
      → Gives S IsAnswered S (command_reject n req code key msg)
  unfolding command_reject
  command_reject-Gives req code key msg low high = bind-Gives (ask-Gives n inv _) (λ started _.
      bind-Gives (ask-Gives n inv _) (λ finished _. pure-Gives _ (inr (low, high)) (λ w s. s)))

  command_on_link-Gives :
      (command : Command) (req : NginxCommandRequest) (t : Target) (st : TargetState) (rec : Record)
      (candidate : Version) (raw : Fallible String)
      → IsSoundTx busy locked st rec
      → Gives S IsAnswered S (command_on_link n command req t st rec candidate raw)
  unfolding command_on_link replayed_result
  command_on_link-Gives command req t st rec candidate raw h =
      let refused =
        λ (key msg : String). command_reject-Gives req 409 key msg (omega arith) (omega arith) in
      on_fail-Gives raw (λ e _. refused _ _)
        (λ link _.
          if-Gives _ (λ _. refused _ _)
            (λ _.
              dispatch-Gives n inv t (switch-Sound busy locked t)
                (λ r key msg. command_reject-Gives r 409 key msg (omega arith) (omega arith))
                command req st rec (inl refl) h))

  command_on_target-Gives :
      (command : Command) (req : NginxCommandRequest) (t : Target) (st : TargetState) (rec : Record)
      (candidate : Version)
      → IsSound st
      → IsAgreeing rec
      → Gives S IsAnswered S (command_on_target n command req t st rec candidate)
  unfolding command_on_target
  command_on_target-Gives command req t st rec candidate h agrees =
      bind-Gives (ask-Gives n inv _) (λ closed _.
        on_error-Gives closed (λ e _. uncertain-Gives n inv st rec _ _ (h, agrees))
          (λ _.
            if-Gives _ (λ _. command_reject-Gives req 409 _ _ (omega arith) (omega arith))
              (λ _.
                bind-Gives (read_link-Gives n inv t)
                  (λ raw _. command_on_link-Gives command req t st rec candidate raw (h, agrees)))))

  command_on_record-Gives :
      (command : Command) (req : NginxCommandRequest) (target_id : String) (st : TargetState)
      → IsSound st
      → Gives S IsAnswered S (command_on_record n command req target_id st)
  unfolding command_on_record
  command_on_record-Gives command req target_id st h =
      on_none-Gives _ (λ _. command_reject-Gives req 409 _ _ (omega arith) (omega arith))
        (λ rec e.
          on_none-Gives _ (λ _. command_reject-Gives req 409 _ _ (omega arith) (omega arith))
            (λ candidate _.
              if-Gives _ (λ _. command_reject-Gives req 409 _ _ (omega arith) (omega arith))
                (λ _.
                  if-Gives _ (λ _. command_reject-Gives req 403 _ _ (omega arith) (omega arith))
                    (λ _. bind-Gives (find_target-Gives n busy locked target_id) (λ target _.
                      on_none-Gives target
                        (λ _. command_reject-Gives req 403 _ _ (omega arith) (omega arith))
                        (λ t _.
                          command_on_target-Gives command req t st rec candidate h
                            (AllValues-lookup IsAgreeing req.release_id st.records h e)))))))

  command_locked-Gives :
      (command : Command) (req : NginxCommandRequest)
      → Gives S IsAnswered S (command_locked n command req)
  unfolding command_locked
  command_locked-Gives command req = bind-Gives (load-Gives n busy locked) (λ failure _.
      on_error-Gives failure
        (λ e _.
          next-Gives (block-Gives n inv _)
            (command_reject-Gives req 503 _ _ (omega arith) (omega arith)))
        (λ _. bind-Gives (gets-Gives {R = Any} _ (λ w s. tt)) (λ blocked _.
          bind-Gives (gets-Gives {R = Any} _ (λ w s. tt)) (λ stopping _.
            if-Gives _ (λ _. command_reject-Gives req 503 _ _ (omega arith) (omega arith))
              (λ _. bind-Gives (gets-Gives {R = Any} _ (λ w s. tt)) (λ found _.
                on_none-Gives found
                  (λ _. command_reject-Gives req 404 _ _ (omega arith) (omega arith))
                  (λ f _. bind-Gives (store_load-Gives n busy locked f.0) (λ stored h.
                    on_fail-Gives stored
                      (λ e _. command_reject-Gives req 503 _ _ (omega arith) (omega arith))
                      (λ st e. command_on_record-Gives command req f.0 st (rw e at h))))))))))

module _ (n : Node) (busy : Bool) where
  pub run_nginx_command-Gives :
      (command : Command) (req : NginxCommandRequest)
      → Gives (Sound busy false) IsAnswered (Sound busy false) (run_nginx_command n command req)
  unfolding run_nginx_command
  run_nginx_command-Gives command req₀ =
      on_fail-Gives (validate_nginx_command_request req₀)
        (λ e _. command_reject-Gives n busy false _ 400 _ _ (omega arith) (omega arith))
        (λ req _.
          if-Gives _
            (λ _. command_reject-Gives n busy false req 403 _ _ (omega arith) (omega arith))
            (λ _.
              with_node_lock-Gives n busy
                (command_reject-Gives n busy false req 409 _ _ (omega arith) (omega arith))
                (λ e.
                  if-Gives _
                    (λ _. command_reject-Gives n true false req 409 _ _ (omega arith) (omega arith))
                    (λ _.
                      command_reject-Gives n true false req 503 _ _ (omega arith) (omega arith)))
                (command_locked-Gives n true true command req)))

-- `runNginxCommand`, whatever the system answers: when every stored record agrees with its HTTP
-- status and the lock of the node is free, the answer is that to an earlier call, or its HTTP status
-- agrees with its status; every stored record agrees afterwards, and the lock and the channel `busy`
-- are as before.
pub run_nginx_command-IsAnswered :
    (n : Node) (command : Command) (req : NginxCommandRequest) (w : World)
    → Sound w.busy false w
    → IsAnswered (run_nginx_command n command req w).0
      × Sound w.busy false (run_nginx_command n command req w).1
run_nginx_command-IsAnswered n command req w s =
    (run_nginx_command-Gives n w.busy command req).at w s
