-- ===== src/Publisher/Exclusive.antt =====
-- Who does not get the channel `busy` of internal/application/publisher/runner.go changes nothing:
-- the answers of the system are counted, and that is all.
use config_sync_nginx.Base.{ℕ, suc, String, Bool, true, ◌≡◌, refl, ap, ◌≤◌, arith, ◌∙◌, Error}
use config_sync_nginx.Release.Types.{ReleaseType, ApplyRequest, NginxCommandRequest, Result}
use config_sync_nginx.Release.Validate.{validate_nginx_command_request}
use config_sync_nginx.Publisher.World.{Node, World, Action, pure, ask, gets}
use config_sync_nginx.Publisher.Targets.{
  reject, replay, duplicate, configured_target, find_target, with_node_lock, resolve,
}
use config_sync_nginx.Publisher.Command.{Command, command_reject, run_nginx_command}
use config_sync_nginx.Publisher.Apply.{is_data_dir, apply_resolved, apply_valid, apply}
use config_sync_nginx.Publisher.Gives.{
  Gives, Any, if-Gives, on_none-Gives, on_fail-Gives, pure-Gives, bind-Gives, gets-Gives,
}

-- Nothing but the count of calls differs.
abbrev pub IsQuiet : World → World → Type 0
IsQuiet w v = v ≡ record w { calls = v.calls }

module _ (n : Node) (w : World) where
  abbrev Q : World → Type 0
  Q = IsQuiet w

  quiet_ask-Gives {ℓ} : {A : Type ℓ} (f : ℕ → A) → Gives Q Any Q (ask f)
  unfolding ask
  quiet_ask-Gives f = record {
    at = λ v q. (tt, ap (λ (x : World). record x { calls = suc v.calls }) q);
  }

  quiet_gets-Gives {ℓ} : {A : Type ℓ} (f : World → A) → Gives Q Any Q (gets f)
  quiet_gets-Gives f = gets-Gives f (λ v q. tt)

  quiet_pure-Gives {ℓ} : {A : Type ℓ} (a : A) → Gives Q Any Q (pure a)
  quiet_pure-Gives a = pure-Gives a tt (λ v q. q)

  pub quiet_command_reject-Gives :
      (R : Result → Type 0) (req : NginxCommandRequest) (code : ℕ) (key msg : String)
      → ((r : Result) → r.http_status ≡ code → R r)
      → Gives Q R Q (command_reject n req code key msg)
  unfolding command_reject
  quiet_command_reject-Gives R req code key msg claim = bind-Gives (quiet_ask-Gives _) (λ started _.
      bind-Gives (quiet_ask-Gives _) (λ finished _. pure-Gives _ (claim _ refl) (λ v q. q)))

  reject-Gives :
      (req : ApplyRequest) (code : ℕ) (key msg : String) → Gives Q Any Q (reject n req code key msg)
  unfolding reject
  reject-Gives req code key msg = bind-Gives (quiet_ask-Gives _) (λ time _. quiet_pure-Gives _)

  duplicate-Gives :
      (req : ApplyRequest) (fingerprint : String) → Gives Q Any Q (duplicate n req fingerprint)
  unfolding duplicate replay
  duplicate-Gives req fingerprint = bind-Gives (quiet_gets-Gives _) (λ found _.
      on_none-Gives found (λ _. quiet_pure-Gives _)
        (λ f _.
          if-Gives _ (λ _. bind-Gives (reject-Gives req _ _ _) (λ r _. quiet_pure-Gives _))
            (λ _.
              if-Gives _ (λ _. quiet_pure-Gives _)
                (λ _. if-Gives _ (λ _. quiet_pure-Gives _) (λ _. quiet_pure-Gives _)))))

  find_target-Gives : (id : String) → Gives Q Any Q (find_target n id)
  unfolding find_target configured_target
  find_target-Gives id = bind-Gives (quiet_gets-Gives _) (λ view _.
      on_none-Gives view (λ _. quiet_pure-Gives _)
        (λ st _. bind-Gives (quiet_ask-Gives _) (λ answer _. quiet_pure-Gives _)))

  module _ (taken : w.busy ≡ true) where
    -- The lock around an action that must not run.
    refused-Gives {ℓ} :
        {A : Type ℓ} {R : A → Type 0} (full : Action A) (refused : Error → Action A)
        (body : Action A)
        → Gives Q R Q full
        → Gives Q R Q (with_node_lock n full refused body)
    unfolding with_node_lock
    refused-Gives full refused body rule =
        bind-Gives (gets-Gives {R = λ b. b ≡ true} _ (λ v q. ap (λ (x : World). x.busy) q ∙ taken))
          (λ b e. if-Gives b (λ _. rule) (λ free. absurd (cc)))

    resolve-Gives :
        (typ : ReleaseType) (site root project env : String)
        → Gives Q Any Q (resolve n typ site root project env)
    unfolding resolve
    resolve-Gives typ site root project env = bind-Gives (quiet_ask-Gives _) (λ answer _.
        on_fail-Gives answer (λ e _. quiet_pure-Gives _)
          (λ t _. bind-Gives (find_target-Gives t.id) (λ existing _.
            on_none-Gives existing (λ _. refused-Gives _ _ _ (quiet_pure-Gives _))
              (λ t₁ _. quiet_pure-Gives _))))

    apply_valid-Gives :
        (defer_nginx_commands : Bool) (req : ApplyRequest)
        → Gives Q Any Q (apply_valid n defer_nginx_commands req)
    unfolding apply_valid apply_resolved
    apply_valid-Gives defer_nginx_commands req = bind-Gives (resolve-Gives _ _ _ _ _) (λ answer _.
        on_fail-Gives answer
          (λ e _. if-Gives _ (λ _. reject-Gives _ _ _ _) (λ _. reject-Gives _ _ _ _))
          (λ t _. bind-Gives (duplicate-Gives _ _) (λ known _.
            on_none-Gives known (λ _. refused-Gives _ _ _ (reject-Gives _ _ _ _))
              (λ r _. quiet_pure-Gives r))))

    apply-Gives :
        (defer_nginx_commands : Bool) (req : ApplyRequest)
        → Gives Q Any Q (apply n defer_nginx_commands req)
    unfolding apply is_data_dir
    apply-Gives defer_nginx_commands req₀ = bind-Gives (quiet_ask-Gives _) (λ fresh _.
        on_fail-Gives _ (λ e _. reject-Gives _ _ _ _)
          (λ req₁ _.
            on_fail-Gives _ (λ e _. reject-Gives _ _ _ _)
              (λ req _.
                if-Gives _ (λ _. reject-Gives _ _ _ _)
                  (λ _.
                    if-Gives _ (λ _. apply_valid-Gives _ _)
                      (λ _.
                        bind-Gives {R = Any}
                          (bind-Gives (quiet_ask-Gives _) (λ answer _. quiet_pure-Gives _))
                          (λ same _.
                            if-Gives _ (λ _. reject-Gives _ _ _ _)
                              (λ _. apply_valid-Gives _ _)))))))

    run_nginx_command-Gives :
        (command : Command) (req : NginxCommandRequest)
        → Gives Q (λ r. 400 ≤ r.http_status) Q (run_nginx_command n command req)
    unfolding run_nginx_command
    run_nginx_command-Gives command req₀ =
        on_fail-Gives (validate_nginx_command_request req₀)
          (λ e _.
            quiet_command_reject-Gives (λ r. 400 ≤ r.http_status) _ 400 _ _ (λ r e. omega arith))
          (λ req _.
            if-Gives _
              (λ _.
                quiet_command_reject-Gives (λ r. 400 ≤ r.http_status) req 403 _ _
                  (λ r e. omega arith))
              (λ _. refused-Gives _ _ _ (
                quiet_command_reject-Gives (λ r. 400 ≤ r.http_status) req 409 _ _
                  (λ r e. omega arith))))

-- While a transaction holds the channel `busy`, an application, a staging or an nginx command that
-- another caller asks for changes nothing, neither state files nor views nor links, and makes no
-- write, switch, test or reload; the answer to the command is an error.
pub busy-IsQuiet :
    (n : Node) (w : World) (defer_nginx_commands : Bool) (req : ApplyRequest) (command : Command)
    (command_req : NginxCommandRequest)
    → w.busy ≡ true
    → IsQuiet w (apply n defer_nginx_commands req w).1
      × IsQuiet w (run_nginx_command n command command_req w).1
      × (400 ≤ (run_nginx_command n command command_req w).0.http_status)
busy-IsQuiet n w defer_nginx_commands req command command_req taken =
    let answered = (run_nginx_command-Gives n w taken command command_req).at w refl in
    (((apply-Gives n w taken defer_nginx_commands req).at w refl).1, answered.1, answered.0)
