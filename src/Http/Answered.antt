-- ===== src/Http/Answered.antt =====
-- The server of internal/interfaces/httpapi/server.go over the runner of
-- internal/application/publisher/runner.go: what a client reads, and what is stored.
use config_sync_nginx.Base.{
  ℕ, String, Bool, true, false, ◌≡◌, ◌≢◌, subst, sym, ◌⊎◌, inl, inr, arith,
}
use config_sync_nginx.Release.Types.{
  NodeStatus, running, succeeded, skipped, failed, recovery_required,
}
use config_sync_nginx.State.{Target, TargetState}
use config_sync_nginx.Publisher.World.{Node, World}
use config_sync_nginx.Publisher.Gives.{
  Gives, Any, bind-Gives, gets-Gives, pure-Gives, on_error-Gives, on_none-Gives, on_fail-Gives,
}
use config_sync_nginx.Publisher.Laws.Steps.{ask-Gives, read_link-Gives}
use config_sync_nginx.Publisher.Agreement.{Reports, Sound, sound}
use config_sync_nginx.Publisher.Agreement.Targets.{find_target-Gives, store_load-Gives}
use config_sync_nginx.Publisher.Agreement.Apply.{apply-Gives, resolve-Gives}
use config_sync_nginx.Publisher.Agreement.Rollback.{rollback_current-Gives}
use config_sync_nginx.Publisher.Agreement.Command.{IsAnswered, run_nginx_command-Gives}
use config_sync_nginx.Publisher.Apply.{stage}
use config_sync_nginx.Publisher.Command.{test, reload, abort}
use config_sync_nginx.Http.Access.{Net, Request}
use config_sync_nginx.Http.Types.{
  Payload, release_payload, error_payload, state_payload, health_payload, metrics_payload,
  mux_payload, Library, ServerConfig,
}
use config_sync_nginx.Http.Server.{serve}
use config_sync_nginx.Http.Runner.{health, state, state_of_target, runner}
use config_sync_nginx.Http.Keeps.{Keeps, HasCode, OnRelease, serve-Good}

module _ (n : Node) (busy locked : Bool) where
  abbrev S : World → Type 0
  S = Sound busy locked

  state_of_target-Gives :
      (t : Target) (id release_id : String) (st : TargetState)
      → Gives S Any S (state_of_target n t id release_id st)
  unfolding state_of_target
  state_of_target-Gives t id release_id st =
      bind-Gives (gets-Gives {R = Any} _ (λ w s. tt)) (λ local _.
        bind-Gives (ask-Gives n (sound busy locked) _) (λ closed _.
          on_error-Gives closed (λ e _. pure-Gives _ tt (λ w s. s))
            (λ _.
              bind-Gives {R = Any} (read_link-Gives n (sound busy locked) t)
                (λ link _. pure-Gives _ tt (λ w s. s)))))

  state-Gives : (id release_id : String) → Gives S Any S (state n id release_id)
  unfolding state
  state-Gives id release_id = bind-Gives (find_target-Gives n busy locked id) (λ found _.
      on_none-Gives found (λ _. pure-Gives _ tt (λ w s. s))
        (λ t _. bind-Gives (store_load-Gives n busy locked id) (λ stored _.
          on_fail-Gives stored (λ e _. pure-Gives _ tt (λ w s. s))
            (λ st _. state_of_target-Gives t id release_id st))))

-- The operations of the runner keep the stored records in agreement and give the lock back.
pub runner-Keeps : (n : Node) (busy : Bool) → Keeps (Sound busy false) IsAnswered (runner n)
unfolding runner stage health
runner-Keeps n busy = record {
  stage = λ req w s. let done = (apply-Gives n busy true req).at w s in (inr done.0, done.1);
  rollback_current =
      λ req w s. let done = (rollback_current-Gives n busy req).at w s in (inr done.0, done.1);
  nginx_test = λ req w s. (run_nginx_command-Gives n busy test req).at w s;
  nginx_reload = λ req w s. (run_nginx_command-Gives n busy reload req).at w s;
  abort = λ req w s. (run_nginx_command-Gives n busy abort req).at w s;
  health = λ w s. s;
  find_target = λ id w s. ((find_target-Gives n busy false id).at w s).1;
  resolve = λ type site root project env w s.
      ((resolve-Gives n busy type site root project env).at w s).1;
  state = λ id release_id w s. ((state-Gives n busy false id release_id).at w s).1;
}

-- A code that a release sends is the one that its status calls for, or the release is answered as it was
-- by an earlier call: then the code is the HTTP status of the result.
abbrev pub IsSent : ℕ → Payload → Type 0
IsSent code (release_payload result) =
    ((result.replayed ≡ true) × HasCode result code) ⊎ Reports result.status code
IsSent code (error_payload key message) = Unit
IsSent code (state_payload report) = Unit
IsSent code (health_payload report) = Unit
IsSent code metrics_payload = Unit
IsSent code mux_payload = Unit

Reports-unset : (s : NodeStatus) (code : ℕ) → Reports s code → code ≢ 0
Reports-unset running code h = omega arith
Reports-unset succeeded code h = omega arith
Reports-unset skipped code h = omega arith
Reports-unset failed code h = omega arith
Reports-unset recovery_required code h = omega arith

OnRelease-IsSent :
    (code : ℕ) (payload : Payload) → OnRelease IsAnswered code payload → IsSent code payload
OnRelease-IsSent code (release_payload result) (inl replay, sent) = inl (replay, sent)
OnRelease-IsSent code (release_payload result) (inr h, sent) =
    let same = sent.1 (Reports-unset result.status result.http_status h) in
    inr (subst (Reports result.status) (sym same) h)
OnRelease-IsSent code (error_payload key message) h = tt
OnRelease-IsSent code (state_payload report) h = tt
OnRelease-IsSent code (health_payload report) h = tt
OnRelease-IsSent code metrics_payload h = tt
OnRelease-IsSent code mux_payload h = tt

-- Whatever the system answers: when every stored record agrees with its HTTP status and the lock of
-- the node is free, then the code that the server sends with a result of a release agrees with the status
-- of that (200 exactly for a success and for a skipped release, 409 for a running one, 503 for one that
-- needs recovery, 400 to 503 for a failed one), or the result is that of an earlier call and the code is
-- its HTTP status, or 500 where that is not set; and every stored record agrees behind
-- any request, and the lock and the channel `busy` are as before.
pub serve-IsAnswered :
    {Ip Network : Type 0} (net : Net Ip Network) (lib : Library) (cfg : ServerConfig Network)
    (n : Node) (in_flight : ℕ) (r : Request) (w : World)
    → Sound w.busy false w
    → let (response, w₁) = serve net lib (runner n) cfg in_flight r w in
      IsSent response.code response.payload × Sound w.busy false w₁
serve-IsAnswered net lib cfg n in_flight r w s =
    let good =
      serve-Good net lib (runner n) cfg (Sound w.busy false) IsAnswered (runner-Keeps n w.busy)
        in_flight r w s in
    (OnRelease-IsSent _ _ good.0, good.1)
