-- ===== src/Publisher/WriteAhead/Command.antt =====
-- `runNginxCommand` of internal/application/publisher/runner.go switches `latest` back only while the
-- disk holds the release with its intent: the state is read from the disk, and a release without intent
-- is refused.
use config_sync_nginx.Base.{
  error_text, ltb, len, String, not, ◌||◌, ◌==◌, ◌∙◌, ap, ◌≡◌, refl, sym, subst, [], some, Error,
  ok,
}
use config_sync_nginx.Base.Chain.{fail_if-ok, ok_injective}
use config_sync_nginx.Base.Dict.{lookup}
use config_sync_nginx.Release.Types.{NginxCommandRequest, Result}
use config_sync_nginx.Release.Identity.{is_id}
use config_sync_nginx.Release.Validate.{trim_command_request, validate_nginx_command_request}
use config_sync_nginx.Publisher.World.{Node, World, Action, on_fail, ◌>>=◌}
use config_sync_nginx.Publisher.Store.{store_load, store_all, load, index_states}
use config_sync_nginx.Publisher.Targets.{with_node_lock}
use config_sync_nginx.Publisher.Command.{
  Command, command_reject, command_on_record, command_locked, run_nginx_command,
}
use config_sync_nginx.Publisher.Gives.{
  Gives, Any, if-Gives, on_none-Gives, on_error-Gives, on_fail-Gives, bind-Gives, gets-Gives,
  modify-Gives, next-Gives,
}
use config_sync_nginx.Publisher.Invariant.{Invariant}
use config_sync_nginx.Publisher.Laws.Steps.{ask-Gives, same-Gives, block-Gives}
use config_sync_nginx.Publisher.WriteAhead.{AreLogged, calm}
use config_sync_nginx.Publisher.WriteAhead.Read.{store_load-IsRead}
use config_sync_nginx.Publisher.WriteAhead.Intent.{
  adapt-Gives, reject-Gives, command_on_record-AreLogged,
}

pub accepted_as_trimmed :
    (r : NginxCommandRequest) {req : NginxCommandRequest}
    → validate_nginx_command_request r ≡ ok req
    → trim_command_request r ≡ req
unfolding validate_nginx_command_request
accepted_as_trimmed r passed =
    let (id_ok, behind) = fail_if-ok (not (is_id (trim_command_request r).release_id)) _ _ passed in
    let (env_ok, given) =
      fail_if-ok ((trim_command_request r).env == "" || ltb 64 (len (trim_command_request r).env)) _
        _ behind in
    ok_injective given

-- From the request to the record.
module _ (n : Node) (release_id : String) where
  abbrev Logged : World → Type 0
  Logged w = AreLogged release_id w

  abbrev still : Invariant Logged (λ st rec. Unit) Any
  still = calm release_id

  load-Logged : Gives Logged Any Logged (load n)
  unfolding load store_all
  load-Logged =
      bind-Gives {R = Any}
        (bind-Gives (ask-Gives n still _) (λ failure _.
          bind-Gives (gets-Gives {R = Any} _ (λ w s. tt)) (λ files _. same-Gives n still _)))
        (λ states _.
          on_fail-Gives states (λ e _. same-Gives n still _)
            (λ sts _.
              on_fail-Gives (index_states sts [] []) (λ e _. same-Gives n still _)
                (λ next _. next-Gives (modify-Gives _ (λ w s. s)) (same-Gives n still _))))

  store_load-Logged : (id : String) → Gives Logged Any Logged (store_load n id)
  unfolding store_load
  store_load-Logged id =
      if-Gives _ (λ _. same-Gives n still _)
        (λ _. bind-Gives (ask-Gives n still _) (λ failure _.
          bind-Gives (gets-Gives {R = Any} _ (λ w s. tt)) (λ file _. same-Gives n still _)))

  -- The state is read from the disk and used as it is there.
  command_on_file-AreLogged :
      (command : Command) (req : NginxCommandRequest) (id : String)
      → req.release_id ≡ release_id
      → Gives Logged Any Logged (
          store_load n id >>= λ stored.
          on_fail stored
            (λ e. command_reject n req 503 "STATE_UNAVAILABLE" (error_text e))
            (command_on_record n command req id))
  unfolding ◌>>=◌
  command_on_file-AreLogged command req id same = record {
    at = λ w logged.
        (on_fail-Gives {P = λ v. AreLogged release_id v × (v.disk ≡ (store_load n id w).1.disk)}
            {R = Any} {S = Logged} (store_load n id w).0
            {h = λ e. command_reject n req 503 "STATE_UNAVAILABLE" (error_text e)}
            {k = command_on_record n command req id}
            (λ e _. adapt-Gives (λ w₁ s. s.0) (λ w₁ s. s) (reject-Gives n still req 503 _ _))
            (λ st read.
              let (there, is_read) = store_load-IsRead n id w read in
              adapt-Gives (λ w₁ s. (s.0, subst (λ v. lookup id v ≡ some st) (sym s.1) there))
                (λ w₁ s. s)
                (command_on_record-AreLogged n release_id command req id st same is_read))).at
          (store_load n id w).1 (((store_load-Logged id).at w logged).1, refl);
  }

  command_locked-AreLogged :
      (command : Command) (req : NginxCommandRequest)
      → req.release_id ≡ release_id
      → Gives Logged Any Logged (command_locked n command req)
  unfolding command_locked
  command_locked-AreLogged command req same = bind-Gives load-Logged (λ failure _.
      on_error-Gives failure
        (λ e _. next-Gives (block-Gives n still _) (reject-Gives n still req 503 _ _))
        (λ _. bind-Gives (gets-Gives {R = Any} _ (λ w s. tt)) (λ blocked _.
          bind-Gives (gets-Gives {R = Any} _ (λ w s. tt)) (λ stopping _.
            if-Gives _ (λ _. reject-Gives n still req 503 _ _)
              (λ _. bind-Gives (gets-Gives {R = Any} _ (λ w s. tt)) (λ found _.
                on_none-Gives found (λ _. reject-Gives n still req 404 _ _)
                  (λ f _. command_on_file-AreLogged command req f.0 same)))))))

  with_node_lock-Logged :
      {full : Action Result} {refused : Error → Action Result} {body : Action Result}
      → Gives Logged Any Logged full
      → ((e : Error) → Gives Logged Any Logged (refused e))
      → Gives Logged Any Logged body
      → Gives Logged Any Logged (with_node_lock n full refused body)
  unfolding with_node_lock
  with_node_lock-Logged all_taken no_lock inside =
      bind-Gives (gets-Gives {R = Any} _ (λ w s. tt)) (λ taken _.
        if-Gives taken (λ _. all_taken)
          (λ _. next-Gives (modify-Gives _ (λ w s. s)) (
            bind-Gives (ask-Gives n still _) (λ failure _.
              bind-Gives
                (on_error-Gives failure (λ e _. no_lock e)
                  (λ _. next-Gives (modify-Gives _ (λ w s. s)) (
                    bind-Gives inside
                      (λ a _. next-Gives (modify-Gives _ (λ w s. s)) (same-Gives n still a)))))
                (λ answer _. next-Gives (modify-Gives _ (λ w s. s)) (same-Gives n still answer))))))

  run_nginx_command-Logged :
      (command : Command) (req₀ : NginxCommandRequest)
      → (trim_command_request req₀).release_id ≡ release_id
      → Gives Logged Any Logged (run_nginx_command n command req₀)
  unfolding run_nginx_command
  run_nginx_command-Logged command req₀ same =
      on_fail-Gives (validate_nginx_command_request req₀) (λ e _. reject-Gives n still _ 400 _ _)
        (λ req passed.
          let req_same : req.release_id ≡ release_id =
            ap (λ (r : NginxCommandRequest). r.release_id) (sym (accepted_as_trimmed req₀ passed))
            ∙ same in
          if-Gives _ (λ _. reject-Gives n still req 403 _ _)
            (λ _.
              with_node_lock-Logged (reject-Gives n still req 409 _ _)
                (λ e.
                  if-Gives _ (λ _. reject-Gives n still req 409 _ _)
                    (λ _. reject-Gives n still req 503 _ _))
                (command_locked-AreLogged command req req_same)))

-- Every switch of `latest` that a command of nginx makes to take its release back (an abort, or the
-- recovery from a failed test, reload or verification) is made while the disk holds that release with
-- `switch_intent`, whatever the system answers and whatever the disk holds before the command: if the
-- trace had only such switches before, it has only such switches afterwards.
pub run_nginx_command-AreLogged :
    (n : Node) (command : Command) (req : NginxCommandRequest) (w : World)
    → AreLogged (trim_command_request req).release_id w
    → AreLogged (trim_command_request req).release_id (run_nginx_command n command req w).1
run_nginx_command-AreLogged n command req w logged =
    ((run_nginx_command-Logged n (trim_command_request req).release_id command req refl).at w
      logged).1
