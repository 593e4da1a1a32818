-- ===== src/Publisher/Allowed/Run.antt =====
-- `runNginxCommand` of internal/application/publisher/runner.go acts only on a release that allows it.
use config_sync_nginx.Base.{
  ℕ, String, Bool, true, false, not, ◌||◌, ◌==◌, ◌∙◌, ◌≡◌, refl, sym, subst, ◌⊎◌, inl, inr, Option,
  none, some, Error, error_text, Fallible, arith, eq_iff,
}
use config_sync_nginx.Base.Dict.{lookup}
use config_sync_nginx.Release.Types.{NginxCommandRequest, Result}
use config_sync_nginx.Release.Validate.{trim_command_request, validate_nginx_command_request}
use config_sync_nginx.State.{Target, TargetState, Record, Version}
use config_sync_nginx.Publisher.World.{Node, World, Action, on_fail, ◌>>=◌}
use config_sync_nginx.Publisher.Store.{block, store_load}
use config_sync_nginx.Publisher.Targets.{with_node_lock, stored_env}
use config_sync_nginx.Publisher.Command.{
  Command, test, reload, abort, is_current, can_reload, command_reject, run_reload, dispatch,
  command_on_link, command_on_target, command_on_record, command_locked, run_nginx_command,
}
use config_sync_nginx.Publisher.Gives.{
  Gives, Any, if-Gives, on_none-Gives, on_error-Gives, on_fail-Gives, pure-Gives, bind-Gives,
  modify-Gives, next-Gives, change-Gives, then-Gives,
}
use config_sync_nginx.Publisher.WriteAhead.Read.{store_load-IsRead}
use config_sync_nginx.Publisher.WriteAhead.Command.{accepted_as_trimmed}
use config_sync_nginx.Publisher.WriteAhead.Intent.{adapt-Gives}
use config_sync_nginx.Publisher.Allowed.{
  IsIdle, IsTested, IsAllowed, ask_any-Gives, gets_any-Gives, pure_any-Gives, uncertain-Idle, Kept,
  load-Kept, store_load-Kept, find_target-Kept, read_link-Kept,
}

current_of :
    (current : Option Version) (candidate : Version)
    → not (is_current current candidate) ≡ false
    → (v : Version) × (current ≡ some v)
      × (v.commit_id ≡ candidate.commit_id)
      × (v.source ≡ candidate.source)
unfolding is_current
current_of none candidate h = absurd (cc)
current_of (some v) candidate h = (
  v,
  refl,
  ground (arith, eq_iff v.commit_id candidate.commit_id),
  ground (arith, eq_iff v.source candidate.source),
)

env_of : (a : Bool) (x y : String) → (not a || not (x == y)) ≡ false → x ≡ y
env_of true x y h = ground (arith, eq_iff x y)
env_of false x y h = absurd (cc)

of_not : (b : Bool) → not b ≡ false → b ≡ true
of_not true e = refl
of_not false e = absurd (cc)

tested_of : (rec : Record) → not (can_reload rec) ≡ false → rec.nginx_tested ≡ true
unfolding can_reload
tested_of rec h = ground arith

module _ (n : Node) (w₀ : World) (command : Command) (req : NginxCommandRequest) where
  abbrev K : World → Type 0
  K = Kept n w₀

  -- Nothing was done, or it was allowed.
  abbrev Post : World → Type 0
  Post w = IsIdle w₀ w ⊎ IsAllowed command req w₀

  reject-Post :
      (r : NginxCommandRequest) (code : ℕ) (key msg : String)
      → Gives K Any Post (command_reject n r code key msg)
  unfolding command_reject
  reject-Post r code key msg = bind-Gives (ask_any-Gives _ (λ w s. s)) (λ started _.
      bind-Gives (ask_any-Gives _ (λ w s. s)) (λ finished _. pure-Gives _ tt (λ w s. inl s.1)))

  allowed-Post : (m : Action Result) → IsAllowed command req w₀ → Gives K Any Post m
  allowed-Post m allowed = record { at = λ w s. (tt, inr allowed) }

dispatch-Post :
    (n : Node) (w₀ : World) (command : Command) (req : NginxCommandRequest) (t : Target)
    (st : TargetState) (rec : Record)
    → (IsTested command rec → IsAllowed command req w₀)
    → Gives (Kept n w₀) Any (Post n w₀ command req) (dispatch n command req t st rec)
unfolding dispatch run_reload
dispatch-Post n w₀ test req t st rec allow = allowed-Post n w₀ test req _ (allow tt)
dispatch-Post n w₀ abort req t st rec allow = allowed-Post n w₀ abort req _ (allow tt)
dispatch-Post n w₀ reload req t st rec allow =
    if-Gives _ (λ _. pure-Gives _ tt (λ w s. inl s.1))
      (λ _.
        if-Gives _ (λ _. reject-Post n w₀ reload req req _ _ _)
          (λ open_phase. allowed-Post n w₀ reload req _ (allow (tested_of rec open_phase))))

module _ (n : Node) (w₀ : World) (command : Command) (req : NginxCommandRequest) where
  abbrev Before : World → Type 0
  Before = Kept n w₀

  abbrev Done : World → Type 0
  Done = Post n w₀ command req

  command_on_link-Post :
      (t : Target) (st : TargetState) (rec : Record) (candidate : Version) (raw : Fallible String)
      → (IsTested command rec → IsAllowed command req w₀)
      → Gives Before Any Done (command_on_link n command req t st rec candidate raw)
  unfolding command_on_link
  command_on_link-Post t st rec candidate raw allow =
      on_fail-Gives raw (λ e _. reject-Post n w₀ command req req _ _ _)
        (λ link _.
          if-Gives _ (λ _. reject-Post n w₀ command req req _ _ _)
            (λ _. dispatch-Post n w₀ command req t st rec allow))

  command_on_target-Post :
      (t : Target) (st : TargetState) (rec : Record) (candidate : Version)
      → ((current : Version)
          → st.current ≡ some current
          → current.commit_id ≡ candidate.commit_id
          → current.source ≡ candidate.source
          → IsTested command rec
          → IsAllowed command req w₀)
      → Gives Before Any Done (command_on_target n command req t st rec candidate)
  unfolding command_on_target
  command_on_target-Post t st rec candidate allow =
      bind-Gives (ask_any-Gives _ (λ w s. s)) (λ closed _.
        on_error-Gives closed
          (λ e _. adapt-Gives (λ w s. s.1) (λ w s. inl s) (uncertain-Idle n w₀ st rec _ _))
          (λ _.
            if-Gives _ (λ _. reject-Post n w₀ command req req _ _ _)
              (λ is_here.
                let (current, there, same, source) = current_of st.current candidate is_here in
                bind-Gives (read_link-Kept n w₀ t) (λ raw _.
                  command_on_link-Post t st rec candidate raw (allow current there same source)))))

  command_on_record-Post :
      (id : String) (st : TargetState)
      → lookup id w₀.disk ≡ some st
      → Gives Before Any Done (command_on_record n command req id st)
  unfolding command_on_record
  command_on_record-Post id st there =
      on_none-Gives _ (λ _. reject-Post n w₀ command req req 409 _ _)
        (λ rec found.
          on_none-Gives _ (λ _. reject-Post n w₀ command req req 409 _ _)
            (λ candidate has.
              if-Gives _ (λ _. reject-Post n w₀ command req req 409 _ _)
                (λ intended.
                  if-Gives _ (λ _. reject-Post n w₀ command req req 403 _ _)
                    (λ matching. bind-Gives (find_target-Kept n w₀ id) (λ target _.
                      on_none-Gives target (λ _. reject-Post n w₀ command req req 403 _ _)
                        (λ t _.
                          command_on_target-Post t st rec candidate
                            (λ current is_there same same_source is_tested. (
                              id,
                              st,
                              rec,
                              candidate,
                              current,
                              there,
                              found,
                              of_not rec.intent intended,
                              env_of (stored_env n.config st == req.env) rec.request.env req.env
                                  matching,
                              has,
                              is_there,
                              same,
                              same_source,
                              is_tested,
                            ))))))))

  command_on_file-Post :
      (id : String)
      → Gives Before Any Done (
          store_load n id >>= λ stored.
          on_fail stored
            (λ e. command_reject n req 503 "STATE_UNAVAILABLE" (error_text e))
            (command_on_record n command req id))
  unfolding ◌>>=◌
  command_on_file-Post id = record {
    at = λ w s.
        let s₁ = ((store_load-Kept n w₀ id).at w s).1 in
        (on_fail-Gives {P = Before} {R = Any} {S = Done} (store_load n id w).0
            {h = λ e. command_reject n req 503 "STATE_UNAVAILABLE" (error_text e)}
            {k = command_on_record n command req id}
            (λ e _. reject-Post n w₀ command req req 503 _ _)
            (λ st read.
              command_on_record-Post id st
                (subst (λ d. lookup id d ≡ some st) s₁.0 (store_load-IsRead n id w read).0))).at
          (store_load n id w).1 s₁;
  }

  command_locked-Post : Gives Before Any Done (command_locked n command req)
  unfolding command_locked block
  command_locked-Post = bind-Gives (load-Kept n w₀) (λ failure _.
      on_error-Gives failure
        (λ e _.
          then-Gives {S = Before} (change-Gives _ (λ w s. s))
            (reject-Post n w₀ command req req 503 _ _))
        (λ _. bind-Gives (gets_any-Gives _) (λ blocked _.
          bind-Gives (gets_any-Gives _) (λ stopping _.
            if-Gives _ (λ _. reject-Post n w₀ command req req 503 _ _)
              (λ _. bind-Gives (gets_any-Gives _) (λ found _.
                on_none-Gives found (λ _. reject-Post n w₀ command req req 404 _ _)
                  (λ f _. command_on_file-Post f.0)))))))

  -- What follows only changes `busy` and the lock.
  keep-Post :
      (f : World → World)
      → ((w : World) → IsIdle w₀ w → IsIdle w₀ (f w))
      → (w : World) → Done w
      → Done (f w)
  keep-Post f keep w (inl idle) = inl (keep w idle)
  keep-Post f keep w (inr allowed) = inr allowed

  with_node_lock-Post :
      {full : Action Result} {refused : Error → Action Result} {body : Action Result}
      → Gives Before Any Done full
      → ((e : Error) → Gives Before Any Done (refused e))
      → Gives Before Any Done body
      → Gives Before Any Done (with_node_lock n full refused body)
  unfolding with_node_lock
  with_node_lock-Post all_taken no_lock inside = bind-Gives (gets_any-Gives _) (λ taken _.
      if-Gives taken (λ _. all_taken)
        (λ _. then-Gives {S = Before} (change-Gives _ (λ w s. s)) (
          bind-Gives (ask_any-Gives _ (λ w s. s)) (λ failure _.
            bind-Gives {R = Any} {S = Done}
              (on_error-Gives failure (λ e _. no_lock e)
                (λ _. then-Gives {S = Before} (change-Gives _ (λ w s. s)) (
                  bind-Gives inside (λ a _.
                    next-Gives
                      (modify-Gives _ (keep-Post (λ w. record w { locked = false }) (λ w s. s)))
                      (pure_any-Gives a)))))
              (λ answer _.
                next-Gives (modify-Gives _ (keep-Post (λ w. record w { busy = false }) (λ w s. s)))
                  (pure_any-Gives answer))))))

  run_nginx_command-Post :
      (req₀ : NginxCommandRequest)
      → trim_command_request req₀ ≡ req
      → Gives Before Any Done (run_nginx_command n command req₀)
  unfolding run_nginx_command
  run_nginx_command-Post req₀ same =
      on_fail-Gives (validate_nginx_command_request req₀)
        (λ e _. reject-Post n w₀ command req _ 400 _ _)
        (λ valid passed.
          if-Gives _ (λ _. reject-Post n w₀ command req valid 403 _ _)
            (λ _.
              with_node_lock-Post (reject-Post n w₀ command req valid 409 _ _)
                (λ e.
                  if-Gives _ (λ _. reject-Post n w₀ command req valid 409 _ _)
                    (λ _. reject-Post n w₀ command req valid 503 _ _))
                (subst (λ r. Gives Before Any Done (command_locked n command r))
                  (sym same ∙ accepted_as_trimmed req₀ passed) command_locked-Post)))

-- Whatever the system answers, `runNginxCommand` runs nginx or moves a link only where the disk held, when
-- it began, the release that the request names: with `switch_intent`, for the environment of the request,
-- with the commit and the source of the current version of its target, and for a reload with a test that
-- passed. In any other case every link is as before, and no test, reload or switch was made.
pub run_nginx_command-IsAllowed :
    (n : Node) (command : Command) (req : NginxCommandRequest) (w : World)
    → IsIdle w (run_nginx_command n command req w).1
      ⊎ IsAllowed command (trim_command_request req) w
run_nginx_command-IsAllowed n command req w =
    ((run_nginx_command-Post n w command (trim_command_request req) req refl).at w
      (refl, (refl, refl))).1
