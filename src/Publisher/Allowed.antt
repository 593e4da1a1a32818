-- ===== src/Publisher/Allowed.antt =====
-- What `runNginxCommand` of internal/application/publisher/runner.go demands of the stored release before
-- it runs nginx or moves the link.
pub mod Run
use config_sync_nginx.Base.{
  ℕ, String, Bool, true, false, not, ◌&&◌, ◌||◌, ◌==◌, ◌∙◌, ◌≡◌, refl, sym, subst, ap, ◌⊎◌, inl,
  inr, List, [], ◌∷◌, Option, none, some, Error, error_text, Fallible, ok, arith, eq_iff,
}
use config_sync_nginx.Base.Dict.{lookup}
use config_sync_nginx.Release.Types.{NginxCommandRequest, Result}
use config_sync_nginx.Release.Validate.{trim_command_request, validate_nginx_command_request}
use config_sync_nginx.State.{Target, TargetState, Record, Version}
use config_sync_nginx.Publisher.World.{
  Node, World, Action, Event, saved, switched, tested, reloaded, WriteOutcome, written, not_written,
  torn, on_fail, ◌>>=◌, pure, ask, gets,
}
use config_sync_nginx.Publisher.Store.{
  save, store_save, publish, block, apply_write, store_load, store_all, load, index_states,
}
use config_sync_nginx.Publisher.Steps.{read_link}
use config_sync_nginx.Publisher.Finish.{uncertain}
use config_sync_nginx.Publisher.Targets.{configured_target, find_target, with_node_lock, stored_env}
use config_sync_nginx.Publisher.Command.{
  Command, test, reload, abort, is_current, can_reload, command_reject, replayed_result, run_reload,
  dispatch, command_on_link, command_on_target, command_on_record, command_locked,
  run_nginx_command,
}
use config_sync_nginx.Publisher.Gives.{
  Gives, Any, if-Gives, on_none-Gives, on_error-Gives, on_fail-Gives, pure-Gives, bind-Gives,
  gets-Gives, modify-Gives, next-Gives,
}
use config_sync_nginx.Publisher.Invariant.{asked}
use config_sync_nginx.Publisher.WriteAhead.Read.{store_load-IsRead}
use config_sync_nginx.Publisher.WriteAhead.Intent.{adapt-Gives}

-- The runs of nginx and the switches of the link in a trace.
abbrev pub effects : List Event → List Event
effects [] = []
effects (saved id ∷ es) = effects es
effects (switched id link durable ∷ es) = switched id link durable ∷ effects es
effects (tested passed ∷ es) = tested passed ∷ effects es
effects (reloaded passed ∷ es) = reloaded passed ∷ effects es

-- Nginx was not run, and no link was moved.
abbrev pub IsIdle : World → World → Type 0
IsIdle w v = (v.links ≡ w.links) × (effects v.trace ≡ effects w.trace)

-- A reload needs a test that passed.
abbrev pub IsTested : Command → Record → Type 0
IsTested test rec = Unit
IsTested reload rec = rec.nginx_tested ≡ true
IsTested abort rec = Unit

-- The disk holds the release with its intent, for the environment of the request; its version has the
-- commit and the source of the current one of the target; and for a reload a test has passed.
abbrev pub IsAllowed : Command → NginxCommandRequest → World → Type 0
IsAllowed command req w =
    (id : String) × (st : TargetState) × (rec : Record) × (candidate current : Version) × (lookup id
        w.disk
      ≡ some st)
    × (lookup req.release_id st.records ≡ some rec)
    × (rec.intent ≡ true)
    × (rec.request.env ≡ req.env)
    × (rec.candidate ≡ some candidate)
    × (st.current ≡ some current)
    × (current.commit_id ≡ candidate.commit_id)
    × (current.source ≡ candidate.source)
    × IsTested command rec

pub ask_any-Gives {ℓ} :
    {A : Type ℓ} {S : World → Type 0} (f : ℕ → A)
    → ((w : World) → S w → S (asked w))
    → Gives S Any S (ask f)
unfolding ask
ask_any-Gives f keep = record { at = λ w s. (tt, keep w s) }

pub gets_any-Gives {ℓ} : {A : Type ℓ} {S : World → Type 0} (f : World → A) → Gives S Any S (gets f)
gets_any-Gives f = gets-Gives f (λ w s. tt)

pub pure_any-Gives {ℓ} : {A : Type ℓ} {S : World → Type 0} (a : A) → Gives S Any S (pure a)
pure_any-Gives a = pure-Gives a tt (λ w s. s)

module _ (n : Node) (w₀ : World) where
  abbrev Idle : World → Type 0
  Idle w = IsIdle w₀ w

  write-Idle :
      (o : WriteOutcome) (st : TargetState) (w : World) → Idle w → Idle (apply_write o st w)
  unfolding apply_write
  write-Idle written st w s = s
  write-Idle (not_written e) st w s = s
  write-Idle (torn e) st w s = s

  save-Idle : (st : TargetState) → Gives Idle Any Idle (save n st)
  unfolding save store_save publish
  save-Idle st = bind-Gives (ask_any-Gives _ (λ w s. s)) (λ time _.
      bind-Gives
        (bind-Gives (ask_any-Gives _ (λ w s. s))
          (λ o _. next-Gives (modify-Gives _ (λ w. write-Idle o _ w)) (pure_any-Gives _)))
        (λ failure _.
          on_error-Gives failure (λ e _. pure_any-Gives _)
            (λ _. next-Gives (modify-Gives _ (λ w s. s)) (pure_any-Gives _))))

  pub uncertain-Idle :
      (st : TargetState) (rec : Record) (key cause : String)
      → Gives Idle Any Idle (uncertain n st rec key cause)
  unfolding uncertain publish block
  uncertain-Idle st rec key cause = next-Gives (modify-Gives _ (λ w s. s)) (
      bind-Gives (save-Idle _) (λ failure _.
        next-Gives
          (on_error-Gives failure (λ e _. modify-Gives _ (λ w s. s)) (λ _. pure_any-Gives _))
          (pure_any-Gives _)))

  -- The disk too is as before.
  abbrev pub Kept : World → Type 0
  Kept w = (w.disk ≡ w₀.disk) × Idle w

  pub load-Kept : Gives Kept Any Kept (load n)
  unfolding load store_all
  load-Kept =
      bind-Gives {R = Any}
        (bind-Gives (ask_any-Gives _ (λ w s. s))
          (λ failure _. bind-Gives (gets_any-Gives _) (λ files _. pure_any-Gives _)))
        (λ states _.
          on_fail-Gives states (λ e _. pure_any-Gives _)
            (λ sts _.
              on_fail-Gives (index_states sts [] []) (λ e _. pure_any-Gives _)
                (λ next _. next-Gives (modify-Gives _ (λ w s. s)) (pure_any-Gives _))))

  pub store_load-Kept : (id : String) → Gives Kept Any Kept (store_load n id)
  unfolding store_load
  store_load-Kept id =
      if-Gives _ (λ _. pure_any-Gives _)
        (λ _.
          bind-Gives (ask_any-Gives _ (λ w s. s))
            (λ failure _. bind-Gives (gets_any-Gives _) (λ file _. pure_any-Gives _)))

  pub find_target-Kept : (id : String) → Gives Kept Any Kept (find_target n id)
  unfolding find_target configured_target
  find_target-Kept id = bind-Gives (gets_any-Gives _) (λ view _.
      on_none-Gives view (λ _. pure_any-Gives _)
        (λ st _. bind-Gives (ask_any-Gives _ (λ w s. s)) (λ answer _. pure_any-Gives _)))

  pub read_link-Kept : (t : Target) → Gives Kept Any Kept (read_link n t)
  unfolding read_link
  read_link-Kept t =
      bind-Gives (ask_any-Gives _ (λ w s. s))
        (λ failure _. bind-Gives (gets_any-Gives _) (λ link _. pure_any-Gives _))
