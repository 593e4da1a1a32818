-- ===== src/Publisher/Laws/Steps.antt =====
-- Steps and saves keep every invariant.
use config_sync_nginx.Base.{ℕ, String, Option, none, some, Error}
use config_sync_nginx.Release.Types.{Result}
use config_sync_nginx.State.{Target, TargetState, Record, Version, attach}
use config_sync_nginx.Publisher.World.{Node, World, Action, Context, pure, ask}
use config_sync_nginx.Publisher.Store.{save, store_save, publish, block}
use config_sync_nginx.Publisher.Steps.{
  set_phase, step_assigning, step_with_output, step, reporting, quiet, read_link, switch,
  nginx_test, nginx_reload, verify, verify_runtime, verify_version, verify_activation,
}
use config_sync_nginx.Publisher.Gives.{
  Gives, Any, if-Gives, on_error-Gives, pure-Gives, bind-Gives, gets-Gives, modify-Gives,
  next-Gives,
}
use config_sync_nginx.Publisher.Invariant.{Invariant, KeepsSwitch}

module _ {S : World → Type 0} {T : TargetState → Record → Type 0} {R : Result → Type 0} (n : Node)
    (inv : Invariant S T R) where
  pub ask-Gives {ℓ} : {A : Type ℓ} (f : ℕ → A) → Gives S Any S (ask f)
  unfolding ask
  ask-Gives f = record { at = λ w s. (tt, inv.keeps_ask w s) }

  pub same-Gives {ℓ} : {A : Type ℓ} (a : A) → Gives S Any S (pure a)
  same-Gives a = pure-Gives _ tt (λ w s. s)

  pub block-Gives : (reason : String) → Gives S Any S (block reason)
  unfolding block
  block-Gives reason = modify-Gives _ (inv.keeps_block reason)

  pub publish-Gives :
      (st : TargetState) (rec : Record) → T st rec → Gives S Any S (publish (attach st rec))
  unfolding publish
  publish-Gives st rec t = modify-Gives _ (λ w. inv.keeps_early_view st rec w t)

  pub save-Gives :
      (st : TargetState) (rec : Record) → T st rec → Gives S Any S (save n (attach st rec))
  unfolding save store_save publish
  save-Gives st rec t = bind-Gives (ask-Gives n.now) (λ time _.
      bind-Gives
        (bind-Gives (ask-Gives _) (λ o _.
          next-Gives (modify-Gives _ (λ w. inv.keeps_write o time st rec w t)) (same-Gives _)))
        (λ failure _.
          on_error-Gives failure (λ e _. same-Gives _)
            (λ _.
              next-Gives (modify-Gives _ (λ w. inv.keeps_view time st rec w t)) (same-Gives _))))

  -- The record behind a step is fit if the function of the step gives a fit one.
  pub step_assigning-Gives {ℓ} :
      {A : Type ℓ} (ctx : Context) (st : TargetState) (rec : Record) (name : String) (a : A)
      (fn : Record → Action (Record × A × String × Option Error))
      → T st rec
      → ((r : Record) → T st r → Gives S (λ x. T st x.0) S (fn r))
      → Gives S (λ x. T st x.0) S (step_assigning n ctx st rec name a fn)
  unfolding step_assigning
  step_assigning-Gives ctx st rec name a fn t body =
      let t₁ = inv.for_phase name st rec t in
      bind-Gives (save-Gives st (set_phase name rec) t₁) (λ failure _.
        on_error-Gives failure (λ e _. pure-Gives _ t₁ (λ w s. s))
          (λ _. bind-Gives (ask-Gives _) (λ started _. bind-Gives (ask-Gives _) (λ ended _.
            bind-Gives {R = λ x. T st x.0}
              (on_error-Gives ended (λ e _. pure-Gives _ t₁ (λ w s. s))
                (λ _. body (set_phase name rec) t₁))
              (λ answer t₂.
                bind-Gives (ask-Gives _)
                  (λ finished _. pure-Gives _ (inv.for_line _ st answer.0 t₂) (λ w s. s)))))))

  pub step_with_output-Gives :
      (ctx : Context) (st : TargetState) (rec : Record) (name : String)
      (m : Action (String × Option Error))
      → T st rec
      → Gives S Any S m
      → Gives S (λ x. T st x.0) S (step_with_output n ctx st rec name m)
  unfolding step_with_output reporting
  step_with_output-Gives ctx st rec name m t body =
      bind-Gives
        (step_assigning-Gives ctx st rec name tt (reporting n m) t
          (λ r t₁. bind-Gives body (λ answer _. pure-Gives _ t₁ (λ w s. s))))
        (λ answer t₁. pure-Gives _ t₁ (λ w s. s))

  pub step-Gives :
      (ctx : Context) (st : TargetState) (rec : Record) (name : String) (m : Action (Option Error))
      → T st rec
      → Gives S Any S m
      → Gives S (λ x. T st x.0) S (step n ctx st rec name m)
  unfolding step quiet
  step-Gives ctx st rec name m t body =
      bind-Gives
        (step_assigning-Gives ctx st rec name tt (quiet n m) t
          (λ r t₁. bind-Gives body (λ answer _. pure-Gives _ t₁ (λ w s. s))))
        (λ answer t₁. pure-Gives _ t₁ (λ w s. s))

  pub read_link-Gives : (t : Target) → Gives S Any S (read_link n t)
  unfolding read_link
  read_link-Gives t =
      bind-Gives (ask-Gives _)
        (λ failure _. bind-Gives (gets-Gives {R = Any} _ (λ w s. tt)) (λ link _. same-Gives _))

  pub switch-Gives :
      (t : Target) (link : String) → KeepsSwitch S t → Gives S Any S (switch n t link)
  unfolding switch
  switch-Gives t link keep =
      bind-Gives (ask-Gives _) (λ o _. next-Gives (modify-Gives _ (keep o link)) (same-Gives _))

  pub nginx_test-Gives : Gives S Any S (nginx_test n)
  unfolding nginx_test
  nginx_test-Gives =
      bind-Gives (ask-Gives _)
        (λ answer _. next-Gives (modify-Gives _ (inv.keeps_test _)) (same-Gives _))

  pub nginx_reload-Gives : Gives S Any S (nginx_reload n)
  unfolding nginx_reload
  nginx_reload-Gives =
      bind-Gives (ask-Gives _)
        (λ answer _. next-Gives (modify-Gives _ (inv.keeps_reload _)) (same-Gives _))

  pub verify_runtime-Gives :
      (t : Target) (v : Option Version) → Gives S Any S (verify_runtime n t v)
  unfolding verify_runtime
  verify_runtime-Gives t none = ask-Gives _
  verify_runtime-Gives t (some v) = bind-Gives (ask-Gives _) (λ failure _.
      on_error-Gives failure (λ e _. same-Gives _)
        (λ _. if-Gives _ (λ _. ask-Gives _) (λ _. same-Gives _)))

  pub verify_version-Gives :
      (t : Target) (v : Option Version) → Gives S Any S (verify_version n t v)
  unfolding verify_version
  verify_version-Gives t none = same-Gives _
  verify_version-Gives t (some v) = ask-Gives _

  pub verify-Gives : (t : Target) (v : Option Version) → Gives S Any S (verify n t v)
  unfolding verify
  verify-Gives t none = verify_runtime-Gives t none
  verify-Gives t (some v) = bind-Gives (ask-Gives _) (λ failure _.
      on_error-Gives failure (λ e _. same-Gives _) (λ _. verify_runtime-Gives t (some v)))

  pub verify_activation-Gives :
      (t : Target) (st : TargetState) (v : Option Version)
      → Gives S Any S (verify_activation n t st v)
  unfolding verify_activation
  verify_activation-Gives t st v =
      bind-Gives (verify-Gives t v)
        (λ failure _. on_error-Gives failure (λ e _. same-Gives _) (λ _. ask-Gives _))
