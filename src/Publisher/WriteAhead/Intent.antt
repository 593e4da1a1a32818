-- ===== src/Publisher/WriteAhead/Intent.antt =====
-- `runNginxCommand` of internal/application/publisher/runner.go behind the reading of the state: a record
-- without intent is refused, and with the intent on the disk the command may switch.
use config_sync_nginx.Base.{
  ℕ, String, Bool, true, false, not, ◌==◌, ◌∙◌, ◌≡◌, refl, sym, subst, none, some, Fallible, OnSome,
  eq_iff,
}
use config_sync_nginx.Base.Dict.{lookup}
use config_sync_nginx.Release.Types.{NginxCommandRequest}
use config_sync_nginx.State.{Target, TargetState, Record, Version}
use config_sync_nginx.Publisher.World.{Node, World, Action, if◌then◌else◌}
use config_sync_nginx.Publisher.Targets.{configured_target, find_target}
use config_sync_nginx.Publisher.Command.{
  Command, command_reject, command_on_link, command_on_target, command_on_record,
}
use config_sync_nginx.Publisher.Gives.{
  Gives, Any, if-Gives, on_none-Gives, on_error-Gives, on_fail-Gives, on_fail-rule, pure-Gives,
  bind-Gives, gets-Gives,
}
use config_sync_nginx.Publisher.Invariant.{Invariant}
use config_sync_nginx.Publisher.Laws.Steps.{ask-Gives, same-Gives, read_link-Gives}
use config_sync_nginx.Publisher.Laws.Finish.{uncertain-Gives}
use config_sync_nginx.Publisher.Laws.Command.{dispatch-Gives}
use config_sync_nginx.Publisher.WriteAhead.{AreLogged, IsIntended, Ready, ready, calm, switch-Ready}
use config_sync_nginx.Publisher.WriteAhead.Read.{IsRead, lookup-are_valid_records}

-- From the predicate of one rule to a stronger one before and a weaker one behind.
pub adapt-Gives {ℓ κ μ ν τ π} :
    {A : Type ℓ} {P : World → Type κ} {P₁ : World → Type μ} {R : A → Type ν} {S : World → Type τ}
    {S₁ : World → Type π} {m : Action A}
    → ((w : World) → P w → P₁ w)
    → ((w : World) → S₁ w → S w)
    → Gives P₁ R S₁ m
    → Gives P R S m
adapt-Gives front back rule = record {
  at = λ w p. let done = rule.at w (front w p) in (done.0, back _ done.1);
}

module _ {S : World → Type 0} {T : TargetState → Record → Type 0} (n : Node)
    (inv : Invariant S T Any) where
  pub reject-Gives :
      (req : NginxCommandRequest) (code : ℕ) (key msg : String)
      → Gives S Any S (command_reject n req code key msg)
  unfolding command_reject
  reject-Gives req code key msg =
      bind-Gives (ask-Gives n inv _)
        (λ started _. bind-Gives (ask-Gives n inv _) (λ finished _. same-Gives n inv _))

  -- A target that is found has the identity that was asked for.
  find_target-Gives : (id : String) → Gives S (OnSome (λ t. t.id ≡ id)) S (find_target n id)
  unfolding find_target configured_target if◌then◌else◌
  find_target-Gives id = bind-Gives (gets-Gives {R = Any} _ (λ w s. tt)) (λ view _.
      on_none-Gives view (λ _. pure-Gives _ tt (λ w s. s))
        (λ st _. bind-Gives (ask-Gives n inv _) (λ answer _.
          pure-Gives _
            (on_fail-rule (OnSome (λ t. t.id ≡ id)) answer (λ e. tt)
              (λ t. named t (t.id == id) refl))
            (λ w s. s))))
    where
      named :
          (t : Target) (same : Bool)
          → (t.id == id) ≡ same
          → OnSome (λ u. u.id ≡ id) (if same then some t else none)
      named t true e = (eq_iff t.id id).0 e
      named t false e = tt

-- From the intent on disk.
module _ (n : Node) (release_id : String) (command : Command) (req : NginxCommandRequest)
    (t : Target) (st : TargetState) (rec : Record) (candidate : Version)
    (fit : IsIntended release_id t.id st rec) where
  abbrev R : World → Type 0
  R = Ready release_id t.id

  abbrev inv : Invariant R (IsIntended release_id t.id) Any
  inv = ready release_id t.id

  command_on_link-Ready :
      (raw : Fallible String) → Gives R Any R (command_on_link n command req t st rec candidate raw)
  unfolding command_on_link
  command_on_link-Ready raw =
      on_fail-Gives raw (λ e _. reject-Gives n inv req _ _ _)
        (λ link _.
          if-Gives _ (λ _. reject-Gives n inv req _ _ _)
            (λ _.
              dispatch-Gives n inv t (switch-Ready release_id t)
                (λ r key msg. reject-Gives n inv r 409 key msg) command req st rec tt fit))

  command_on_target-Ready : Gives R Any R (command_on_target n command req t st rec candidate)
  unfolding command_on_target
  command_on_target-Ready = bind-Gives (ask-Gives n inv _) (λ closed _.
      on_error-Gives closed (λ e _. uncertain-Gives n inv st rec _ _ fit)
        (λ _.
          if-Gives _ (λ _. reject-Gives n inv req _ _ _)
            (λ _. bind-Gives (read_link-Gives n inv t) (λ raw _. command_on_link-Ready raw))))

-- From the state that is read from the disk. A release without intent on it is refused.
module _ (n : Node) (release_id : String) where
  -- The log, and the state on the disk.
  abbrev pub Stored : String → TargetState → World → Type 0
  Stored id st w = AreLogged release_id w × (lookup id w.disk ≡ some st)

  abbrev Logged : World → Type 0
  Logged w = AreLogged release_id w

  -- With the release and its intent in the state on the disk, the transactions may begin.
  begin :
      (id : String) (st : TargetState) (rec : Record) (w : World)
      → lookup release_id st.records ≡ some rec
      → rec.intent ≡ true
      → Stored id st w
      → Ready release_id id w
  begin id st rec w found intent (logged, there) = (logged, (st, there, (rec, found, intent)))

  pub command_on_record-AreLogged :
      (command : Command) (req : NginxCommandRequest) (id : String) (st : TargetState)
      → req.release_id ≡ release_id
      → IsRead id st
      → Gives (Stored id st) Any Logged (command_on_record n command req id st)
  unfolding command_on_record
  command_on_record-AreLogged command req id st same (target_same, valid) =
      on_none-Gives _ (λ _. refused 409 _ _)
        (λ rec found.
          on_none-Gives _ (λ _. refused 409 _ _)
            (λ candidate _.
              if-Gives _ (λ _. refused 409 _ _)
                (λ intended.
                  let intent : rec.intent ≡ true = not_false rec.intent intended in
                  let found_here = subst (λ k. lookup k st.records ≡ some rec) same found in
                  let named =
                    lookup-are_valid_records st.target.id release_id st.records valid found_here in
                  adapt-Gives (λ w. begin id st rec w found_here intent) (λ w s. s.0)
                    (if-Gives _ (λ _. reject-Gives n (ready release_id id) req 403 _ _)
                      (λ _. bind-Gives (find_target-Gives n (ready release_id id) id) (λ target h.
                        on_none-Gives target (λ _. reject-Gives n (ready release_id id) req 403 _ _)
                          (λ t e.
                            let t_same : t.id ≡ id = rw e at h in
                            subst
                              (λ k.
                                Gives (Ready release_id k) Any (Ready release_id k)
                                  (command_on_target n command req t st rec candidate))
                              t_same
                              (command_on_target-Ready n release_id command req t st rec candidate
                                (target_same ∙ sym t_same, intent, named)))))))))
    where
      refused :
          (code : ℕ) (key msg : String)
          → Gives (Stored id st) Any Logged (command_reject n req code key msg)
      refused code key msg =
          adapt-Gives (λ w s. s.0) (λ w s. s) (reject-Gives n (calm release_id) req code key msg)

      not_false : (b : Bool) → not b ≡ false → b ≡ true
      not_false true e = refl
      not_false false e = absurd (cc)
