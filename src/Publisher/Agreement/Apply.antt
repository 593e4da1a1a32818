-- ===== src/Publisher/Agreement/Apply.antt =====
-- A whole request: `apply` of internal/application/publisher/runner.go answers with an HTTP status that
-- agrees with the status of the release, and releases what it has taken.
use config_sync_nginx.Base.{ℕ, String, Bool, true, false, ◌≡◌, refl, Error, arith, inr, sym, ◌∙◌}
use config_sync_nginx.Base.Dict.{Dict, lookup, AllValues, AllValues-insert}
use config_sync_nginx.Release.Types.{ApplyRequest, is_terminal, ReleaseType}
use config_sync_nginx.State.{Target, TargetState, Record, attach}
use config_sync_nginx.Publisher.World.{Node, World, Action}
use config_sync_nginx.Publisher.Targets.{with_node_lock, resolve}
use config_sync_nginx.Publisher.Apply.{
  superseded, supersede, takeover, accepted_record, accept, check_restore, apply_locked,
  apply_resolved, apply_valid, is_data_dir, apply,
}
use config_sync_nginx.Publisher.Gives.{
  Gives, Any, branch-rule, on_none-rule, if-Gives, on_error-Gives, on_none-Gives, on_fail-Gives,
  pure-Gives, bind-Gives, gets-Gives, next-Gives, change-Gives, then-Gives,
}
use config_sync_nginx.Publisher.Laws.Steps.{ask-Gives, same-Gives, block-Gives}
use config_sync_nginx.Publisher.Laws.Finish.{uncertain-Gives}
use config_sync_nginx.Publisher.Agreement.{
  IsAgreeing, IsReported, IsSound, Sound, IsSoundTx, sound, attach-IsSound,
}
use config_sync_nginx.Publisher.Agreement.Prepare.{execute-Gives}
use config_sync_nginx.Publisher.Agreement.Targets.{
  reject-Gives, duplicate-Gives, find_target-Gives, store_load-Gives, load-Gives,
  ensure_target-Gives, save_plain-Gives,
}

supersede-IsAgreeing :
    (time : ℕ) (active release_id : String) (records : Dict Record)
    → AllValues IsAgreeing records
    → AllValues IsAgreeing (supersede time active release_id records)
unfolding supersede superseded
supersede-IsAgreeing time active release_id records h = branch-rule (AllValues IsAgreeing) _ h (
    on_none-rule (AllValues IsAgreeing) (lookup active records) h (λ rec e.
      branch-rule (AllValues IsAgreeing) (is_terminal rec.result.status) h
        (AllValues-insert IsAgreeing active (superseded time rec) records (inr refl) h)))

module _ (n : Node) (busy : Bool) where
  -- The lock around an action: whether it was busy or not, `busy` and the lock are afterwards as
  -- they were before.
  pub with_node_lock-Gives {ℓ} :
      {A : Type ℓ} {R : A → Type 0} {full : Action A} {refused : Error → Action A} {body : Action A}
      → Gives (Sound busy false) R (Sound busy false) full
      → ((e : Error) → Gives (Sound true false) R (Sound true false) (refused e))
      → Gives (Sound true true) R (Sound true true) body
      → Gives (Sound busy false) R (Sound busy false) (with_node_lock n full refused body)
  unfolding with_node_lock
  with_node_lock-Gives {R} all_taken no_lock locked =
      bind-Gives (gets-Gives {R = λ b. b ≡ busy} _ (λ w s. s.0)) (λ taken e.
        if-Gives taken (λ _. all_taken)
          (λ free.
            then-Gives {S = Sound true false} (change-Gives _ (λ w s. (refl, s.1, s.2, s.3))) (
              bind-Gives (ask-Gives n (sound true false) _) (λ failure _.
                bind-Gives {R = R} {S = Sound true false}
                  (on_error-Gives failure (λ e₁ _. no_lock e₁)
                    (λ _.
                      then-Gives {S = Sound true true}
                        (change-Gives _ (λ w s. (s.0, refl, s.2, s.3)))
                        (bind-Gives locked (λ a r.
                          then-Gives {S = Sound true false}
                            (change-Gives _ (λ w s. (s.0, refl, s.2, s.3)))
                            (pure-Gives a r (λ w s. s))))))
                  (λ answer r.
                    then-Gives {S = Sound busy false}
                      (change-Gives _ (λ w s. (sym free ∙ e, s.1, s.2, s.3)))
                      (pure-Gives answer r (λ w s. s)))))))

-- What is known of the answer of `resolve`: nothing.
module _ (n : Node) (busy : Bool) where
  abbrev S : World → Type 0
  S = Sound busy false

  pub resolve-Gives :
      (typ : ReleaseType) (site root project env : String)
      → Gives S Any S (resolve n typ site root project env)
  unfolding resolve
  resolve-Gives typ site root project env =
      bind-Gives (ask-Gives n (sound busy false) _) (λ answer _.
        on_fail-Gives answer (λ e _. same-Gives n (sound busy false) _)
          (λ t _. bind-Gives (find_target-Gives n busy false t.id) (λ existing _.
            on_none-Gives existing
              (λ _.
                with_node_lock-Gives n busy (same-Gives n (sound busy false) _)
                  (λ e. same-Gives n (sound true false) _)
                  (bind-Gives (load-Gives n true true) (λ failure _.
                    on_error-Gives failure (λ e _. same-Gives n (sound true true) _)
                      (λ _.
                        bind-Gives (ensure_target-Gives n true true t)
                          (λ ensured _. same-Gives n (sound true true) _)))))
              (λ t₁ _. same-Gives n (sound busy false) _))))

module _ (n : Node) (busy locked : Bool) (defer_nginx_commands : Bool) (t : Target) where
  abbrev L : World → Type 0
  L = Sound busy locked

  accept-Gives :
      (req : ApplyRequest) (src fingerprint : String) (st : TargetState)
      → IsSound st
      → Gives L IsReported L (accept n defer_nginx_commands t req src fingerprint st)
  unfolding accept takeover accepted_record
  accept-Gives req src fingerprint st h =
      let inv = sound busy locked in
      bind-Gives (ask-Gives n inv n.now) (λ time _. bind-Gives (ask-Gives n inv n.now) (λ started _.
        let h₁ = supersede-IsAgreeing time st.active_id req.release_id st.records h in
        let rec = accepted_record req fingerprint t (takeover time req st) started in
        let tx : IsSoundTx busy locked
            (record (attach (takeover time req st) rec) { active_id = req.release_id }) rec =
          (attach-IsSound (takeover time req st) rec h₁ refl, refl) in
        bind-Gives (save_plain-Gives n busy locked _ tx.0) (λ failure _.
          on_error-Gives failure (λ e _. uncertain-Gives n inv _ _ _ _ tx)
            (λ _. execute-Gives n busy locked defer_nginx_commands t _ req src rec tx))))

  check_restore-Gives :
      (req : ApplyRequest) (src fingerprint : String) (st : TargetState)
      → IsSound st
      → Gives L IsReported L (check_restore n defer_nginx_commands t req src fingerprint st)
  unfolding check_restore
  check_restore-Gives req src fingerprint st h =
      if-Gives _ (λ _. accept-Gives req src fingerprint st h)
        (λ _.
          on_none-Gives _ (λ _. reject-Gives n busy locked req 409 _ _ (omega arith) (omega arith))
            (λ baseline _.
              if-Gives _ (λ _. reject-Gives n busy locked _ 409 _ _ (omega arith) (omega arith))
                (λ _. accept-Gives _ src fingerprint st h)))

  apply_locked-Gives :
      (req : ApplyRequest) (src fingerprint : String)
      → Gives L IsReported L (apply_locked n defer_nginx_commands t req src fingerprint)
  unfolding apply_locked
  apply_locked-Gives req src fingerprint =
      let inv = sound busy locked in
      bind-Gives (load-Gives n busy locked) (λ failure _.
        on_error-Gives failure
          (λ e _.
            next-Gives (block-Gives n inv _)
              (reject-Gives n busy locked req 503 _ _ (omega arith) (omega arith)))
          (λ _. bind-Gives (duplicate-Gives n busy locked req fingerprint) (λ known k.
            on_none-Gives known
              (λ _. bind-Gives (gets-Gives {R = Any} _ (λ w s. tt)) (λ blocked _.
                bind-Gives (gets-Gives {R = Any} _ (λ w s. tt)) (λ stopping _.
                  if-Gives _
                    (λ _. reject-Gives n busy locked req 503 _ _ (omega arith) (omega arith))
                    (λ _. bind-Gives (store_load-Gives n busy locked t.id) (λ stored h.
                      on_fail-Gives stored
                        (λ e _. reject-Gives n busy locked req 503 _ _ (omega arith) (omega arith))
                        (λ st e.
                          if-Gives _
                            (λ _.
                              reject-Gives n busy locked req 409 _ _ (omega arith) (omega arith))
                            (λ _. check_restore-Gives req src fingerprint st (rw e at h))))))))
              (λ r e. pure-Gives r (rw e at k) (λ w s. s)))))

module _ (n : Node) (busy : Bool) (defer_nginx_commands : Bool) where
  apply_resolved-Gives :
      (t : Target) (req : ApplyRequest)
      → Gives
          (Sound busy false)
          IsReported
          (Sound busy false)
          (apply_resolved n defer_nginx_commands t req)
  unfolding apply_resolved
  apply_resolved-Gives t req = bind-Gives (duplicate-Gives n busy false _ _) (λ known k.
      on_none-Gives known
        (λ _.
          with_node_lock-Gives n busy
            (reject-Gives n busy false _ 409 _ _ (omega arith) (omega arith))
            (λ e.
              if-Gives _ (λ _. reject-Gives n true false _ 409 _ _ (omega arith) (omega arith))
                (λ _. reject-Gives n true false _ 503 _ _ (omega arith) (omega arith)))
            (apply_locked-Gives n true true defer_nginx_commands t _ _ _))
        (λ r e. pure-Gives r (rw e at k) (λ w s. s)))

  apply_valid-Gives :
      (req : ApplyRequest)
      → Gives
          (Sound busy false)
          IsReported
          (Sound busy false)
          (apply_valid n defer_nginx_commands req)
  unfolding apply_valid
  apply_valid-Gives req = bind-Gives (resolve-Gives n busy _ _ _ _ _) (λ answer _.
      on_fail-Gives answer
        (λ e _.
          if-Gives _ (λ _. reject-Gives n busy false _ 409 _ _ (omega arith) (omega arith))
            (λ _. reject-Gives n busy false _ 403 _ _ (omega arith) (omega arith)))
        (λ t _. apply_resolved-Gives t req))

  -- `apply`: the result agrees, and what is stored stays in agreement.
  pub apply-Gives :
      (req : ApplyRequest)
      → Gives (Sound busy false) IsReported (Sound busy false) (apply n defer_nginx_commands req)
  unfolding apply is_data_dir
  apply-Gives req₀ =
      let inv = sound busy false in
      bind-Gives (ask-Gives n inv n.fresh_id) (λ fresh _.
        on_fail-Gives _ (λ e _. reject-Gives n busy false _ 400 _ _ (omega arith) (omega arith))
          (λ req₁ _.
            on_fail-Gives _ (λ e _. reject-Gives n busy false _ 400 _ _ (omega arith) (omega arith))
              (λ req _.
                if-Gives _ (λ _. reject-Gives n busy false _ 403 _ _ (omega arith) (omega arith))
                  (λ _.
                    if-Gives _ (λ _. apply_valid-Gives req)
                      (λ _.
                        bind-Gives {R = Any}
                          (bind-Gives (ask-Gives n inv _) (λ answer _. same-Gives n inv _))
                          (λ same _.
                            if-Gives _
                              (λ _. reject-Gives n busy false _ 400 _ _ (omega arith) (omega arith))
                              (λ _. apply_valid-Gives _)))))))

-- `apply`, whatever the system answers: when every stored record agrees with its HTTP status and the
-- lock of the node is free, then so does the result (200 for a success or a skipped release only, an
-- error code for a failure, 409 for a running release and 503 for one that needs recovery), every
-- stored record agrees afterwards, and the lock and the channel `busy` are as before.
pub apply-IsReported :
    (n : Node) (defer_nginx_commands : Bool) (req : ApplyRequest) (w : World)
    → Sound w.busy false w
    → IsReported (apply n defer_nginx_commands req w).0
      × Sound w.busy false (apply n defer_nginx_commands req w).1
apply-IsReported n defer_nginx_commands req w s =
    (apply-Gives n w.busy defer_nginx_commands req).at w s
