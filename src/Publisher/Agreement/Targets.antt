-- ===== src/Publisher/Agreement/Targets.antt =====
-- Loading, replaying and registering keep the agreement of the statuses.
use config_sync_nginx.Base.{
  ℕ, String, Bool, false, ◌≡◌, refl, ◌≤◌, [], ◌∷◌, Option, none, some, Error, arith, OnSome, OnOk,
  All, if-rule, ◌==◌,
}
use config_sync_nginx.Base.Dict.{Dict, lookup, AllValues, AllValues-lookup}
use config_sync_nginx.Release.Types.{
  ApplyRequest, NodeStatus, running, succeeded, skipped, failed, recovery_required, is_terminal,
  needs_recovery,
}
use config_sync_nginx.State.{Target, TargetState, Record, new_state}
use config_sync_nginx.Publisher.World.{Node, World}
use config_sync_nginx.Publisher.Store.{
  save, store_save, publish, stamp, load, store_load, store_all, decode_file, index_states,
}
use config_sync_nginx.Publisher.Targets.{
  reject, replay, duplicate, find_release, configured_target, find_target, register, adopt,
  ensure_target,
}
use config_sync_nginx.Publisher.Gives.{
  Gives, Any, on_none-rule, on_error-rule, on_fail-rule, if-Gives, on_error-Gives, on_none-Gives,
  on_fail-Gives, pure-Gives, bind-Gives, gets-Gives, modify-Gives, next-Gives,
}
use config_sync_nginx.Publisher.Laws.Steps.{ask-Gives, same-Gives}
use config_sync_nginx.Publisher.Agreement.{
  Agrees-Reports, IsAgreeing, IsReported, Reports, IsSound, Sound, sound, write-Sound, view-Sound,
  check_state-IsSound, load_each-IsSound, index_states-IsSound,
}

pub find_release-IsAgreeing :
    (release_id : String) (views : Dict TargetState)
    → AllValues IsSound views
    → OnSome (λ f. IsAgreeing f.1) (find_release release_id views)
unfolding find_release
find_release-IsAgreeing release_id [] h = tt
find_release-IsAgreeing release_id ((id, st) ∷ views) h =
    on_none-rule (OnSome (λ f. IsAgreeing f.1)) (lookup release_id st.records)
      (find_release-IsAgreeing release_id views h.1)
      (λ rec e. AllValues-lookup IsAgreeing release_id st.records h.0 e)

decode_file-IsSound :
    (id : String) (file : Option TargetState) (failure : Option Error)
    → OnSome IsSound file
    → OnOk IsSound (decode_file id file failure)
unfolding decode_file
decode_file-IsSound id file (some e) h = tt
decode_file-IsSound id none none h = tt
decode_file-IsSound id (some st) none h = check_state-IsSound id st h

pub lookup-OnSome {ℓ} :
    {V : Type ℓ} (P : V → Type 0) (k : String) (m : Dict V) → AllValues P m → OnSome P (lookup k m)
unfolding lookup
lookup-OnSome P k [] h = tt
lookup-OnSome P k ((j, v) ∷ m) h = if-rule (OnSome P) (j == k) h.0 (lookup-OnSome P k m h.1)

running-Reports :
    (s : NodeStatus) → is_terminal s ≡ false → needs_recovery s ≡ false → Reports s 409
running-Reports running e k = refl
running-Reports succeeded e k = absurd (cc)
running-Reports skipped e k = absurd (cc)
running-Reports failed e k = absurd (cc)
running-Reports recovery_required e k = absurd (cc)

module _ (n : Node) (busy locked : Bool) where
  abbrev S : World → Type 0
  S = Sound busy locked

  pub reject-Gives :
      (req : ApplyRequest) (code : ℕ) (key msg : String)
      → 400 ≤ code
      → code ≤ 503
      → Gives S IsReported S (reject n req code key msg)
  unfolding reject
  reject-Gives req code key msg low high =
      bind-Gives (ask-Gives n (sound busy locked) _) (λ time _. pure-Gives _ (low, high) (λ w s. s))

  replay-Gives :
      (req : ApplyRequest) (fingerprint : String) (rec : Record)
      → IsAgreeing rec
      → Gives S (OnSome IsReported) S (replay n req fingerprint rec)
  unfolding replay
  replay-Gives req fingerprint rec h =
      if-Gives _
        (λ _.
          bind-Gives (reject-Gives req 409 _ _ (omega arith) (omega arith))
            (λ r k. pure-Gives _ k (λ w s. s)))
        (λ _.
          if-Gives _
            (λ _. pure-Gives _ (Agrees-Reports rec.result.status rec.http_status h) (λ w s. s))
            (λ e.
              if-Gives _ (λ _. pure-Gives _ tt (λ w s. s))
                (λ e₁. pure-Gives _ (running-Reports rec.result.status e e₁) (λ w s. s))))

  pub duplicate-Gives :
      (req : ApplyRequest) (fingerprint : String)
      → Gives S (OnSome IsReported) S (duplicate n req fingerprint)
  unfolding duplicate
  duplicate-Gives req fingerprint =
      bind-Gives
        (gets-Gives {R = OnSome (λ f. IsAgreeing f.1)} _
          (λ w s. find_release-IsAgreeing req.release_id w.views s.3))
        (λ found h.
          on_none-Gives found (λ _. pure-Gives _ tt (λ w s. s))
            (λ f e. replay-Gives req fingerprint f.1 (rw e at h)))

  pub configured_target-Gives :
      (st : TargetState) (id : String) → Gives S Any S (configured_target n st id)
  unfolding configured_target
  configured_target-Gives st id =
      bind-Gives (ask-Gives n (sound busy locked) _)
        (λ answer _. same-Gives n (sound busy locked) _)

  pub find_target-Gives : (id : String) → Gives S Any S (find_target n id)
  unfolding find_target
  find_target-Gives id = bind-Gives (gets-Gives {R = Any} _ (λ w s. tt)) (λ view _.
      on_none-Gives view (λ _. same-Gives n (sound busy locked) _)
        (λ st _. configured_target-Gives st id))

  pub store_load-Gives : (id : String) → Gives S (OnOk IsSound) S (store_load n id)
  unfolding store_load
  store_load-Gives id =
      if-Gives _ (λ _. pure-Gives _ tt (λ w s. s))
        (λ _. bind-Gives (ask-Gives n (sound busy locked) _) (λ failure _.
          bind-Gives
            (gets-Gives {R = OnSome IsSound} _ (λ w s. lookup-OnSome IsSound id w.disk s.2))
            (λ file h. pure-Gives _ (decode_file-IsSound id file failure h) (λ w s. s))))

  pub load-Gives : Gives S Any S (load n)
  unfolding load store_all
  load-Gives =
      bind-Gives {R = OnOk (All IsSound)}
        (bind-Gives (ask-Gives n (sound busy locked) _) (λ failure _.
          bind-Gives (gets-Gives {R = AllValues IsSound} _ (λ w s. s.2)) (λ files h.
            pure-Gives _
              (on_error-rule (OnOk (All IsSound)) failure (λ e. tt) (load_each-IsSound files h))
              (λ w s. s))))
        (λ states h.
          on_fail-Gives states (λ e _. same-Gives n (sound busy locked) _)
            (λ sts e.
              let views_sound = index_states-IsSound sts [] [] (rw e at h) tt in
              on_fail-Gives (index_states sts [] []) (λ e₁ _. same-Gives n (sound busy locked) _)
                (λ next e₁.
                  next-Gives (modify-Gives _ (λ w s. (s.0, s.1, s.2, rw e₁ at views_sound)))
                    (same-Gives n (sound busy locked) _))))

  pub save_plain-Gives : (st : TargetState) → IsSound st → Gives S Any S (save n st)
  unfolding save store_save publish stamp
  save_plain-Gives st h =
      let inv = sound busy locked in
      bind-Gives (ask-Gives n inv n.now) (λ time _.
        bind-Gives
          (bind-Gives (ask-Gives n inv _) (λ o _.
            next-Gives (modify-Gives _ (λ w. write-Sound busy locked o time st w h))
              (same-Gives n inv _)))
          (λ failure _.
            on_error-Gives failure (λ e _. same-Gives n inv _)
              (λ _.
                next-Gives (modify-Gives _ (λ w. view-Sound busy locked (stamp time st) w h))
                  (same-Gives n inv _))))

  register-Gives : (t : Target) → Gives S (OnOk IsSound) S (register n t)
  unfolding register new_state
  register-Gives t =
      let inv = sound busy locked in
      bind-Gives (gets-Gives {R = Any} _ (λ w s. tt)) (λ count _.
        if-Gives _ (λ _. pure-Gives _ tt (λ w s. s))
          (λ _. bind-Gives (ask-Gives n inv _) (λ fresh _.
            bind-Gives (ask-Gives n inv _) (λ refused _.
              on_error-Gives refused (λ e _. pure-Gives _ tt (λ w s. s))
                (λ _. bind-Gives (ask-Gives n inv _) (λ closed _.
                  on_error-Gives closed (λ e _. pure-Gives _ tt (λ w s. s))
                    (λ _. bind-Gives (ask-Gives n inv _) (λ entries _.
                      pure-Gives _ (on_fail-rule (OnOk IsSound) entries (λ e. tt) (λ names. tt))
                        (λ w s. s)))))))))

  adopt-Gives :
      (t : Target) (st : TargetState) → IsSound st → Gives S (OnOk IsSound) S (adopt n t st)
  unfolding adopt
  adopt-Gives t st h =
      if-Gives _ (λ _. pure-Gives _ tt (λ w s. s))
        (λ _.
          bind-Gives (ask-Gives n (sound busy locked) _) (λ refused _.
            pure-Gives _ (on_error-rule (OnOk IsSound) refused (λ e. tt) h) (λ w s. s)))

  pub ensure_target-Gives : (t : Target) → Gives S (OnOk IsSound) S (ensure_target n t)
  unfolding ensure_target
  ensure_target-Gives t = bind-Gives (gets-Gives {R = Any} _ (λ w s. tt)) (λ conflict _.
      if-Gives conflict (λ _. pure-Gives _ tt (λ w s. s))
        (λ _. bind-Gives (store_load-Gives t.id) (λ stored h.
          bind-Gives {R = OnOk IsSound}
            (on_fail-Gives stored
              (λ e _. if-Gives _ (λ _. register-Gives t) (λ _. pure-Gives _ tt (λ w s. s)))
              (λ st e. adopt-Gives t st (rw e at h)))
            (λ prepared k.
              on_fail-Gives prepared (λ e _. pure-Gives _ tt (λ w s. s))
                (λ st e.
                  let st_sound : IsSound st = rw e at k in
                  bind-Gives (save_plain-Gives st st_sound) (λ failure _.
                    pure-Gives _ (on_error-rule (OnOk IsSound) failure (λ e₁. tt) st_sound)
                      (λ w s. s)))))))
