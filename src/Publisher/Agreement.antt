-- ===== src/Publisher/Agreement.antt =====
-- The HTTP status and the status of a release agree, in every stored record and in every result of
-- a transaction, and a transaction returns the channel `busy` and the lock of the node.
pub mod Prepare
pub mod Targets
pub mod Apply
pub mod Command
pub mod Rollback
pub mod Startup
use config_sync_nginx.Base.{
  ℕ, String, Bool, true, false, List, [], ◌∷◌, Option, none, some, ◌≡◌, refl, ◌≤◌, ◌⊎◌, inl, inr,
  arith, All, Fallible, ok, err, OnOk, nat_eq, not, ◌||◌, ◌==◌, length,
}
use config_sync_nginx.Base.Text.{codes}
use config_sync_nginx.Release.Identity.{is_id}
use config_sync_nginx.Base.Dict.{
  Dict, lookup, insert, AllValues, AllValues-insert, AllValues-lookup,
}
use config_sync_nginx.Release.Types.{
  NodeStatus, running, succeeded, skipped, failed, recovery_required, Result,
}
use config_sync_nginx.State.{
  Target, TargetState, Record, Version, clone, persisted_records, persisted_record, attach,
}
use config_sync_nginx.Publisher.World.{
  World, on_fail, WriteOutcome, written, not_written, torn, if◌then◌else◌,
}
use config_sync_nginx.Publisher.Store.{
  apply_write, stamp, check_state, are_valid_records, load_each, index_states, repeats, add_ids,
}
use config_sync_nginx.Publisher.Steps.{set_phase, append_step, apply_switch}
use config_sync_nginx.Publisher.Finish.{
  result_of, failed_record, release_active, uncertain_record, uncertain_state, succeeded_record,
  staged_state, committed_state, restored_state, restored_record, add_warning,
}
use config_sync_nginx.Publisher.Command.{tested_record}
use config_sync_nginx.Publisher.Gives.{branch-rule}
use config_sync_nginx.Publisher.Invariant.{Invariant, KeepsSwitch, viewed}

-- The HTTP status that a stored record may have beside its status.
abbrev pub Agrees : NodeStatus → ℕ → Type 0
Agrees running code = code ≡ 409
Agrees succeeded code = code ≡ 200
Agrees skipped code = code ≡ 200
Agrees failed code = (code ≡ 500) ⊎ (code ≡ 409)
Agrees recovery_required code = code ≡ 503

abbrev pub IsAgreeing : Record → Type 0
IsAgreeing rec = Agrees rec.result.status rec.http_status

-- The HTTP status of a result: 200 for a success and for a skipped release only, an error for a
-- failure, 503 for a release that needs recovery.
abbrev pub Reports : NodeStatus → ℕ → Type 0
Reports running code = code ≡ 409
Reports succeeded code = code ≡ 200
Reports skipped code = code ≡ 200
Reports failed code = (400 ≤ code) × (code ≤ 503)
Reports recovery_required code = code ≡ 503

abbrev pub IsReported : Result → Type 0
IsReported r = Reports r.status r.http_status

abbrev pub IsSound : TargetState → Type 0
IsSound st = AllValues IsAgreeing st.records

-- Every stored and every viewed record agrees; `busy` and `locked` are as given.
abbrev pub Sound : Bool → Bool → World → Type 0
Sound busy locked w =
    (w.busy ≡ busy) × (w.locked ≡ locked) × AllValues IsSound w.disk × AllValues IsSound w.views

pub Agrees-Reports : (s : NodeStatus) (code : ℕ) → Agrees s code → Reports s code
Agrees-Reports running code h = h
Agrees-Reports succeeded code h = h
Agrees-Reports skipped code h = h
Agrees-Reports failed code h = omega arith
Agrees-Reports recovery_required code h = h

persisted-IsAgreeing :
    (rs : Dict Record) → AllValues IsAgreeing rs → AllValues IsAgreeing (persisted_records rs)
unfolding persisted_records persisted_record
persisted-IsAgreeing [] h = tt
persisted-IsAgreeing ((id, r) ∷ rs) h = (h.0, persisted-IsAgreeing rs h.1)

pub clone-IsSound : (st : TargetState) → IsSound st → IsSound (clone st)
unfolding clone
clone-IsSound st h = persisted-IsAgreeing st.records h

pub attach-IsSound :
    (st : TargetState) (rec : Record) → IsSound st → IsAgreeing rec → IsSound (attach st rec)
unfolding attach
attach-IsSound st rec h a = AllValues-insert IsAgreeing rec.request.release_id rec st.records a h

module _ (busy locked : Bool) where
  pub write-Sound :
      (o : WriteOutcome) (time : ℕ) (st : TargetState) (w : World)
      → IsSound st
      → Sound busy locked w
      → Sound busy locked (apply_write o (stamp time st) w)
  unfolding apply_write stamp
  write-Sound (not_written e) time st w h s = s
  write-Sound written time st w h s = (
    s.0,
    s.1,
    AllValues-insert IsSound st.target.id _ w.disk (clone-IsSound (stamp time st) h) s.2,
    s.3,
  )
  write-Sound (torn e) time st w h s = (
    s.0,
    s.1,
    AllValues-insert IsSound st.target.id _ w.disk (clone-IsSound (stamp time st) h) s.2,
    s.3,
  )

  pub view-Sound :
      (st : TargetState) (w : World)
      → IsSound st
      → Sound busy locked w
      → Sound busy locked (viewed st w)
  view-Sound st w h s =
      (s.0, s.1, s.2, AllValues-insert IsSound st.target.id _ w.views (clone-IsSound st h) s.3)

  abbrev pub IsSoundTx : TargetState → Record → Type 0
  IsSoundTx st rec = IsSound st × IsAgreeing rec

  -- The transactions keep all of this.
  pub sound : Invariant (Sound busy locked) IsSoundTx IsReported
  unfolding set_phase append_step release_active failed_record uncertain_state uncertain_record
      staged_state succeeded_record committed_state add_warning restored_state restored_record
      tested_record stamp result_of
  sound = record {
    keeps_ask = λ w s. s;
    keeps_test = λ b w s. s;
    keeps_reload = λ b w s. s;
    keeps_block = λ reason w s. s;
    keeps_write =
        λ o time st rec w t. write-Sound o time (attach st rec) w (attach-IsSound st rec t.0 t.1);
    keeps_view = λ time st rec w t.
        view-Sound (stamp time (attach st rec)) w (attach-IsSound st rec t.0 t.1);
    keeps_early_view = λ st rec w t. view-Sound (attach st rec) w (attach-IsSound st rec t.0 t.1);
    gives_result = λ st rec t. Agrees-Reports rec.result.status rec.http_status t.1;
    for_phase = λ phase st rec t. t;
    for_line = λ line st rec t. t;
    for_fail = λ key cause time st rec t. (t.0, inl refl);
    for_uncertain = λ key cause st rec t. (t.0, refl);
    for_stage = λ phase activation revision time st rec t. (t.0, refl);
    for_commit = λ phase activation revision at time st rec t. (t.0, refl);
    for_warning = λ warning st rec t. t;
    for_restore = λ revision st rec t. t;
    for_test = λ time st rec t. (t.0, refl);
  }

  pub switch-Sound : (t : Target) → KeepsSwitch (Sound busy locked) t
  unfolding apply_switch
  switch-Sound t written link w s = s
  switch-Sound t (torn e) link w s = s
  switch-Sound t (not_written e) link w s = s

-- A state that is read from disk is one of those that are there.
pub check_state-IsSound :
    (id : String) (st : TargetState) → IsSound st → OnOk IsSound (check_state id st)
unfolding check_state
check_state-IsSound id st h =
    branch-rule (OnOk IsSound)
      (not (nat_eq st.schema 2) || not (st.target.id == id) || not (is_id st.revision)) tt
      (branch-rule (OnOk IsSound) (are_valid_records st.target.id st.records) h tt)

each-IsSound :
    (first : Fallible TargetState) (rest : Fallible (List TargetState))
    → OnOk IsSound first
    → OnOk (All IsSound) rest
    → OnOk (All IsSound) (on_fail first err (λ s. on_fail rest err (λ ss. ok (s ∷ ss))))
unfolding on_fail
each-IsSound (err e) rest h k = tt
each-IsSound (ok s) (err e) h k = tt
each-IsSound (ok s) (ok ss) h k = (h, k)

pub load_each-IsSound :
    (files : Dict TargetState) → AllValues IsSound files → OnOk (All IsSound) (load_each files)
unfolding load_each
load_each-IsSound [] h = tt
load_each-IsSound ((id, st) ∷ files) h =
    branch-rule (OnOk (All IsSound)) (nat_eq (length (codes id)) 64)
      (each-IsSound (check_state id st) (load_each files) (check_state-IsSound id st h.0)
        (load_each-IsSound files h.1))
      (load_each-IsSound files h.1)

pub index_states-IsSound :
    (sts : List TargetState) (ids : Dict (Unit {0})) (next : Dict TargetState)
    → All IsSound sts
    → AllValues IsSound next
    → OnOk (AllValues IsSound) (index_states sts ids next)
unfolding index_states
index_states-IsSound [] ids next h k = k
index_states-IsSound (st ∷ sts) ids next h k =
    branch-rule (OnOk (AllValues IsSound)) (repeats st.records ids) tt (
      index_states-IsSound sts (add_ids st.records ids) (insert st.target.id st next) h.1
        (AllValues-insert IsSound st.target.id st next h.0 k))
