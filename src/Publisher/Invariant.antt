-- ===== src/Publisher/Invariant.antt =====
-- What an invariant `S` of the world has to satisfy so that the transactions keep it, where `T` holds
-- of the state and the record that a transaction carries, and `R` of the results.
use config_sync_nginx.Base.{ℕ, suc, String, Bool}
use config_sync_nginx.Base.Dict.{insert}
use config_sync_nginx.Release.Types.{Step, Result}
use config_sync_nginx.State.{Target, TargetState, Record, clone, attach}
use config_sync_nginx.Publisher.World.{World, WriteOutcome, tested, reloaded, emit}
use config_sync_nginx.Publisher.Store.{apply_write, stamp}
use config_sync_nginx.Publisher.Steps.{set_phase, append_step, apply_switch}
use config_sync_nginx.Publisher.Finish.{
  result_of, failed_record, release_active, uncertain_record, uncertain_state, succeeded_record,
  staged_state, committed_state, verified, restored_state, restored_record, add_warning,
}
use config_sync_nginx.Publisher.Command.{tested_record}

-- The view of a target replaced by a copy of the state.
abbrev pub viewed : TargetState → World → World
viewed st w = record w { views = insert st.target.id (clone st) w.views }

abbrev pub asked : World → World
asked w = record w { calls = suc w.calls }

pub record Invariant (S : World → Type 0) (T : TargetState → Record → Type 0) (R : Result → Type 0)
    : Type 0 where
  pub keeps_ask : (w : World) → S w → S (asked w)
  pub keeps_test : (b : Bool) (w : World) → S w → S (emit (tested b) w)
  pub keeps_reload : (b : Bool) (w : World) → S w → S (emit (reloaded b) w)
  pub keeps_block : (reason : String) (w : World) → S w → S (record w { blocked = reason })
  pub keeps_write :
      (o : WriteOutcome) (time : ℕ) (st : TargetState) (rec : Record) (w : World)
      → T st rec
      → S w
      → S (apply_write o (stamp time (attach st rec)) w)
  pub keeps_view :
      (time : ℕ) (st : TargetState) (rec : Record) (w : World)
      → T st rec
      → S w
      → S (viewed (stamp time (attach st rec)) w)
  pub keeps_early_view :
      (st : TargetState) (rec : Record) (w : World) → T st rec → S w → S (viewed (attach st rec) w)
  pub gives_result : (st : TargetState) (rec : Record) → T st rec → R (result_of rec)
  pub for_phase :
      (phase : String) (st : TargetState) (rec : Record) → T st rec → T st (set_phase phase rec)
  pub for_line : (s : Step) (st : TargetState) (rec : Record) → T st rec → T st (append_step s rec)
  pub for_fail :
      (key cause : String) (time : ℕ) (st : TargetState) (rec : Record)
      → T st rec
      → T (release_active st) (failed_record key cause time rec)
  pub for_uncertain :
      (key cause : String) (st : TargetState) (rec : Record)
      → T st rec
      → T (uncertain_state rec st) (uncertain_record key cause rec)
  pub for_stage :
      (phase activation revision : String) (time : ℕ) (st : TargetState) (rec : Record)
      → T st rec
      → T (staged_state revision rec st) (succeeded_record phase activation revision time rec)
  pub for_commit :
      (phase activation revision : String) (at time : ℕ) (st : TargetState) (rec : Record)
      → T st rec
      → T (committed_state revision (record rec { candidate = verified at rec.candidate }) st) (
          succeeded_record phase activation revision time
            (record rec { candidate = verified at rec.candidate }))
  pub for_warning :
      (warning : String) (st : TargetState) (rec : Record)
      → T st rec
      → T st (add_warning warning rec)
  pub for_restore :
      (revision : String) (st : TargetState) (rec : Record)
      → T st rec
      → T (restored_state revision rec st) (restored_record revision rec)
  pub for_test :
      (time : ℕ) (st : TargetState) (rec : Record) → T st rec → T st (tested_record time rec)

-- The same for the switch of `latest`.
abbrev pub KeepsSwitch : (World → Type 0) → Target → Type 0
KeepsSwitch S t = (o : WriteOutcome) (link : String) (w : World) → S w → S (apply_switch o t link w)

-- The same invariant with a weaker claim on the results.
pub weaken :
    {S : World → Type 0} {T : TargetState → Record → Type 0} {R U : Result → Type 0}
    → ((r : Result) → R r → U r)
    → Invariant S T R
    → Invariant S T U
weaken f inv = record {
  keeps_ask = inv.keeps_ask;
  keeps_test = inv.keeps_test;
  keeps_reload = inv.keeps_reload;
  keeps_block = inv.keeps_block;
  keeps_write = inv.keeps_write;
  keeps_view = inv.keeps_view;
  keeps_early_view = inv.keeps_early_view;
  gives_result = λ st rec t. f (result_of rec) (inv.gives_result st rec t);
  for_phase = inv.for_phase;
  for_line = inv.for_line;
  for_fail = inv.for_fail;
  for_uncertain = inv.for_uncertain;
  for_stage = inv.for_stage;
  for_commit = inv.for_commit;
  for_warning = inv.for_warning;
  for_restore = inv.for_restore;
  for_test = inv.for_test;
}
