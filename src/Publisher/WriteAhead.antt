-- ===== src/Publisher/WriteAhead.antt =====
-- The switch of `latest` and the durable state: `activate` of
-- internal/application/publisher/runner.go saves its intent before it touches the link.
pub mod Read
pub mod Intent
pub mod Command
use config_sync_nginx.Base.{
  ℕ, suc, String, Bool, true, [], ◌∷◌, Option, none, some, Error, error_text, ◌≡◌, refl, subst,
  arith, All, eq_refl,
}
use config_sync_nginx.Base.Dict.{Dict, lookup, insert, lookup-insert}
use config_sync_nginx.Release.Types.{Result}
use config_sync_nginx.State.{
  Target, TargetState, Record, clone, persisted_record, persisted_records, attach,
}
use config_sync_nginx.Publisher.World.{
  Action, critical_context, Node, World, Event, saved, switched, tested, reloaded, WriteOutcome,
  written, not_written, torn, ◌>>=◌, ◌>>◌, pure, ask, modify, on_error, if◌then◌else◌,
}
use config_sync_nginx.Publisher.Store.{save, store_save, publish, apply_write, write_error, stamp}
use config_sync_nginx.Publisher.Steps.{set_phase, append_step, apply_switch, step}
use config_sync_nginx.Publisher.Finish.{
  failed_record, release_active, uncertain_record, uncertain_state, succeeded_record, staged_state,
  committed_state, restored_state, restored_record, add_warning, uncertain, restore,
  commit_git_stage,
}
use config_sync_nginx.Publisher.Command.{tested_record}
use config_sync_nginx.Publisher.Activate.{
  intended, candidate_link, activate, guarded_switch, activate_nginx,
}
use config_sync_nginx.Publisher.Gives.{Any}
use config_sync_nginx.Publisher.Invariant.{Invariant}
use config_sync_nginx.Publisher.Laws.Steps.{save-Gives}
use config_sync_nginx.Publisher.Laws.Finish.{uncertain-Gives}
use config_sync_nginx.Publisher.Laws.Command.{switch_and_finish-Gives}

-- The state holds the release with its intent to switch.
abbrev pub HasIntent : String → TargetState → Type 0
HasIntent release_id st =
    (rec : Record) × (lookup release_id st.records ≡ some rec) × (rec.intent ≡ true)

-- A switch was made while the disk held the intent of the release.
abbrev pub IsLogged : String → Event → Type 0
IsLogged release_id (switched id link durable) =
    (st : TargetState) × (durable ≡ some st) × HasIntent release_id st
IsLogged release_id (saved id) = Unit
IsLogged release_id (tested ok) = Unit
IsLogged release_id (reloaded ok) = Unit

abbrev pub AreLogged : String → World → Type 0
AreLogged release_id w = All (IsLogged release_id) w.trace

-- The disk holds the intent of the release for the target.
abbrev pub IsDurable : String → String → World → Type 0
IsDurable release_id target_id w =
    (st : TargetState) × (lookup target_id w.disk ≡ some st) × HasIntent release_id st

abbrev pub IsIntended : String → String → TargetState → Record → Type 0
IsIntended release_id target_id st rec =
    (st.target.id ≡ target_id) × (rec.intent ≡ true) × (rec.request.release_id ≡ release_id)

lookup-persisted :
    (k : String) (rs : Dict Record) {r : Record}
    → lookup k rs ≡ some r
    → lookup k (persisted_records rs) ≡ some (persisted_record r)
unfolding lookup persisted_records
lookup-persisted k [] e = cc
lookup-persisted k ((j, x) ∷ rs) {r} e = ground (arith, lookup-persisted k rs {r = r})

lookup-insert_self :
    (k : String) {V : Type 0} (v : V) (m : Dict V) → lookup k (insert k v m) ≡ some v
lookup-insert_self k v m = simp (lookup-insert, eq_refl)

-- A saved state has the intent of the record that is attached to it.
pub clone-HasIntent :
    (release_id target_id : String) (time : ℕ) (st : TargetState) (rec : Record)
    → IsIntended release_id target_id st rec
    → HasIntent release_id (clone (stamp time (attach st rec)))
unfolding clone stamp attach
clone-HasIntent release_id target_id time st rec (same, intent, id) = (
  persisted_record rec,
  lookup-persisted release_id _ (
      subst (λ k. lookup k (insert rec.request.release_id rec st.records) ≡ some rec) id
        (lookup-insert_self rec.request.release_id rec st.records)),
  intent,
)

insert-IsDurable :
    (release_id target_id : String) (st : TargetState) (m : Dict TargetState)
    → st.target.id ≡ target_id
    → HasIntent release_id st
    → (s : TargetState) × (lookup target_id (insert st.target.id st m) ≡ some s)
      × HasIntent release_id s
insert-IsDurable release_id target_id st m same has = (
  st,
  subst (λ k. lookup k (insert st.target.id st m) ≡ some st) same
      (lookup-insert_self st.target.id st m),
  has,
)

module _ (release_id target_id : String) where
  -- The switches so far were logged, and the disk holds the intent.
  abbrev pub Ready : World → Type 0
  Ready w = AreLogged release_id w × IsDurable release_id target_id w

  write-Ready :
      (o : WriteOutcome) (time : ℕ) (st : TargetState) (rec : Record) (w : World)
      → IsIntended release_id target_id st rec
      → Ready w
      → Ready (apply_write o (stamp time (attach st rec)) w)
  unfolding apply_write
  write-Ready (not_written e) time st rec w t s = s
  write-Ready written time st rec w t s = (
    (tt, s.0),
    insert-IsDurable release_id target_id (clone (stamp time (attach st rec))) w.disk
        (unfold clone stamp attach in t.0) (clone-HasIntent release_id target_id time st rec t),
  )
  write-Ready (torn e) time st rec w t s = (
    s.0,
    insert-IsDurable release_id target_id (clone (stamp time (attach st rec))) w.disk
        (unfold clone stamp attach in t.0) (clone-HasIntent release_id target_id time st rec t),
  )

  -- With the intent on disk, the transactions keep the log and the intent.
  pub ready : Invariant Ready (IsIntended release_id target_id) Any
  unfolding set_phase append_step release_active failed_record uncertain_state uncertain_record
      staged_state succeeded_record committed_state add_warning restored_state restored_record
      tested_record if◌then◌else◌
  ready = record {
    keeps_ask = λ w s. s;
    keeps_test = λ b w s. ((tt, s.0), s.1);
    keeps_reload = λ b w s. ((tt, s.0), s.1);
    keeps_block = λ reason w s. s;
    keeps_write = write-Ready;
    keeps_view = λ time st rec w t s. s;
    keeps_early_view = λ st rec w t s. s;
    gives_result = λ st rec t. tt;
    for_phase = λ phase st rec t. t;
    for_line = λ line st rec t. t;
    for_fail = λ key cause time st rec t. t;
    for_uncertain = λ key cause st rec t. t;
    for_stage = λ phase activation revision time st rec t. t;
    for_commit = λ phase activation revision at time st rec t. t;
    for_warning = λ warning st rec t. t;
    for_restore = λ revision st rec t. t;
    for_test = λ time st rec t. t;
  }

write-AreLogged :
    (release_id : String) (o : WriteOutcome) (st : TargetState) (w : World)
    → AreLogged release_id w
    → AreLogged release_id (apply_write o st w)
unfolding apply_write
write-AreLogged release_id written st w s = (tt, s)
write-AreLogged release_id (not_written e) st w s = s
write-AreLogged release_id (torn e) st w s = s

-- Before the intent is durable, a transaction only keeps the log.
pub calm : (release_id : String) → Invariant (AreLogged release_id) (λ st rec. Unit) Any
calm release_id = record {
  keeps_ask = λ w s. s;
  keeps_test = λ b w s. (tt, s);
  keeps_reload = λ b w s. (tt, s);
  keeps_block = λ reason w s. s;
  keeps_write = λ o time st rec w t s. write-AreLogged release_id o _ w s;
  keeps_view = λ time st rec w t s. s;
  keeps_early_view = λ st rec w t s. s;
  gives_result = λ st rec t. tt;
  for_phase = λ phase st rec t. t;
  for_line = λ line st rec t. t;
  for_fail = λ key cause time st rec t. t;
  for_uncertain = λ key cause st rec t. t;
  for_stage = λ phase activation revision time st rec t. t;
  for_commit = λ phase activation revision at time st rec t. t;
  for_warning = λ warning st rec t. t;
  for_restore = λ revision st rec t. t;
  for_test = λ time st rec t. t;
}

pub switch-Ready :
    (release_id : String) (t : Target) (o : WriteOutcome) (link : String) (w : World)
    → Ready release_id t.id w
    → Ready release_id t.id (apply_switch o t link w)
unfolding apply_switch
switch-Ready release_id t written link w s = ((s.1, s.0), s.1)
switch-Ready release_id t (torn e) link w s = ((s.1, s.0), s.1)
switch-Ready release_id t (not_written e) link w s = s

-- What `save` does behind the write, whose outcome is known.
settle : WriteOutcome → TargetState → Action (Option Error)
settle o st w =
    on_error (write_error o) (λ e. pure (some e)) (publish st >> pure none) (apply_write o st w)

settle-Ready :
    (o : WriteOutcome) (release_id target_id : String) (time : ℕ) (st : TargetState) (rec : Record)
    (w : World)
    → IsIntended release_id target_id st rec
    → AreLogged release_id w
    → (settle o (stamp time (attach st rec)) w).0 ≡ none
    → Ready release_id target_id (settle o (stamp time (attach st rec)) w).1
unfolding settle write_error on_error apply_write publish modify pure ◌>>=◌ ◌>>◌
settle-Ready written release_id target_id time st rec w t s e = (
  (tt, s),
  insert-IsDurable release_id target_id (clone (stamp time (attach st rec))) w.disk
      (unfold clone stamp attach in t.0) (clone-HasIntent release_id target_id time st rec t),
)
settle-Ready (not_written x) release_id target_id time st rec w t s e = absurd (cc)
settle-Ready (torn x) release_id target_id time st rec w t s e = absurd (cc)

-- A save that returns no error has put the intent on disk.
save-Ready :
    (n : Node) (release_id target_id : String) (st : TargetState) (rec : Record) (w : World)
    → IsIntended release_id target_id st rec
    → AreLogged release_id w
    → (save n (attach st rec) w).0 ≡ none
    → Ready release_id target_id (save n (attach st rec) w).1
unfolding save store_save settle ask modify pure ◌>>=◌ ◌>>◌
save-Ready n release_id target_id st rec w t s e =
    settle-Ready (n.write_state (suc w.calls) (stamp (n.now w.calls) (attach st rec))) release_id
      target_id (n.now w.calls) st rec (record w { calls = suc (suc w.calls) }) t s e

-- `activate` behind its first save.
activate_rest : Node → Bool → Target → TargetState → Record → Option Error → Action Result
activate_rest n defer_nginx_commands t st rec₁ failure =
    on_error failure (λ e. uncertain n st rec₁ "STATE_PERSIST_FAILED" (error_text e))
      (step n critical_context st rec₁ "switch" (guarded_switch n t (candidate_link rec₁))
        >>= λ switched.
            on_error switched.1 (λ e. restore n t st switched.0 "ACTIVATION_FAILED" (error_text e))
              (if defer_nginx_commands
                then commit_git_stage n st switched.0
                else activate_nginx n t st switched.0))

activate_rest-AreLogged :
    (n : Node) (release_id : String) (defer_nginx_commands : Bool) (t : Target) (st : TargetState)
    (rec₁ : Record) (failure : Option Error) (w : World)
    → IsIntended release_id t.id st rec₁
    → AreLogged release_id w
    → (failure ≡ none → Ready release_id t.id w)
    → AreLogged release_id (activate_rest n defer_nginx_commands t st rec₁ failure w).1
unfolding activate_rest on_error
activate_rest-AreLogged n release_id defer_nginx_commands t st rec₁ none w i s r =
    ((switch_and_finish-Gives n (ready release_id t.id) t (switch-Ready release_id t)
        defer_nginx_commands st rec₁ (candidate_link rec₁) i).at
      w (r refl)).1.0
activate_rest-AreLogged n release_id defer_nginx_commands t st rec₁ (some e) w i s r =
    ((uncertain-Gives n (calm release_id) st rec₁ _ _ tt).at w s).1

module _ (n : Node) (defer_nginx_commands : Bool) (t : Target) (st : TargetState) (rec : Record)
    (w : World) (same : st.target.id ≡ t.id) (logged : AreLogged rec.request.release_id w) where
  -- Every switch of `latest` that `activate` makes, its own and that of its recovery, is made while
  -- the disk holds the release with `switch_intent`, whatever the system answers: if the trace had
  -- only such switches before, it has only such switches afterwards.
  pub activate-AreLogged :
      AreLogged rec.request.release_id (activate n defer_nginx_commands t st rec w).1
  unfolding activate activate_rest intended set_phase ◌>>=◌
  activate-AreLogged =
      activate_rest-AreLogged n rec.request.release_id defer_nginx_commands t st (intended rec)
        (save n (attach st (intended rec)) w).0 (save n (attach st (intended rec)) w).1
        (same, refl, refl)
        ((save-Gives n (calm rec.request.release_id) st (intended rec) tt).at w logged).1
        (save-Ready n rec.request.release_id t.id st (intended rec) w (same, refl, refl) logged)
