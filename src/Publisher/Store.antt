-- ===== src/Publisher/Store.antt =====
-- internal/infrastructure/state/store.go, and `save`, `publish`, `load`, `block` of
-- internal/application/publisher/runner.go. The file of a target is read as the state that its JSON
-- decodes to; that the directory is opened again when it was removed is part of the answer of the system.
use config_sync_nginx.Base.{
  ℕ, String, Bool, true, false, ◌&&◌, ◌||◌, not, List, [], ◌∷◌, Option, none, some, Error, Fallible,
  ok, err, other, not_exist, nat_eq, length, is_some, ◌==◌, ◌<>◌,
}
use config_sync_nginx.Base.Dict.{Dict, lookup, insert}
use config_sync_nginx.Base.Text.{codes}
use config_sync_nginx.Release.Identity.{is_id, valid_target_id}
use config_sync_nginx.State.{TargetState, Record, clone}
use config_sync_nginx.Publisher.World.{
  if◌then◌else◌, Node, World, Action, WriteOutcome, written, not_written, torn, saved, ◌>>=◌, ◌>>◌,
  pure, ask, gets, modify, emit, on_error, on_fail,
}

-- The test of each record in `loadLocked`.
unfoldable pub is_valid_record : String → String → Record → Bool
unfolding is_id
is_valid_record target_id id rec =
    id == rec.request.release_id && is_id id && rec.result.target_id == target_id

unfoldable pub are_valid_records : String → Dict Record → Bool
unfolding is_valid_record
are_valid_records target_id [] = true
are_valid_records target_id ((id, rec) ∷ rs) =
    is_valid_record target_id id rec && are_valid_records target_id rs

-- The tests of `loadLocked` behind the decoding.
unfoldable pub check_state : String → TargetState → Fallible TargetState
unfolding are_valid_records
check_state id st =
    if not (nat_eq st.schema 2) || not (st.target.id == id) || not (is_id st.revision)
    then err (other ("invalid state schema for " <> id))
    else if are_valid_records st.target.id st.records
    then ok st
    else err (other "invalid release record")

-- The file of a target, where the system lets it be read.
unfoldable pub decode_file : String → Option TargetState → Option Error → Fallible TargetState
unfolding check_state
decode_file id file (some e) = err e
decode_file id none none = err not_exist
decode_file id (some st) none = check_state id st

-- `allLocked`: the files whose name is 64 bytes and `.json`.
unfoldable pub load_each : Dict TargetState → Fallible (List TargetState)
unfolding check_state
load_each [] = ok []
load_each ((id, st) ∷ files) =
    let rest = load_each files in
    if nat_eq (length (codes id)) 64
    then on_fail (check_state id st) err (λ s. on_fail rest err (λ ss. ok (s ∷ ss)))
    else rest

-- Whether a release_id of the records is among those seen.
unfoldable pub repeats : Dict Record → Dict (Unit {0}) → Bool
unfolding lookup
repeats [] ids = false
repeats ((id, rec) ∷ rs) ids = is_some (lookup id ids) || repeats rs ids

unfoldable pub add_ids : Dict Record → Dict (Unit {0}) → Dict (Unit {0})
unfolding insert
add_ids [] ids = ids
add_ids ((id, rec) ∷ rs) ids = add_ids rs (insert id tt ids)

-- The loop of `Runner.load`: the views by target, unless a release_id occurs twice.
unfoldable pub index_states :
    List TargetState → Dict (Unit {0}) → Dict TargetState → Fallible (Dict TargetState)
unfolding repeats add_ids
index_states [] ids next = ok next
index_states (st ∷ sts) ids next =
    let rest = index_states sts (add_ids st.records ids) (insert st.target.id st next) in
    if repeats st.records ids then err (other "duplicate release_id in persistent state") else rest

-- The record `st` with the time of the write, as `Save` stamps it.
unfoldable pub stamp : ℕ → TargetState → TargetState
stamp t st = record st { updated_at = t }

-- The disk behind a write, and the error that `AtomicWrite` returns.
unfoldable pub apply_write : WriteOutcome → TargetState → World → World
unfolding insert clone
apply_write written st w =
    emit (saved st.target.id) (record w { disk = insert st.target.id (clone st) w.disk })
apply_write (not_written e) st w = w
apply_write (torn e) st w = record w { disk = insert st.target.id (clone st) w.disk }

unfoldable pub write_error : WriteOutcome → Option Error
write_error written = none
write_error (not_written e) = some e
write_error (torn e) = some e

-- `block`.
unfoldable pub block : String → Action (Unit {0})
unfolding modify
block reason = modify (λ w. record w { blocked = reason })

-- `publish`.
unfoldable pub publish : TargetState → Action (Unit {0})
unfolding modify insert clone
publish st = modify (λ w. record w { views = insert st.target.id (clone st) w.views })

module _ (n : Node) where
  -- `Store.Load`.
  unfoldable pub store_load : String → Action (Fallible TargetState)
  unfolding decode_file valid_target_id
  store_load id = if not (valid_target_id id) then pure (err (other "invalid target_id")) else do
    failure ← ask (λ k. n.read_state k id)
    file ← gets (λ w. lookup id w.disk)
    pure (decode_file id file failure)

  -- `Store.All`.
  unfoldable pub store_all : Action (Fallible (List TargetState))
  unfolding load_each
  store_all = do
    failure ← ask n.read_states
    files ← gets (λ w. w.disk)
    pure (on_error failure err (load_each files))

  -- `Store.Save` of a state that is stamped.
  unfoldable pub store_save : TargetState → Action (Option Error)
  unfolding apply_write write_error
  store_save st = do
    outcome ← ask (λ k. n.write_state k st)
    modify (apply_write outcome st)
    pure (write_error outcome)

  -- `Runner.save`.
  unfoldable pub save : TargetState → Action (Option Error)
  unfolding store_save publish
  save st = do
    time ← ask n.now
    failure ← store_save (stamp time st)
    on_error failure (λ e. pure (some e)) (publish (stamp time st) >> pure none)

  -- `Runner.load`.
  unfoldable pub load : Action (Option Error)
  unfolding store_all index_states
  load = do
    states ← store_all
    on_fail states (λ e. pure (some e))
        (λ sts.
          on_fail (index_states sts [] []) (λ e. pure (some e))
            (λ next. modify (λ w. record w { views = next }) >> pure none))
