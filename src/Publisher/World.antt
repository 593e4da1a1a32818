-- ===== src/Publisher/World.antt =====
-- What the transactions of a node read and change. The state of the process and of the disk is
-- `World`; what the system around it answers is `Node`, a function of the number of calls made
-- so far, so that two calls may be answered differently.
use config_sync_nginx.Base.{
  ℕ, suc, String, Bool, true, false, List, ◌∷◌, Option, none, some, Error, Fallible, ok, err,
}
use config_sync_nginx.Base.Dict.{Dict}
use config_sync_nginx.Release.Types.{ReleaseType, ApplyRequest}
use config_sync_nginx.State.{Target, TargetState, Version}

-- The fields of `config.Config` that the transactions read; `repos` gives the URL of each.
pub record Config : Type 0 where
  pub node_id : String
  pub env : String
  pub data_dir : String
  pub release_auth_tokens : Dict String
  pub repos : Dict String
  pub max_dynamic_targets : ℕ
  pub targets : List Target

-- The contexts whose end the code asks for: that of the caller with the deadline of the execution,
-- the deadline alone, that of a recovery, and that of the start.
pub data Context : Type 0 where
  prepare_context critical_context command_context recovery_context startup_context : Context

-- A write of the state file is in place, or failed before the rename, or failed behind it.
pub data WriteOutcome : Type 0 where
  written : WriteOutcome
  not_written : Error → WriteOutcome
  torn : Error → WriteOutcome

-- The operating system, Git, ORAS and nginx, and the file operations of a snapshot. The first
-- argument counts the calls made before.
pub record Node : Type 0 where
  pub config : Config
  pub now : ℕ → ℕ
  pub fresh_id : ℕ → String
  pub fingerprint : ApplyRequest → String → String → String
  pub context_error : ℕ → Context → Option Error
  pub canonical : ℕ → String → Fallible String
  pub target_for_env : ℕ → ReleaseType → String → String → String → String → Fallible Target
  pub try_lock : ℕ → Option Error
  pub write_state : ℕ → TargetState → WriteOutcome
  pub read_states : ℕ → Option Error
  pub read_state : ℕ → String → Option Error
  pub claim_target : ℕ → Target → Option Error
  pub open_target : ℕ → Target → Option Error
  pub read_dir : ℕ → Target → Fallible (List String)
  pub read_link : ℕ → Target → Option Error
  pub switch_link : ℕ → Target → String → WriteOutcome
  pub resolves_digests : Bool
  pub resolve_digest : ℕ → Target → String → Fallible String
  pub pull : ℕ → Target → String → String → String × Option Error
  pub checkout : ℕ → ApplyRequest → Target → String × String × Option Error
  pub prepare_snapshot : ℕ → Target → String → String → String → String → Fallible Version
  pub verify_snapshot : ℕ → Target → Version → Option Error
  pub install_assets : ℕ → Target → Version → Option Error
  pub reports_output : Bool
  pub nginx_test : ℕ → String × Option Error
  pub nginx_reload : ℕ → String × Option Error
  pub runtime_verify : ℕ → Target → String → Bool → Option Error
  pub verify_frontend_http : ℕ → Target → Version → Option Error
  pub verify_retained_assets : ℕ → Target → TargetState → Option Version → Option Error
  pub cleanup_snapshots : ℕ → Target → TargetState → Option Error

-- The calls with an outside effect that were made, the last one first. A switch remembers what the
-- disk held for the target at that time; a test and a reload say whether they succeeded.
pub data Event : Type 0 where
  saved : String → Event
  switched : String → String → Option TargetState → Event
  tested reloaded : Bool → Event

-- The fields of `Runner` that change, the state files, the links `latest` by deployment directory,
-- and the calls made.
pub record World : Type 0 where
  pub calls : ℕ
  pub disk : Dict TargetState
  pub views : Dict TargetState
  pub blocked : String
  pub stopping : Bool
  pub busy : Bool
  pub locked : Bool
  pub links : Dict String
  pub trace : List Event

abbrev pub Action {ℓ} : Type ℓ → Type ℓ
Action A = World → A × World

infixl 5 ◌>>=◌ ◌>>◌
unfoldable pub ◌>>=◌ {ℓ κ} : {A : Type ℓ} {B : Type κ} → Action A → (A → Action B) → Action B
◌>>=◌ m f w = f (m w).0 (m w).1

unfoldable pub pure {ℓ} : {A : Type ℓ} → A → Action A
pure a w = (a, w)

unfoldable pub ◌>>◌ {ℓ} : {B : Type ℓ} → Action (Unit {0}) → Action B → Action B
unfolding ◌>>=◌
m >> k = m >>= λ _. k

-- A call whose result is not used.
unfoldable pub discard {ℓ} : {A : Type ℓ} → Action A → Action (Unit {0})
unfolding ◌>>=◌ pure
discard m = m >>= λ _. pure tt

-- One answer of the system.
unfoldable pub ask {ℓ} : {A : Type ℓ} → (ℕ → A) → Action A
ask f w = (f w.calls, record w { calls = suc w.calls })

unfoldable pub gets {ℓ} : {A : Type ℓ} → (World → A) → Action A
gets f w = (f w, w)

unfoldable pub modify : (World → World) → Action (Unit {0})
modify f w = (tt, f w)

abbrev pub emit : Event → World → World
emit e w = record w { trace = e ∷ w.trace }

-- A test between two ways to go on, which stays a test until a proof opens it.
infix 1 if◌then◌else◌
unfoldable pub if◌then◌else◌ {ℓ} : {A : Type ℓ} → Bool → A → A → A
if true then x else y = x
if false then x else y = y

-- `if err != nil { return … }`, and the rest.
unfoldable pub on_error {ℓ} : {A : Type ℓ} → Option Error → (Error → A) → A → A
on_error none handle rest = rest
on_error (some e) handle rest = handle e

unfoldable pub on_fail {ℓ κ} : {A : Type ℓ} {B : Type κ} → Fallible A → (Error → B) → (A → B) → B
on_fail (ok a) handle rest = rest a
on_fail (err e) handle rest = handle e

unfoldable pub on_none {ℓ κ} : {A : Type ℓ} {B : Type κ} → Option A → B → (A → B) → B
on_none none missing rest = missing
on_none (some a) missing rest = rest a
