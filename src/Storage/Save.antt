-- ===== src/Storage/Save.antt =====
-- save_state of aep_core/core/storage.py, and lua_state_validation_failure of
-- aep_core/core/state_codec.py. A return code -n is the reject n of the script.
pub mod Frame
use research_paper_aep.Base.{
  Bool, Option, String, false, if◌then◌else◌, leb, nat_eq, none, not, some, ℕ, ◌&&◌, ◌*◌, ◌==◌,
  ◌||◌,
}
use research_paper_aep.Redis.{Redis, get, poison, set, state}
use research_paper_aep.Lua.Script.{Script, raised, reject, value}
use research_paper_aep.Intents.Cas.Args.{Codec}
use research_paper_aep.Storage.Cas.{SaveArgs, base_cas, max_safe_version}

-- The exceptions; AmbiguousStateError is a StateCorruptionError.
pub data SaveError : Type 0 where
  storage_operation stale_write state_corruption ambiguous_state state_serialization
        lock_acquisition phase2_protection :
      SaveError

pub data SaveResult : Type 0 where
  saved : SaveResult
  raises : SaveError → SaveResult

-- the exception and the reason of the quarantine
unfoldable pub lua_state_validation_failure : ℕ → Option (SaveError × Option String)
lua_state_validation_failure n =
    if nat_eq n 10
    then some (state_corruption, some "invalid-serialization")
    else if nat_eq n 11
    then some (ambiguous_state, some "ambiguous-serialization")
    else if nat_eq n 12 || nat_eq n 13
    then some (state_serialization, none)
    else none

-- What a quarantine adds to the call: the time of the caller, the JSON body that describes the raw text
-- under a reason, and whether the write goes through; _quarantine swallows its failures.
pub record Quarantine : Type 0 where
  pub epoch_ms : ℕ
  pub describe : String → Option String → String
  pub succeeds : Bool

-- _quarantine where no raw text is given. The reasons that save_state uses are safe ones.
unfoldable pub quarantine : Quarantine → String → String → Redis → Redis
quarantine q id reason r =
    if q.succeeds
    then set r (poison id q.epoch_ms) (q.describe reason (get r (state id))) (some (604800 * 1000))
    else r

-- The arguments of save_state and the fields of the state that it reads; a version is none where it is
-- no int, a bool, or negative.
pub record SaveCall : Type 0 where
  pub execution_id : String
  pub schema_version : String
  pub version : Option ℕ
  pub expected_version : Option ℕ
  pub lock_token : String
  pub payload : String
  pub ttl_seconds : ℕ

abbrev pub in_range : ℕ → ℕ → Option ℕ → Bool
in_range low high none = false
in_range low high (some n) = leb low n && leb n high

-- The tests before the script; is_canonical is validate_execution_id.
unfoldable pub refused : (String → Bool) → SaveCall → Option SaveError
refused is_canonical a =
    if not (is_canonical a.execution_id)
    then some storage_operation
    else if not (a.schema_version == "1.0.0")
    then some storage_operation
    else if not (in_range 1 max_safe_version a.version)
    then some storage_operation
    else if not (in_range 0 9007199254740990 a.expected_version)
    then some storage_operation
    else if a.lock_token == ""
    then some lock_acquisition
    else none

abbrev pub save_args : SaveCall → SaveArgs
save_args a = record {
  payload = a.payload;
  incoming = a.version;
  expected = a.expected_version;
  token = a.lock_token;
  ttl = a.ttl_seconds;
}

abbrev pub quarantine_reason : Option String → String → String
quarantine_reason none reason = reason
quarantine_reason (some invalid) reason =
    if reason == "invalid-serialization" then invalid else reason

-- _raise_lua_state_validation on what the table of failures answers; invalid_state_reason comes first
unfoldable pub raise_validation :
    Option String → Quarantine → String → Redis → SaveError × Option String → SaveResult × Redis
unfolding quarantine
raise_validation invalid q id r (e, none) = (raises e, r)
raise_validation invalid q id r (e, some reason) =
    (raises e, quarantine q id (quarantine_reason invalid reason) r)

-- The codes that the table of validation failures does not have
unfoldable pub other_code : Quarantine → String → Redis → ℕ → SaveResult × Redis
unfolding quarantine
other_code q id r n =
    if nat_eq n 1
    then (raises stale_write, r)
    else if nat_eq n 2
    then (raises state_corruption, quarantine q id "corrupt-at-write" r)
    else if nat_eq n 3
    then (raises lock_acquisition, r)
    else if nat_eq n 4
    then (raises phase2_protection, r)
    else (raises storage_operation, r)

unfoldable pub on_code : Quarantine → String → Script ℕ → Redis → SaveResult × Redis
unfolding raise_validation other_code lua_state_validation_failure
on_code q id raised r = (raises storage_operation, r)
on_code q id (value n) r = if nat_eq n 1 then (saved, r) else (raises storage_operation, r)
on_code q id (reject n) r = elim (lua_state_validation_failure n) [
  | none ↦ other_code q id r n
  | some failure ↦ raise_validation (some "corrupt-at-write") q id r failure
]

-- What becomes of the call of a script: its answer arrives, or the client raises, before the script has
-- run or after.
pub data Reply : Type 0 where
  answered lost_before lost_after : Reply

abbrev pub delivered : Reply → Redis → Script ℕ × Redis → Script ℕ × Redis
delivered answered r o = o
delivered lost_before r o = (raised, r)
delivered lost_after r o = (raised, o.1)

unfoldable pub save_state :
    (String → Bool) → Codec → Quarantine → Reply → SaveCall → Redis → SaveResult × Redis
unfolding refused on_code base_cas
save_state is_canonical c q reply a r = elim (refused is_canonical a) [
  | some e ↦ (raises e, r)
  | none ↦
      let written = delivered reply r (base_cas c a.execution_id (save_args a) r) in
      on_code q a.execution_id written.0 written.1
]
