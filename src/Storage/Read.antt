-- ===== src/Storage/Read.antt =====
-- get_state of aep_core/core/storage.py. The decoding of a raw text, the field rules of the model and
-- the migrators, which do not raise, are arguments.
pub mod Found
use research_paper_aep.Base.{Bool, Option, String, if◌then◌else◌, none, some, ◌*◌, ◌==◌}
use research_paper_aep.Redis.{Redis, poison, set}
use research_paper_aep.Storage.Save.{
  Quarantine, SaveError, ambiguous_state, quarantine, state_corruption, storage_operation,
}
use research_paper_aep.Storage.Migrate.{Migration, migrate_schema, migrated}

pub data Decoded {ℓ} (A : Type ℓ) : Type ℓ where
  decoded_as : A → Decoded A
  ambiguous malformed : Decoded A

-- decode_state, SCHEMA_MIGRATIONS and AEPExecutionState
pub record Reader (A V : Type 0) : Type 0 where
  pub decode_state : String → Decoded A
  pub schema_version : A → Option String
  pub migrators : Option String → Option (A → A)
  pub model_validate : A → Option V
  pub execution_id_of : V → String

-- The answer of _read_raw_state: a UnicodeError, another exception, no value, or a text.
pub data RawRead : Type 0 where
  undecodable unavailable missing : RawRead
  raw_text : String → RawRead

pub data GetResult (V : Type 0) : Type 0 where
  absent : GetResult V
  found : V → GetResult V
  get_raises : SaveError → GetResult V

-- _quarantine with the raw text given
unfoldable pub quarantine_raw : Quarantine → String → String → String → Redis → Redis
quarantine_raw q id reason raw r =
    if q.succeeds
    then set r (poison id q.epoch_ms) (q.describe reason (some raw)) (some (604800 * 1000))
    else r

module _ {A V : Type 0} (rd : Reader A V) (q : Quarantine) (id : String) (r : Redis) where
  -- the test of the payload's execution_id
  unfoldable pub on_validated : String → Option V → GetResult V × Redis
  unfolding quarantine_raw
  on_validated raw none =
      (get_raises state_corruption, quarantine_raw q id "parse-or-validation" raw r)
  on_validated raw (some v) =
      if rd.execution_id_of v == id then (found v, r) else (get_raises storage_operation, r)

  unfoldable pub on_migrated : String → Migration A → GetResult V × Redis
  unfolding on_validated quarantine_raw
  on_migrated raw (migrated a) = on_validated raw (rd.model_validate a)
  on_migrated raw _ = (get_raises state_corruption, quarantine_raw q id "migration-failed" raw r)

  unfoldable pub on_decoded : String → Decoded A → GetResult V × Redis
  unfolding on_migrated quarantine_raw
  on_decoded raw ambiguous =
      (get_raises ambiguous_state, quarantine_raw q id "ambiguous-serialization" raw r)
  on_decoded raw malformed =
      (get_raises state_corruption, quarantine_raw q id "parse-or-validation" raw r)
  on_decoded raw (decoded_as a) = on_migrated raw (migrate_schema rd.migrators rd.schema_version a)

  unfoldable pub on_read : RawRead → GetResult V × Redis
  unfolding on_decoded quarantine
  on_read undecodable = (get_raises state_corruption, quarantine q id "invalid-serialization" r)
  on_read unavailable = (get_raises storage_operation, r)
  on_read missing = (absent, r)
  on_read (raw_text raw) = on_decoded raw (rd.decode_state raw)

  unfoldable pub get_state : (String → Bool) → RawRead → GetResult V × Redis
  unfolding on_read
  get_state is_canonical read =
      if is_canonical id then on_read read else (get_raises storage_operation, r)
