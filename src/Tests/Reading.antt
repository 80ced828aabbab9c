-- ===== src/Tests/Reading.antt =====
use research_paper_aep.Base.{Option, String, if◌then◌else◌, none, refl, some, true, ◌==◌, ◌≡◌}
use research_paper_aep.Redis.{Redis, get, poison, same_key, set}
use research_paper_aep.Storage.Save.{Quarantine}
use research_paper_aep.Storage.Save.Frame.{SameButPoison}
use research_paper_aep.Storage.Migrate.{migrate_loop, migrate_schema}
use research_paper_aep.Storage.Read.{
  Reader, decoded_as, found, get_state, malformed, on_decoded, on_migrated, on_read, on_validated,
  quarantine_raw, raw_text,
}
use research_paper_aep.Storage.Read.Found.{Origin, get_state-Origin}

-- Reads of a stored state; a dictionary is its schema version here.

abbrev one_migrator : Option String → Option (String → String)
one_migrator none = none
one_migrator (some v) = if v == "0.9.0" then some (λ _. "1.0.0") else none

abbrev reader : Reader String String
reader = record {
  decode_state = λ raw. if raw == "{" then malformed else decoded_as raw;
  schema_version = λ s. some s;
  migrators = one_migrator;
  model_validate = λ s. some s;
  execution_id_of = λ s. "e1";
}

abbrev poisoning : Quarantine
poisoning = record { epoch_ms = 1; describe = λ reason raw. reason; succeeds = true }

abbrev empty : Redis
empty = record { clock = 0; cell = λ _. none }

-- an old state is migrated on the way
old_state_found :
    get_state reader poisoning "e1" empty (λ _. true) (raw_text "0.9.0") ≡ (found "1.0.0", empty)
unfolding get_state on_read on_decoded on_migrated on_validated migrate_schema migrate_loop
old_state_found = refl

-- a corrupt text is described under the poison key
corrupt_quarantined :
    get (get_state reader poisoning "e1" empty (λ _. true) (raw_text "{")).1 (poison "e1" 1)
    ≡ some "parse-or-validation"
unfolding get_state on_read on_decoded quarantine_raw get set same_key
corrupt_quarantined = refl

get_state-Origin_example :
    let o = get_state reader poisoning "e1" empty (λ _. true) (raw_text "0.9.0") in
    ((v : String)
      → o.0 ≡ found v
      → Origin reader poisoning "e1" empty (raw_text "0.9.0") v × (o.1 ≡ empty))
    × SameButPoison "e1" empty o.1
get_state-Origin_example =
    get_state-Origin reader poisoning "e1" empty (λ _. true) (raw_text "0.9.0")
