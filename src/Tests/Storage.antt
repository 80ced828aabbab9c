-- ===== src/Tests/Storage.antt =====
use research_paper_aep.Base.{
  Bool, Option, String, false, if◌then◌else◌, none, refl, some, true, ℕ, ◌*◌, ◌+◌, ◌==◌, ◌≡◌, ◌≢◌,
  ◌⊎◌,
}
use research_paper_aep.Lua.Value.{LuaValue, done, field, find, name, num, table, text, ◌▸◌}
use research_paper_aep.Lua.Script.{reject, value}
use research_paper_aep.Redis.{Redis, get, lock, same_key, set, state}
use research_paper_aep.Intents.Cas.Args.{Codec}
use research_paper_aep.Intents.Cas.Accepted.{stored}
use research_paper_aep.Storage.Cas.{
  SaveArgs, against_stored, base_cas, is_protected, may_save, save_outcome, stored_text,
  versions_in_range,
}
use research_paper_aep.Storage.Cas.Protected.{base_cas_unmanaged}
use research_paper_aep.Intents.Cas.Header.{member_guard}
use research_paper_aep.Storage.Save.{
  Quarantine, SaveCall, answered, lost_after, on_code, raises, refused, save_args, save_state,
  saved, storage_operation,
}
use research_paper_aep.Storage.Save.Frame.{SameButPoison, Unheard, save_state_outcome}
use research_paper_aep.Storage.Migrate.{migrate_loop, migrate_schema, migrated}
use research_paper_aep.Storage.Migrate.Chain.{Chain}

-- A save of a state that no intent has touched.

abbrev plain : ℕ → LuaValue
plain v = table (field (name "version") (num v) (field (name "status") (text "PROCESSING") done))

abbrev plain_codec : Codec
plain_codec = record {
  member_check = λ _. 0;
  decode = λ s.
      if s == "plain-1" then some (plain 1) else if s == "plain-2" then some (plain 2) else none;
}

abbrev cas_args : SaveArgs
cas_args = record {
  payload = "plain-2";
  incoming = some 2;
  expected = some 1;
  token = "token-a";
  ttl = 172800;
}

abbrev plain_redis : Redis
plain_redis =
    set (set (record { clock = 0; cell = λ _. none }) (lock "e1") "token-a" (some 60000))
      (state "e1") "plain-1" (some 172800000)

written_once : (base_cas plain_codec "e1" cas_args plain_redis).0 ≡ value 1
unfolding base_cas save_outcome may_save stored_text versions_in_range against_stored is_protected
    member_guard get set same_key find
written_once = refl

-- the same save once more is stale
saved_twice :
    (base_cas plain_codec "e1" cas_args (base_cas plain_codec "e1" cas_args plain_redis).1).0
    ≡ reject 1
unfolding base_cas save_outcome may_save stored_text versions_in_range against_stored is_protected
    member_guard get set same_key find
saved_twice = refl

base_cas_unmanaged_example :
    (n : ℕ) × (cas_args.expected ≡ some n)
    × (get plain_redis (lock "e1") ≡ some cas_args.token)
    × (is_protected (stored plain_codec "e1" plain_redis) ≡ false)
    × (is_protected (plain 2) ≡ false)
    × (plain 2 ▸ "version" ≡ num (n + 1))
    × ((base_cas plain_codec "e1" cas_args plain_redis).1
        ≡ set plain_redis (state "e1") cas_args.payload (some (cas_args.ttl * 1000)))
base_cas_unmanaged_example = base_cas_unmanaged plain_codec "e1" cas_args plain_redis written_once

abbrev call : SaveCall
call = record {
  execution_id = "e1";
  schema_version = "1.0.0";
  version = some 2;
  expected_version = some 1;
  lock_token = "token-a";
  payload = "plain-2";
  ttl_seconds = 172800;
}

abbrev poisoning : Quarantine
poisoning = record { epoch_ms = 1; describe = λ reason raw. reason; succeeds = true }

abbrev known_id : String → Bool
known_id id = id == "e1"

save_returns : (save_state known_id plain_codec poisoning answered call plain_redis).0 ≡ saved
unfolding save_state refused on_code base_cas save_outcome may_save stored_text versions_in_range
    against_stored is_protected member_guard get set same_key find
save_returns = refl

save_state_outcome_example :
    let written = base_cas plain_codec "e1" (save_args call) plain_redis in
    let o = save_state known_id plain_codec poisoning answered call plain_redis in
    (o.0 ≡ saved
      → (refused known_id call ≡ none)
        × (answered ≡ answered)
        × (written.0 ≡ value 1)
        × (o.1 ≡ written.1))
    × (o.0 ≢ saved
        → SameButPoison "e1" plain_redis o.1 ⊎ Unheard storage_operation answered written.1 o)
save_state_outcome_example =
    save_state_outcome known_id plain_codec poisoning answered call plain_redis

-- the reply is lost after the write
save_unheard :
    (save_state known_id plain_codec poisoning lost_after call plain_redis).0
    ≡ raises storage_operation
unfolding save_state refused on_code
save_unheard = refl

-- a state is its version here, and one migrator leads to the current one
abbrev stored_version : String → Option String
stored_version s = some s

abbrev migrators : Option String → Option (String → String)
migrators none = none
migrators (some v) = if v == "0.9.0" then some (λ _. "1.0.0") else none

one_step : migrate_schema migrators stored_version "0.9.0" ≡ migrated "1.0.0"
unfolding migrate_schema migrate_loop
one_step = refl
