-- ===== src/Tests/Fixture.antt =====
use research_paper_aep.Base.{List, Option, String, [], if◌then◌else◌, none, some, ℕ, ◌+◌, ◌==◌, ◌∷◌}
use research_paper_aep.Lua.Value.{Fields, LuaValue, at, done, field, name, null, num, table, text}
use research_paper_aep.Redis.{Entry, Redis, dispatch_auth, lock, set, state}
use research_paper_aep.Intents.Status.{about_to_fire, fired_unconfirmed}
use research_paper_aep.Intents.Cas.Args.{CasArgs, Codec}
use research_paper_aep.Intents.Dispatch.{AuthorizeArgs}

-- One execution with one intent: the decoded texts that stand for its stored states, and the calls
-- that move it on.

abbrev members : List (String × LuaValue) → Fields
members [] = done
members ((k, v) ∷ rest) = field (name k) v (members rest)

abbrev items : ℕ → List LuaValue → Fields
items n [] = done
items n (v ∷ rest) = field (at n) v (items (n + 1) rest)

abbrev object : List (String × LuaValue) → LuaValue
object xs = table (members xs)

abbrev audit_entry : String → String → LuaValue
audit_entry old new = object (("old_state", text old) ∷ ("new_state", text new) ∷ [])

-- A record of the ledger. The statuses are written as the source spells them.
abbrev intent_value : String → ℕ → ℕ → String → String → List LuaValue → LuaValue → LuaValue
intent_value i attempt version status_name bound trail reconciliation = object (
    ("intent_id", text i)
    ∷ ("step_id", text "pay")
    ∷ ("attempt", num attempt)
    ∷ ("connector", text "bank")
    ∷ ("target", text "acct")
    ∷ ("request_fingerprint", text "f0")
    ∷ ("canonical_request_binding", text bound)
    ∷ ("correlation_id", text "c1")
    ∷ ("status", text status_name)
    ∷ ("prepared_at", num 100)
    ∷ ("client_timeout_seconds", num 10)
    ∷ ("settlement_lag_seconds", num 0)
    ∷ ("reconcile_after", num 200)
    ∷ ("prepared_state_version", num version)
    ∷ ("reconciliation", reconciliation)
    ∷ ("transitions", table (items 1 trail))
    ∷ ("risk_acceptance_id", null)
    ∷ [])

abbrev state_value : ℕ → String → LuaValue → List (String × LuaValue) → LuaValue
state_value version status_name marker ledger = object (
    ("execution_id", text "e1")
    ∷ ("status", text status_name)
    ∷ ("version", num version)
    ∷ ("schema_version", text "1.0.0")
    ∷ ("intent_ledger", object ledger)
    ∷ ("phase2_managed", marker)
    ∷ ("updated_at", num 7)
    ∷ [])

abbrev pub binding_value : String → LuaValue
binding_value i = object (
    ("execution_id", text "e1")
    ∷ ("step_id", text "pay")
    ∷ ("intent_id", text i)
    ∷ ("correlation_id", text "c1")
    ∷ ("connector_operation", text "bank")
    ∷ ("request_fingerprint", text "f0")
    ∷ ("request_binding_digest", text "d1")
    ∷ ("retention_not_after_ms", num 5000000000)
    ∷ [])

abbrev marked : LuaValue
marked = text "intent-ledger-v1"

abbrev progress_value : LuaValue
progress_value = object (("attempt_count", num 0) ∷ ("next_check_at", num 200) ∷ [])

abbrev prepared_trail : LuaValue
prepared_trail = audit_entry "NONE" "ABOUT_TO_FIRE"

abbrev failed_value : LuaValue
failed_value =
    intent_value "i1" 1 2 "FAILED_CONFIRMED" "bind"
      (prepared_trail ∷ audit_entry "ABOUT_TO_FIRE" "FAILED_CONFIRMED" ∷ []) null

abbrev decode_text : String → Option LuaValue
decode_text raw =
    if raw == "new"
    then some (state_value 1 "IDLE" null [])
    else if raw == "prepared"
    then some (
        state_value 2 "PROCESSING" marked
          (("i1", intent_value "i1" 1 2 "ABOUT_TO_FIRE" "bind" (prepared_trail ∷ []) null) ∷ []))
    else if raw == "doubtful"
    then some (
        state_value 3 "PAUSED" marked (
          (
            "i1",
            intent_value "i1" 1 2 "FIRED_UNCONFIRMED" "bind"
                (prepared_trail ∷ audit_entry "ABOUT_TO_FIRE" "FIRED_UNCONFIRMED" ∷ [])
                progress_value,
          )
          ∷ []))
    else if raw == "bind"
    then some (binding_value "i1")
    else if raw == "bind2"
    then some (binding_value "i2")
    else if raw == "failed"
    then some (state_value 3 "PROCESSING" marked (("i1", failed_value) ∷ []))
    else if raw == "second"
    then some (
        state_value 4 "PROCESSING" marked (
          ("i1", failed_value)
          ∷ ("i2", intent_value "i2" 2 4 "ABOUT_TO_FIRE" "bind2" (prepared_trail ∷ []) null)
          ∷ []))
    else none

abbrev pub codec : Codec
codec = record { member_check = λ raw. 0; decode = decode_text }

abbrev pub holder_entry : Entry
holder_entry = record { content = "token-a"; expires = some 60000 }

-- A new execution whose lease is held.
abbrev pub start : Redis
start = record {
  clock = 0;
  cell = λ k. elim k [
    | state s ↦ if s == "e1" then some (record { content = "new"; expires = none }) else none
    | lock s ↦ if s == "e1" then some holder_entry else none
    | _ ↦ none
  ];
}

abbrev pub create_args : CasArgs
create_args = record {
  payload = "prepared";
  token = "token-a";
  expected = some 1;
  intent_id = "i1";
  old_status = none;
  new_status = about_to_fire;
  ttl = some 2678400;
  minimum_ttl = 2678400;
  marker = "intent-ledger-v1";
  retention_floor_ms = 2678400007;
  binding = "bind";
}

abbrev pub prepared_redis : Redis
prepared_redis = set start (state "e1") "prepared" (some 2678400000)

abbrev pub doubt_args : CasArgs
doubt_args = record create_args {
  payload = "doubtful";
  expected = some 2;
  old_status = some about_to_fire;
  new_status = fired_unconfirmed;
}

abbrev pub authorize_args : AuthorizeArgs
authorize_args = record {
  token = "token-a";
  version = 2;
  intent_id = "i1";
  digest = "d1";
  authorization = "0123456789abcdef";
  ttl_ms = 25000;
}

abbrev pub authorized_redis : Redis
authorized_redis = set prepared_redis (dispatch_auth "e1" "i1") "0123456789abcdef" (some 25000)

-- The first attempt failed with no effect, and a second one is prepared.
abbrev pub failed_redis : Redis
failed_redis = set start (state "e1") "failed" (some 2678400000)

abbrev pub retry_args : CasArgs
retry_args = record create_args {
  payload = "second";
  expected = some 3;
  intent_id = "i2";
  binding = "bind2";
}
