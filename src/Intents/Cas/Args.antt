-- ===== src/Intents/Cas/Args.antt =====
-- What the intent script is given, and small readings of it. aep_core/core/intents.py
use research_paper_aep.Base.{
  Bool, Option, String, arith, false, if◌then◌else◌, ltb, nat_eq, none, some, true, ℕ, ◌%◌, ◌&&◌,
  ◌+◌, ◌<◌, ◌==◌, ◌≡◌,
}
use research_paper_aep.Lua.Value.{LuaValue, lua_eq, nil, null, num, text, ◌▸◌}
use research_paper_aep.Intents.Status.{IntentStatus, status_text}

-- What the scripts call outside themselves: aep_json_member_check, the strict test of a raw text,
-- and Redis's cjson.decode, which reads a table or fails.
pub record Codec : Type 0 where
  pub member_check : String → ℕ
  pub decode : String → Option LuaValue

-- KEYS and ARGV. The numbers are those that tonumber reads, none where it reads no natural number;
-- the statuses are written by their texts, and ARGV[7] is never read.
pub record CasArgs : Type 0 where
  pub payload : String
  pub token : String
  pub expected : Option ℕ
  pub intent_id : String
  pub old_status : Option IntentStatus
  pub new_status : IntentStatus
  pub ttl : Option ℕ
  pub minimum_ttl : ℕ
  pub marker : String
  pub retention_floor_ms : ℕ
  pub binding : String

abbrev pub ttl_or_zero : Option ℕ → ℕ
ttl_or_zero none = 0
ttl_or_zero (some n) = n

abbrev pub is_some_of : Option ℕ → LuaValue → Bool
is_some_of none v = false
is_some_of (some n) v = lua_eq v (num n)

abbrev pub holds_token : Option String → String → Bool
holds_token none token = false
holds_token (some held) token = held == token

abbrev pub decoded_or_nil : Option LuaValue → LuaValue
decoded_or_nil none = nil
decoded_or_nil (some v) = v

abbrev pub plus_one : Option ℕ → Option ℕ
plus_one none = none
plus_one (some n) = some (n + 1)

-- n + 1 on the doubles of Lua, for a natural n that is one: exact below 2^53. Above, where the doubles
-- lie two apart up to 2^54, the sum lies halfway between two of them and goes to the one with an even
-- significand, and from 2^54 on it is n again.
unfoldable pub lua_successor : ℕ → ℕ
lua_successor n =
    if ltb n 9007199254740992
    then n + 1
    else if ltb n 18014398509481984 && nat_eq (n % 4) 2
    then n + 2
    else n

-- expected + 1
abbrev pub next_version : Option ℕ → Option ℕ
next_version none = none
next_version (some n) = some (lua_successor n)

pub lua_successor_exact : (n : ℕ) → n < 9007199254740992 → lua_successor n ≡ n + 1
unfolding lua_successor
lua_successor_exact n h = ground arith

-- local function has_value
abbrev pub has_value : LuaValue → Bool
has_value nil = false
has_value null = false
has_value _ = true

unfoldable pub is_status : LuaValue → IntentStatus → Bool
is_status record_value s = lua_eq (record_value ▸ "status") (text (status_text s))

-- #new_record.transitions, after the test that it is a table
abbrev pub history : LuaValue → LuaValue
history record_value = record_value ▸ "transitions"
