-- ===== src/Intents/Cas/Header.antt =====
-- The intent script from its reads to the members that it may not change: the raw texts, the lease,
-- the version fence, the managed-state marker and the frame. aep_core/core/intents.py
use research_paper_aep.Base.{
  Bool, Option, String, false, leb, nat_eq, none, not, some, ℕ, ◌&&◌, ◌==◌, ◌||◌,
}
use research_paper_aep.Lua.Value.{
  LuaKey, LuaValue, at, index, is_nil, is_num, is_table, lua_eq, name, pairs, text, ◌▸◌,
}
use research_paper_aep.Lua.Script.{Script, each, guard, reject, value, ◌>>◌}
use research_paper_aep.Lua.Equal.{deep_equal}
use research_paper_aep.Intents.Cas.Args.{
  CasArgs, Codec, decoded_or_nil, has_value, holds_token, is_some_of, next_version,
}

-- aep_json_member_check on one raw text: 1 for a duplicate member, other codes for invalid text
unfoldable pub member_guard : Codec → String → ℕ → ℕ → Script (Unit {0})
member_guard c raw duplicate invalid =
    guard (not (nat_eq (c.member_check raw) 1)) duplicate
    >> guard (nat_eq (c.member_check raw) 0) invalid

-- From the first GET to the test of the shape of both decoded states.
unfoldable pub read_states :
    Codec → CasArgs → Option String → Option String → Script (LuaValue × LuaValue)
unfolding member_guard
read_states c a none holder = reject 2
read_states c a (some raw) holder = do
  member_guard c raw 11 10
  member_guard c a.payload 13 12
  guard (holds_token holder a.token) 3
  let current = decoded_or_nil (c.decode raw)
  let candidate = decoded_or_nil (c.decode a.payload)
  guard (is_table current && is_num (current ▸ "version") && is_table (current ▸ "intent_ledger")) 2
  guard (is_table candidate && is_table (candidate ▸ "intent_ledger")) 12
  value (current, candidate)

abbrev pub positive : Option ℕ → Bool
positive none = false
positive (some n) = leb 1 n

-- The version fence, the identity of the execution, and the managed-state marker.
unfoldable pub fence : CasArgs → LuaValue → LuaValue → Script (Unit {0})
fence a current candidate = do
  guard
      (is_some_of a.expected (current ▸ "version")
        && is_some_of (next_version a.expected) (candidate ▸ "version"))
      1
  guard (positive a.ttl) 5
  guard
      (lua_eq (current ▸ "execution_id") (candidate ▸ "execution_id")
        && lua_eq (current ▸ "schema_version") (candidate ▸ "schema_version"))
      5
  let marked = has_value (current ▸ "phase2_managed")
  guard (not marked || lua_eq (current ▸ "phase2_managed") (text a.marker)) 2
  guard (lua_eq (candidate ▸ "phase2_managed") (text a.marker)) 8
  guard (not marked || lua_eq (candidate ▸ "phase2_managed") (current ▸ "phase2_managed")) 8

-- the members that the script may change
abbrev pub is_managed : LuaKey → Bool
is_managed (name s) =
    s == "version"
    || (s == "status" || (s == "updated_at" || (s == "intent_ledger" || s == "phase2_managed")))
is_managed (at n) = false

-- The two loops that keep every other member as it is.
unfoldable pub frame : LuaValue → LuaValue → Script (Unit {0})
frame current candidate =
    each (pairs current) (λ (k, v). guard (is_managed k || deep_equal v (index candidate k)) 5)
    >> each (pairs candidate) (λ (k, v). guard (not (is_nil (index current k)) || is_managed k) 5)
