-- ===== src/Intents/Dispatch.antt =====
-- The two scripts that stand between a durable intent and the call of the provider:
-- _DISPATCH_AUTHORIZATION_SCRIPT_BODY and _PREFLIGHT_SCRIPT_BODY of aep_core/core/intents.py.
pub mod Gate
pub mod Handshake
use research_paper_aep.Base.{Option, String, if◌then◌else◌, leb, len, none, some, ℕ, ◌&&◌}
use research_paper_aep.Lua.Value.{LuaValue, is_table, is_text, lua_eq, num, text, text_of, ◌▸◌}
use research_paper_aep.Lua.Script.{Script, guard, raised, reject, value, ◌>>=◌, ◌>>◌}
use research_paper_aep.Intents.Status.{about_to_fire}
use research_paper_aep.Intents.Cas.Args.{Codec, decoded_or_nil, holds_token, is_status}
use research_paper_aep.Intents.Cas.Header.{member_guard}
use research_paper_aep.Redis.{Redis, dispatch_auth, get, lock, pttl, set, state}

-- ARGV of the preflight; the numbers are those that tonumber reads.
pub record PreflightArgs : Type 0 where
  pub token : String
  pub version : ℕ
  pub intent_id : String
  pub required_ttl_ms : ℕ
  pub digest : String
  pub binding : String
  pub authorization : String

-- ARGV of the authorization
pub record AuthorizeArgs : Type 0 where
  pub token : String
  pub version : ℕ
  pub intent_id : String
  pub digest : String
  pub authorization : String
  pub ttl_ms : ℕ

-- The lines from the decoding to the test of the intent's status, which the two scripts share.
unfoldable pub find_intent : Codec → ℕ → String → String → Script LuaValue
unfolding is_status
find_intent c version intent_id raw = do
  let decoded_state = decoded_or_nil (c.decode raw)
  guard (is_table decoded_state && is_table (decoded_state ▸ "intent_ledger")) 3
  guard (lua_eq (decoded_state ▸ "version") (num version)) 4
  let intent = (decoded_state ▸ "intent_ledger") ▸ intent_id
  guard (is_table intent && is_status intent about_to_fire) 5
  guard (is_text (intent ▸ "canonical_request_binding")) 6
  value intent

-- PTTL below the floor; a negative answer is below every floor
abbrev pub lasts : Option ℕ → ℕ → Script ℕ
lasts none floor = reject 2
lasts (some t) floor = if leb floor t then value t else reject 2

unfoldable pub preflight_of : Codec → String → PreflightArgs → Redis → Option String → Script ℕ
unfolding find_intent member_guard
preflight_of c id a r none = reject 3
preflight_of c id a r (some raw) = do
  member_guard c raw 11 10
  guard (holds_token (get r (lock id)) a.token) 1
  ttl ← lasts (pttl r (lock id)) a.required_ttl_ms
  intent ← find_intent c a.version a.intent_id raw
  guard (lua_eq (intent ▸ "canonical_request_binding") (text a.binding)) 8
  let bound = decoded_or_nil (c.decode (text_of (intent ▸ "canonical_request_binding")))
  guard (is_table bound) 8
  guard (lua_eq (bound ▸ "request_binding_digest") (text a.digest)) 7
  guard (holds_token (get r (dispatch_auth id a.intent_id)) a.authorization) 9
  value ttl

-- The preflight reads only; a pass is the lease's remaining time.
unfoldable pub preflight : Codec → String → PreflightArgs → Redis → Script ℕ
unfolding preflight_of
preflight c id a r = preflight_of c id a r (get r (state id))

unfoldable pub may_authorize :
    Codec → String → AuthorizeArgs → Redis → Option String → Script (Unit {0})
unfolding find_intent member_guard
may_authorize c id a r none = reject 3
may_authorize c id a r (some raw) = do
  member_guard c raw 11 10
  guard (holds_token (get r (lock id)) a.token) 1
  intent ← find_intent c a.version a.intent_id raw
  let bound = decoded_or_nil (c.decode (text_of (intent ▸ "canonical_request_binding")))
  guard (is_table bound) 6
  guard (lua_eq (bound ▸ "request_binding_digest") (text a.digest)) 7
  guard (leb 1 a.ttl_ms) 8
  guard (leb 16 (len a.authorization)) 8

unfoldable pub record_authorization :
    String → AuthorizeArgs → Redis → Script (Unit {0}) → Script ℕ × Redis
record_authorization id a r (value _) =
    (value 1, set r (dispatch_auth id a.intent_id) a.authorization (some a.ttl_ms))
record_authorization id a r (reject n) = (reject n, r)
record_authorization id a r raised = (raised, r)

unfoldable pub authorize : Codec → String → AuthorizeArgs → Redis → Script ℕ × Redis
unfolding may_authorize record_authorization
authorize c id a r = record_authorization id a r (may_authorize c id a r (get r (state id)))
