-- ===== src/Intents/Dispatch/Handshake.antt =====
use research_paper_aep.Base.{
  Option, String, ap, eq_refl, false, leb, leb→le, le→leb, none, refl, some, subst, true, ℕ, ◌<◌,
  ◌∙◌, ◌≡◌, ◌≤◌,
}
use research_paper_aep.Lua.Value.{LuaValue, is_table, lua_eq, text, text_of, ◌▸◌}
use research_paper_aep.Lua.Script.{
  >>-eq-value, >>=-eq-value, Script, guard-eq-value_rest, raised, reject, value,
}
use research_paper_aep.Intents.Cas.Args.{Codec, decoded_or_nil, holds_token}
use research_paper_aep.Intents.Cas.Header.{member_guard}
use research_paper_aep.Redis.{Redis, RedisKey, dispatch_auth, get, lock, pttl, same_key, set, state}
use research_paper_aep.Intents.Dispatch.{
  AuthorizeArgs, PreflightArgs, authorize, find_intent, may_authorize, preflight, preflight_of,
  record_authorization,
}
use research_paper_aep.Intents.Cas.Accepted.{decoded, stored}
use research_paper_aep.Intents.Cas.Fence.{holds_token-true}
use research_paper_aep.Intents.Cas.History.{record_of}
use research_paper_aep.Redis.Laws.{get-set_ne, get-set_self, pttl-set_ne}
use research_paper_aep.Intents.Dispatch.Gate.{find_intent-parts}

-- How an authorization meets the preflight that follows it.

-- What a granted authorization has passed, for a state whose raw text is known.
record Granted (c : Codec) (id : String) (a : AuthorizeArgs) (r : Redis) (raw : String)
    : Type 0 where
  clean : member_guard c raw 11 10 ≡ value tt
  held : holds_token (get r (lock id)) a.token ≡ true
  intent : LuaValue
  found : find_intent c a.version a.intent_id raw ≡ value intent
  bound :
      is_table (decoded_or_nil (c.decode (text_of (intent ▸ "canonical_request_binding")))) ≡ true
  digest :
      lua_eq
        (decoded_or_nil (c.decode (text_of (intent ▸ "canonical_request_binding")))
          ▸ "request_binding_digest")
        (text a.digest)
      ≡ true
  lasting : 0 < a.ttl_ms

may_authorize-Granted :
    (c : Codec) (id : String) (a : AuthorizeArgs) (r : Redis) (raw : String)
    → may_authorize c id a r (some raw) ≡ value tt
    → Granted c id a r raw
unfolding may_authorize
may_authorize-Granted c id a r raw h =
    let (clean, h1) = >>-eq-value (member_guard c raw 11 10) _ h in
    let (held, h2) = guard-eq-value_rest (holds_token (get r (lock id)) a.token) 1 _ h1 in
    let (intent, found, h3) = >>=-eq-value (find_intent c a.version a.intent_id raw) _ h2 in
    let (bound, h4) = guard-eq-value_rest _ 6 _ h3 in
    let (digest, h5) = guard-eq-value_rest _ 7 _ h4 in
    let (lasting, h6) = guard-eq-value_rest (leb 1 a.ttl_ms) 8 _ h5 in
    record {
      clean = clean;
      held = held;
      intent = intent;
      found = found;
      bound = bound;
      digest = digest;
      lasting = leb→le 1 a.ttl_ms lasting;
    }

preflight_of-passes :
    (c : Codec) (id : String) (a : PreflightArgs) (r : Redis) (raw : String) (intent : LuaValue)
    (t : ℕ)
    → member_guard c raw 11 10 ≡ value tt
    → get r (lock id) ≡ some a.token
    → pttl r (lock id) ≡ some t
    → leb a.required_ttl_ms t ≡ true
    → find_intent c a.version a.intent_id raw ≡ value intent
    → intent ▸ "canonical_request_binding" ≡ text a.binding
    → is_table (decoded_or_nil (c.decode a.binding)) ≡ true
    → lua_eq (decoded_or_nil (c.decode a.binding) ▸ "request_binding_digest") (text a.digest) ≡ true
    → get r (dispatch_auth id a.intent_id) ≡ some a.authorization
    → preflight_of c id a r (some raw) ≡ value t
unfolding preflight_of
preflight_of-passes c id a r raw intent t clean held lease lasting found bound table_is digest
      auth =
    rw (clean, held, eq_refl, lease, lasting, found)
      (rw (bound, eq_refl, table_is, digest, auth, eq_refl))

record_authorization-value :
    (id : String) (a : AuthorizeArgs) (r : Redis) (m : Script (Unit {0}))
    → (record_authorization id a r m).0 ≡ value 1
    → (m ≡ value tt)
      × ((record_authorization id a r m).1
          ≡ set r (dispatch_auth id a.intent_id) a.authorization (some a.ttl_ms))
unfolding record_authorization
record_authorization-value id a r (value tt) h = (refl, refl)
record_authorization-value id a r (reject n) h = cc
record_authorization-value id a r raised h = cc

authorize-Granted :
    (c : Codec) (id : String) (a : AuthorizeArgs) (r : Redis) (o : Option String)
    → may_authorize c id a r o ≡ value tt
    → (raw : String) × (o ≡ some raw) × Granted c id a r raw
authorize-Granted c id a r none h = unfold may_authorize in cc h
authorize-Granted c id a r (some raw) h = (raw, refl, may_authorize-Granted c id a r raw h)

-- The preflight that follows the authorization of the same attempt: the same caller, version, intent,
-- digest and authorization.
abbrev pub follows : AuthorizeArgs → ℕ → String → PreflightArgs
follows b floor binding = record {
  token = b.token;
  version = b.version;
  intent_id = b.intent_id;
  required_ttl_ms = floor;
  digest = b.digest;
  binding = binding;
  authorization = b.authorization;
}

-- After an authorization that was granted, the preflight of the same attempt passes with the lease's
-- remaining time, provided that the lease outlives the floor and the caller's binding is the stored
-- one; the authorization itself changed no other key.
pub authorize-preflight :
    (c : Codec) (id : String) (b : AuthorizeArgs) (r : Redis) (floor t : ℕ) (binding : String)
    → (authorize c id b r).0 ≡ value 1
    → record_of (stored c id r) b.intent_id ▸ "canonical_request_binding" ≡ text binding
    → pttl r (lock id) ≡ some t
    → floor ≤ t
    → (preflight c id (follows b floor binding) (authorize c id b r).1 ≡ value t)
      × ((k : RedisKey)
          → same_key (dispatch_auth id b.intent_id) k ≡ false
          → get (authorize c id b r).1 k ≡ get r k)
unfolding authorize preflight stored same_key
authorize-preflight c id b r floor t binding h bound lease lasting =
    let (granted, wrote) =
      record_authorization-value id b r (may_authorize c id b r (get r (state id))) h in
    let (raw, e, g) = authorize-Granted c id b r (get r (state id)) granted in
    let (named, _, _) = find_intent-parts c b.version b.intent_id raw g.found in
    let there : g.intent ▸ "canonical_request_binding" ≡ text binding =
      ap (λ v. v ▸ "canonical_request_binding") named
      ∙ subst
          (λ o. record_of (decoded c o) b.intent_id ▸ "canonical_request_binding" ≡ text binding) e
          bound in
    let bound_to = λ (v : LuaValue). decoded_or_nil (c.decode (text_of v)) in
    rw wrote (
      rw (get-set_ne r (dispatch_auth id b.intent_id) (state id) b.authorization _ refl, e)
          (preflight_of-passes c id (follows b floor binding) _ raw g.intent t g.clean
            (get-set_ne r (dispatch_auth id b.intent_id) (lock id) b.authorization _ refl
              ∙ holds_token-true _ _ g.held)
            (pttl-set_ne r (dispatch_auth id b.intent_id) (lock id) b.authorization _ refl ∙ lease)
            (le→leb floor t lasting) g.found there
            (subst (λ v. is_table (bound_to v) ≡ true) there g.bound)
            (subst (λ v. lua_eq (bound_to v ▸ "request_binding_digest") (text b.digest) ≡ true)
              there g.digest)
            (get-set_self r (dispatch_auth id b.intent_id) b.authorization b.ttl_ms g.lasting)),
      λ k other. get-set_ne r (dispatch_auth id b.intent_id) k b.authorization _ other,
    )
