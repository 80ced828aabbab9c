-- ===== src/Intents/Dispatch/Gate.antt =====
use research_paper_aep.Base.{
  Option, String, and-true, ap, arith, none, refl, some, subst, sym, ℕ, ◌∙◌, ◌≡◌, ◌≤◌,
}
use research_paper_aep.Lua.Value.{LuaValue, lua_eq-num, lua_eq-text, num, text, text_of, ◌▸◌}
use research_paper_aep.Lua.Script.{
  >>-eq-value, >>=-eq-value, guard-eq-value_rest, value, value-injective,
}
use research_paper_aep.Intents.Status.{status_text}
use research_paper_aep.Intents.Cas.Args.{Codec, decoded_or_nil, holds_token}
use research_paper_aep.Intents.Cas.History.{record_of}
use research_paper_aep.Intents.Dispatch.{PreflightArgs, find_intent, lasts, preflight, preflight_of}
use research_paper_aep.Intents.Cas.Header.{member_guard}
use research_paper_aep.Redis.{Redis, dispatch_auth, get, lock, pttl, state}
use research_paper_aep.Intents.Cas.Accepted.{decoded, stored}
use research_paper_aep.Intents.Cas.Fence.{holds_token-true}

-- What a passed preflight tells, and how an authorization meets it.

pub find_intent-parts :
    (c : Codec) (version : ℕ) (i raw : String) {intent : LuaValue}
    → find_intent c version i raw ≡ value intent
    → let s = decoded_or_nil (c.decode raw) in
      (intent ≡ record_of s i)
      × (s ▸ "version" ≡ num version)
      × (intent ▸ "status" ≡ text "ABOUT_TO_FIRE")
unfolding find_intent status_text
find_intent-parts c version i raw h =
    let (_, h1) = guard-eq-value_rest _ 3 _ h in
    let (versioned, h2) = guard-eq-value_rest _ 4 _ h1 in
    let (prepared, h3) = guard-eq-value_rest _ 5 _ h2 in
    let (_, h4) = guard-eq-value_rest _ 6 _ h3 in
    let same = value-injective h4 in
    (
      sym same,
      lua_eq-num _ version versioned,
      ap (λ v. v ▸ "status") (sym same) ∙ lua_eq-text _ _ (and-true _ _ prepared).1,
    )

lasts-value :
    (o : Option ℕ) (floor : ℕ) {t : ℕ} → lasts o floor ≡ value t → (o ≡ some t) × (floor ≤ t)
lasts-value none floor h = cc
lasts-value (some s) floor h = ground arith

-- A passed preflight has read, in one step, that the caller holds the lease, that the lease outlives
-- the floor, that the state is at the prepared version, that the intent is still ABOUT_TO_FIRE under
-- the same binding, and that this very authorization is recorded for it.
pub record Passed (c : Codec) (id : String) (a : PreflightArgs) (r : Redis) (t : ℕ) : Type 0 where
  pub held : get r (lock id) ≡ some a.token
  pub lease : pttl r (lock id) ≡ some t
  pub lasting : a.required_ttl_ms ≤ t
  pub version : stored c id r ▸ "version" ≡ num a.version
  pub status : record_of (stored c id r) a.intent_id ▸ "status" ≡ text "ABOUT_TO_FIRE"
  pub binding : record_of (stored c id r) a.intent_id ▸ "canonical_request_binding" ≡ text a.binding
  pub digest : decoded_or_nil (c.decode a.binding) ▸ "request_binding_digest" ≡ text a.digest
  pub authorized : get r (dispatch_auth id a.intent_id) ≡ some a.authorization

preflight_of-Passed :
    (c : Codec) (id : String) (a : PreflightArgs) (r : Redis) (raw : String) {t : ℕ}
    → get r (state id) ≡ some raw
    → preflight_of c id a r (some raw) ≡ value t
    → Passed c id a r t
unfolding preflight_of stored
preflight_of-Passed c id a r raw {t} e h =
    let (_, h1) = >>-eq-value (member_guard c raw 11 10) _ h in
    let (held, h2) = guard-eq-value_rest (holds_token (get r (lock id)) a.token) 1 _ h1 in
    let (ttl, lasting, h3) = >>=-eq-value (lasts (pttl r (lock id)) a.required_ttl_ms) _ h2 in
    let (intent, found, h4) = >>=-eq-value (find_intent c a.version a.intent_id raw) _ h3 in
    let (bound, h5) = guard-eq-value_rest _ 8 _ h4 in
    let (_, h6) = guard-eq-value_rest _ 8 _ h5 in
    let (digest, h7) = guard-eq-value_rest _ 7 _ h6 in
    let (authorized, h8) =
      guard-eq-value_rest (holds_token (get r (dispatch_auth id a.intent_id)) a.authorization) 9 _
        h7 in
    let (named, versioned, prepared) = find_intent-parts c a.version a.intent_id raw found in
    let text_is : intent ▸ "canonical_request_binding" ≡ text a.binding = lua_eq-text _ _ bound in
    let here : decoded c (get r (state id)) ≡ decoded_or_nil (c.decode raw) = ap (decoded c) e in
    let ttl_is : ttl ≡ t = value-injective h8 in
    let (left, floor) = lasts-value (pttl r (lock id)) a.required_ttl_ms lasting in
    record {
      held = holds_token-true _ _ held;
      lease = left ∙ ap some ttl_is;
      lasting = subst (λ (n : ℕ). a.required_ttl_ms ≤ n) ttl_is floor;
      version = ap (λ v. v ▸ "version") here ∙ versioned;
      status =
          ap (λ v. record_of v a.intent_id ▸ "status") here
          ∙ ap (λ v. v ▸ "status") (sym named)
          ∙ prepared;
      binding =
          ap (λ v. record_of v a.intent_id ▸ "canonical_request_binding") here
          ∙ ap (λ v. v ▸ "canonical_request_binding") (sym named)
          ∙ text_is;
      digest =
          subst
            (λ v. decoded_or_nil (c.decode (text_of v)) ▸ "request_binding_digest" ≡ text a.digest)
            text_is (lua_eq-text _ _ digest);
      authorized = holds_token-true _ _ authorized;
    }

preflight_of-stored :
    (c : Codec) (id : String) (a : PreflightArgs) (r : Redis) (o : Option String) {t : ℕ}
    → get r (state id) ≡ o
    → preflight_of c id a r o ≡ value t
    → Passed c id a r t
preflight_of-stored c id a r none e h = unfold preflight_of in cc h
preflight_of-stored c id a r (some raw) e h = preflight_of-Passed c id a r raw e h

-- The preflight passes only where all of this holds at once: the caller holds the lease and the lease
-- outlives the floor, the state is at the prepared version, the intent is ABOUT_TO_FIRE under the
-- caller's binding with the caller's digest, and the caller's authorization is recorded.
pub preflight_sound :
    (c : Codec) (id : String) (a : PreflightArgs) (r : Redis) {t : ℕ}
    → preflight c id a r ≡ value t
    → Passed c id a r t
unfolding preflight
preflight_sound c id a r h = preflight_of-stored c id a r (get r (state id)) refl h
