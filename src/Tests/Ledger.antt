-- ===== src/Tests/Ledger.antt =====
use research_paper_aep.Base.{
  All, Any, String, arith, eq_iff, false, false≢true, first, refl, some, true, ℕ, ◌*◌, ◌+◌, ◌<◌,
  ◌≡◌, ◌≢◌, ◌≤◌, ◌⊎◌,
}
use research_paper_aep.Lua.Value.{
  at, border, entries, find, index, is_nil, num, pairs, size, text, ◌▸◌,
}
use research_paper_aep.Lua.Equal.{SameValue, deep_equal, each_equal, keys_within}
use research_paper_aep.Lua.Script.{each, reject}
use research_paper_aep.Intents.Status.{
  about_to_fire, fired_unconfirmed, is_legal, old_text, status_text,
}
use research_paper_aep.Intents.Cas.Args.{history, lua_successor}
use research_paper_aep.Intents.Cas.Creation.{creation, creation_binding, is_open, scan}
use research_paper_aep.Intents.Cas.Header.{fence, frame, read_states}
use research_paper_aep.Intents.Cas.Ledger.{is_retained, retention}
use research_paper_aep.Intents.Cas.Update.{audit, immutable, unconfirmed, update}
use research_paper_aep.Intents.Cas.{branch, intent_cas, validate}
use research_paper_aep.Redis.{get, lock, pttl, same_key, set, state}
use research_paper_aep.Intents.Diagram.{Edge}
use research_paper_aep.Intents.Cas.Accepted.{Accepts, after, stored}
use research_paper_aep.Intents.Cas.Fence.{intent_cas_fenced, intent_cas_once, stored-after}
use research_paper_aep.Intents.Cas.History.{HasStatus, intent_cas_transition, record_of}
use research_paper_aep.Intents.Cas.Kept.{intent_cas_appends, intent_cas_keeps_others}
use research_paper_aep.Intents.Cas.Eligibility.{FailedAs, SameStep, attempt_no, intent_cas_creates}
use research_paper_aep.Intents.Cas.Uniqueness.{
  IsKeyed, Unique, intent_cas-Unique, intent_cas_retains,
}
use research_paper_aep.Tests.Fixture.{
  codec, create_args, doubt_args, failed_redis, prepared_redis, retry_args, start,
}

-- The intent script at concrete states.

created : Accepts codec "e1" create_args start
unfolding intent_cas validate read_states fence lua_successor frame branch unconfirmed audit
    retention creation creation_binding scan get set same_key find entries border deep_equal
    keys_within each each_equal status_text old_text is_legal
created = refl

retried : Accepts codec "e1" retry_args failed_redis
unfolding intent_cas validate read_states fence lua_successor frame branch unconfirmed audit
    retention creation creation_binding scan get set same_key find entries border deep_equal
    keys_within each each_equal status_text old_text is_legal
retried = refl

doubted : Accepts codec "e1" doubt_args prepared_redis
unfolding intent_cas validate read_states fence lua_successor frame branch unconfirmed audit
    retention update get set same_key find entries border deep_equal keys_within each each_equal
    status_text old_text is_legal
doubted = refl

-- a creation under a lease that the caller does not hold is refused with -3
foreign_token :
    (intent_cas codec "e1" (record create_args { token = "token-b" }) start).0 ≡ reject 3
unfolding intent_cas validate read_states get same_key
foreign_token = refl

-- a second creation of the same text meets the version fence first
stale_creation : (intent_cas codec "e1" create_args prepared_redis).0 ≡ reject 1
unfolding intent_cas validate read_states fence lua_successor get set same_key find
stale_creation = refl

intent_cas_fenced_example :
    (n : ℕ) × (create_args.expected ≡ some n)
    × (get start (lock "e1") ≡ some "token-a")
    × (stored codec "e1" start ▸ "version" ≡ num n)
    × (stored codec "e1" (after codec "e1" create_args start) ▸ "version" ≡ num (lua_successor n))
    × (n < 9007199254740992 → lua_successor n ≡ n + 1)
    × (n ≡ 9007199254740992 → lua_successor n ≡ n)
    × (get (after codec "e1" create_args start) (lock "e1") ≡ some "token-a")
intent_cas_fenced_example = intent_cas_fenced codec "e1" create_args start created

intent_cas_once_example :
    ¬ Accepts codec "e1"
      (record create_args { token = "token-b" })
      (after codec "e1" create_args start)
intent_cas_once_example =
    intent_cas_once codec "e1" create_args (record create_args { token = "token-b" }) start 1 refl
      refl (omega arith) created

intent_cas_transition_example :
    let was = record_of (stored codec "e1" prepared_redis) "i1" in
    let is = record_of (stored codec "e1" (after codec "e1" doubt_args prepared_redis)) "i1" in
    let newest = index (history is) (at (size (history is))) in
    Edge (some about_to_fire) fired_unconfirmed
    × HasStatus was (some about_to_fire)
    × HasStatus is (some fired_unconfirmed)
    × (newest ▸ "old_state" ≡ text (old_text (some about_to_fire)))
    × (newest ▸ "new_state" ≡ text (status_text fired_unconfirmed))
intent_cas_transition_example = intent_cas_transition codec "e1" doubt_args prepared_redis doubted

intent_cas_appends_example :
    let was = record_of (stored codec "e1" prepared_redis) "i1" in
    let is = record_of (stored codec "e1" (after codec "e1" doubt_args prepared_redis)) "i1" in
    (size (history is) ≡ size (history was) + 1)
    × ((k : ℕ)
        → k < size (history was)
        → SameValue (index (history was) (at (1 + k))) (index (history is) (at (1 + k))))
    × All (λ f. SameValue (was ▸ f) (is ▸ f)) immutable
    × ((b : String)
        → was ▸ "canonical_request_binding" ≡ text b
        → is ▸ "canonical_request_binding" ≡ text b)
intent_cas_appends_example =
    intent_cas_appends codec "e1" doubt_args prepared_redis about_to_fire doubted refl

intent_cas_creates_example :
    let before = stored codec "e1" failed_redis in
    let now = stored codec "e1" (after codec "e1" retry_args failed_redis) in
    let is = record_of now "i2" in
    (m : ℕ) × (before ▸ "status" ≢ text "PAUSED")
    × All (λ p. is_open p.1 ≡ false) (pairs (before ▸ "intent_ledger"))
    × (is ▸ "attempt" ≡ num (lua_successor m))
    × All (λ p. SameStep is p → attempt_no p ≤ m) (pairs (before ▸ "intent_ledger"))
    × ((m ≡ 0) ⊎ Any (FailedAs is m) (pairs (before ▸ "intent_ledger")))
    × (is ▸ "prepared_state_version" ≡ now ▸ "version")
    × (size (history is) ≡ 1)
    × (now ▸ "status" ≡ text "PROCESSING")
intent_cas_creates_example = intent_cas_creates codec "e1" retry_args failed_redis retried refl

intent_cas-Unique_example :
    let ledger = pairs (stored codec "e1" (after codec "e1" create_args start) ▸ "intent_ledger") in
    Unique ledger × All IsKeyed ledger
intent_cas-Unique_example = intent_cas-Unique codec "e1" create_args start created

has_open_record :
    Any
      (λ p. is_retained p.1 ≡ true)
      (pairs (stored codec "e1" (after codec "e1" create_args start) ▸ "intent_ledger"))
unfolding stored get set same_key find entries
has_open_record = rw (stored-after codec "e1" create_args start created) (first refl)

intent_cas_retains_example :
    (t : ℕ) × (pttl (after codec "e1" create_args start) (state "e1") ≡ some t)
    × (2678400 * 1000 ≤ t)
intent_cas_retains_example = intent_cas_retains codec "e1" create_args start created has_open_record

first_present : is_nil (record_of (stored codec "e1" failed_redis) "i1") ≡ false
unfolding stored get set same_key find
first_present = refl

intent_cas_keeps_others_example :
    SameValue
      (record_of (stored codec "e1" failed_redis) "i1")
      (record_of (stored codec "e1" (after codec "e1" retry_args failed_redis)) "i1")
intent_cas_keeps_others_example =
    intent_cas_keeps_others codec "e1" retry_args failed_redis "i1" retried
      (λ e. false≢true ((eq_iff "i1" "i2").1 e)) first_present
