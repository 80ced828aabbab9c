-- ===== src/Tests/Store.antt =====
use research_paper_aep.Base.{String, [], decimal, refl, true, ◌∷◌, ◌≡◌, ◌≢◌, ◌⊎◌}
use research_paper_aep.Lua.Value.{find}
use research_paper_aep.Intents.Status.{status_text}
use research_paper_aep.Redis.{get, same_key, set}
use research_paper_aep.Intents.Cas.Accepted.{Accepts, after}
use research_paper_aep.Intents.Dispatch.{authorize, find_intent}
use research_paper_aep.Tests.Fixture.{codec, create_args, prepared_redis, start}
use research_paper_aep.Durability.Ack.{DurabilityAck, Records, consume, lookup, remove}
use research_paper_aep.Durability.Ack.Once.{Indexed, ack_run, discarded}
use research_paper_aep.Storage.Save.{Quarantine, answered, lost_after}
use research_paper_aep.Storage.Save.Frame.{SameButPoison}
use research_paper_aep.Store.{
  AuthorizeCall, after_tests, authorize_dispatch, commit_transition, dispatch_scope, on_authorize,
  returns,
}
use research_paper_aep.Store.Committed.{Unanswered, commit_transition_outcome}
use research_paper_aep.Store.Spent.{Backed, authorize_dispatch-Backed, authorize_dispatch_once}

-- The calls of the store on one prepared intent.

abbrev sign : String → String → String
sign nonce scope = "proof"

abbrev attempt_ack : DurabilityAck
attempt_ack = record { serial = 1; identity = 40; scope = "e1:i1:2"; provenance = "proof" }

abbrev attempt_issued : Records
attempt_issued = (40, record { reference = 1; provenance = "proof"; scope = "e1:i1:2" }) ∷ []

abbrev calling : AuthorizeCall
calling = record {
  has_binding = true;
  intent_id = "i1";
  prepared_state_version = 2;
  lock_token = "token-a";
  request_binding_digest = "d1";
  ack = attempt_ack;
  authorization_ttl_ms = 25000;
  authorization = "0123456789abcdef";
}

abbrev poisoning : Quarantine
poisoning = record { epoch_ms = 1; describe = λ reason raw. reason; succeeds = true }

scope_text : dispatch_scope "e1" "i1" 120 ≡ "e1:i1:120"
unfolding dispatch_scope decimal
scope_text = refl

authorized_once :
    (authorize_dispatch codec "e1" poisoning calling attempt_issued prepared_redis).0
    ≡ returns "0123456789abcdef"
unfolding authorize_dispatch after_tests on_authorize dispatch_scope decimal consume lookup remove
    authorize find_intent get set same_key find status_text
authorized_once = refl

attempt_issued-Indexed : Indexed attempt_ack attempt_issued
attempt_issued-Indexed = (λ e. refl, tt)

authorize_dispatch-Backed_example :
    (calling.authorization ≡ "0123456789abcdef")
    × Backed codec "e1" calling attempt_issued prepared_redis
        (authorize_dispatch codec "e1" poisoning calling attempt_issued prepared_redis)
authorize_dispatch-Backed_example =
    authorize_dispatch-Backed codec "e1" poisoning calling attempt_issued prepared_redis
      "0123456789abcdef" authorized_once

authorize_dispatch_once_example :
    let registry =
      ack_run sign
        (discarded 1 40 ∷ [])
        (authorize_dispatch codec "e1" poisoning calling attempt_issued prepared_redis).1.0 in
    let o = authorize_dispatch codec "e1" poisoning calling registry prepared_redis in
    ((x : String) → o.0 ≢ returns x) × (o.1.1 ≡ prepared_redis)
authorize_dispatch_once_example =
    authorize_dispatch_once codec "e1" poisoning calling attempt_issued prepared_redis sign calling
      (discarded 1 40 ∷ []) prepared_redis refl refl attempt_issued-Indexed (tt, tt)

commit_transition_outcome_example :
    let o = commit_transition codec "e1" poisoning lost_after create_args start in
    (o.0 ≡ returns tt
      → (lost_after ≡ answered)
        × Accepts codec "e1" create_args start
        × (o.1 ≡ after codec "e1" create_args start))
    × (o.0 ≢ returns tt
        → SameButPoison "e1" start o.1
          ⊎ Unanswered lost_after (after codec "e1" create_args start) o)
commit_transition_outcome_example =
    commit_transition_outcome codec "e1" poisoning lost_after create_args start
