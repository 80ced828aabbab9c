-- ===== src/Tests/Gate.antt =====
use research_paper_aep.Base.{arith, false, refl, some, ◌≡◌}
use research_paper_aep.Lua.Value.{find, text, ◌▸◌}
use research_paper_aep.Lua.Script.{reject, value}
use research_paper_aep.Intents.Status.{status_text}
use research_paper_aep.Redis.{RedisKey, dispatch_auth, get, lock, pttl, same_key, set}
use research_paper_aep.Intents.Cas.Accepted.{stored}
use research_paper_aep.Intents.Cas.History.{record_of}
use research_paper_aep.Intents.Dispatch.{authorize, find_intent, preflight}
use research_paper_aep.Intents.Dispatch.Gate.{Passed, preflight_sound}
use research_paper_aep.Intents.Dispatch.Handshake.{authorize-preflight, follows}
use research_paper_aep.Tests.Fixture.{authorize_args, authorized_redis, codec, prepared_redis}

-- The scripts of the dispatch gate at concrete states.

granted : (authorize codec "e1" authorize_args prepared_redis).0 ≡ value 1
unfolding authorize find_intent get set same_key find status_text
granted = refl

passed : preflight codec "e1" (follows authorize_args 25000 "bind") authorized_redis ≡ value 60000
unfolding preflight get set pttl same_key find status_text
passed = refl

-- without an authorization the preflight answers -9
unauthorized : preflight codec "e1" (follows authorize_args 25000 "bind") prepared_redis ≡ reject 9
unfolding preflight get set pttl same_key find status_text
unauthorized = refl

preflight_sound_example :
    Passed codec "e1" (follows authorize_args 25000 "bind") authorized_redis 60000
preflight_sound_example =
    preflight_sound codec "e1" (follows authorize_args 25000 "bind") authorized_redis passed

prepared_binding :
    record_of (stored codec "e1" prepared_redis) "i1" ▸ "canonical_request_binding" ≡ text "bind"
unfolding stored get set same_key find
prepared_binding = refl

prepared_lease : pttl prepared_redis (lock "e1") ≡ some 60000
unfolding pttl set same_key
prepared_lease = refl

authorize-preflight_example :
    (preflight codec "e1"
        (follows authorize_args 25000 "bind")
        (authorize codec "e1" authorize_args prepared_redis).1
      ≡ value 60000)
    × ((k : RedisKey)
        → same_key (dispatch_auth "e1" "i1") k ≡ false
        → get (authorize codec "e1" authorize_args prepared_redis).1 k ≡ get prepared_redis k)
authorize-preflight_example =
    authorize-preflight codec "e1" authorize_args prepared_redis 25000 60000 "bind" granted
      prepared_binding prepared_lease (omega arith)
