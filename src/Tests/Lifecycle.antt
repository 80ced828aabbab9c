-- ===== src/Tests/Lifecycle.antt =====
use research_paper_aep.Base.{
  Bool, List, Option, String, [], false, if◌then◌else◌, refl, some, true, ◌==◌, ◌∷◌, ◌≡◌, ◌≢◌,
}
use research_paper_aep.Lua.Value.{LuaValue, border, entries, find}
use research_paper_aep.Lua.Equal.{SameValue, deep_equal, each_equal, keys_within}
use research_paper_aep.Lua.Script.{each, value}
use research_paper_aep.Intents.Status.{
  about_to_fire, failed_confirmed, is_legal, old_text, status_text,
}
use research_paper_aep.Intents.Cas.Creation.{creation, creation_binding, scan}
use research_paper_aep.Intents.Cas.Header.{fence, frame, read_states}
use research_paper_aep.Intents.Cas.Ledger.{retention}
use research_paper_aep.Intents.Cas.Update.{audit, unconfirmed}
use research_paper_aep.Intents.Cas.{branch, commit, intent_cas, validate}
use research_paper_aep.Redis.{advance, del, get, same_key, set, state}
use research_paper_aep.Intents.Cas.Accepted.{stored}
use research_paper_aep.Intents.Cas.History.{HasStatus, record_of}
use research_paper_aep.Intents.Dispatch.{preflight}
use research_paper_aep.Intents.Dispatch.Handshake.{follows}
use research_paper_aep.Tests.Fixture.{authorize_args, codec, failed_redis, retry_args}
use research_paper_aep.Locks.{lock_step, release, release_lock, wait}
use research_paper_aep.Lifecycle.{Lives, Op, cas, locking, run, step}
use research_paper_aep.Lifecycle.Dispatched.{run_freezes, run_never_redispatched}
use research_paper_aep.Lifecycle.Refines.{HasDistinctKeys, Moves, run-Moves, view}
use research_paper_aep.Intents.Cas.Args.{lua_successor}

-- A failed first attempt, and what follows it.

abbrev later : List Op
later = locking (wait 10) ∷ cas retry_args ∷ locking (release "token-a") ∷ []

-- the second attempt goes through on the way
retried_later : get (run codec "e1" later failed_redis) (state "e1") ≡ some "second"
unfolding run step intent_cas validate read_states fence lua_successor frame branch unconfirmed
    audit retention creation creation_binding scan get set del same_key find entries border
    deep_equal keys_within each each_equal status_text old_text is_legal lock_step release_lock
    advance commit
retried_later = refl

later-Lives : Lives codec "e1" later failed_redis
later-Lives = (waited_lives, (tt, (tt, tt)))
  where
    waited_lives : get (advance failed_redis 10) (state "e1") ≡ get failed_redis (state "e1")
    waited_lives = unfold get advance set same_key in refl

first_failed : HasStatus (record_of (stored codec "e1" failed_redis) "i1") (some failed_confirmed)
unfolding stored get set same_key find status_text
first_failed = refl

failed-ne-prepared : failed_confirmed ≢ about_to_fire
failed-ne-prepared e = cc

run_never_redispatched_example :
    preflight codec "e1" (follows authorize_args 25000 "bind") (run codec "e1" later failed_redis)
    ≢ value 60000
run_never_redispatched_example =
    run_never_redispatched codec "e1" later failed_redis (follows authorize_args 25000 "bind")
      later-Lives (failed_confirmed, first_failed, failed-ne-prepared)

run_freezes_example :
    SameValue
      (record_of (stored codec "e1" failed_redis) "i1")
      (record_of (stored codec "e1" (run codec "e1" later failed_redis)) "i1")
run_freezes_example =
    run_freezes codec "e1" "i1" later failed_redis later-Lives
      (failed_confirmed, first_failed, refl)

if-HasDistinctKeys :
    (b : Bool) (x y : Option LuaValue)
    → HasDistinctKeys x
    → HasDistinctKeys y
    → HasDistinctKeys (if b then x else y)
if-HasDistinctKeys true x y p q = p
if-HasDistinctKeys false x y p q = q

codec-HasDistinctKeys : (raw : String) → HasDistinctKeys (codec.decode raw)
unfolding find entries
codec-HasDistinctKeys raw = if-HasDistinctKeys (raw == "new") _ _ tt (
    if-HasDistinctKeys (raw == "prepared") _ _ (refl, tt)
      (if-HasDistinctKeys (raw == "doubtful") _ _ (refl, tt)
        (if-HasDistinctKeys (raw == "bind") _ _ tt (
          if-HasDistinctKeys (raw == "bind2") _ _ tt (
            if-HasDistinctKeys (raw == "failed") _ _ (refl, tt)
              (if-HasDistinctKeys (raw == "second") _ _ (refl, (refl, tt)) tt))))))

run-Moves_example :
    Moves (view codec "e1" failed_redis) (view codec "e1" (run codec "e1" later failed_redis))
run-Moves_example = run-Moves codec "e1" later failed_redis codec-HasDistinctKeys later-Lives
