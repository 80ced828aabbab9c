-- ===== src/Lifecycle/Dispatched.antt =====
use research_paper_aep.Base.{
  List, String, [], false≢true, refl, some, sym, true, ℕ, ◌∙◌, ◌∷◌, ◌≡◌, ◌≢◌,
}
use research_paper_aep.Redis.{Redis}
use research_paper_aep.Lua.Equal.{SameValue}
use research_paper_aep.Lua.Script.{value}
use research_paper_aep.Intents.Status.{IntentStatus, about_to_fire, status_text}
use research_paper_aep.Intents.Diagram.{Edge-not_final, Edge-not_prepared, is_final}
use research_paper_aep.Intents.Cas.Args.{Codec}
use research_paper_aep.Intents.Cas.Accepted.{stored}
use research_paper_aep.Intents.Cas.History.{HasStatus, record_of}
use research_paper_aep.Intents.Dispatch.{PreflightArgs, preflight}
use research_paper_aep.Intents.Dispatch.Gate.{preflight_sound}
use research_paper_aep.Lifecycle.{Lives, Op, StateLives, run, step}
use research_paper_aep.Lifecycle.Records.{
  SameValue-HasStatus, kept, moved, same_status, step-Change,
}

-- What holds of an intent after any sequence of steps.

-- The record has a status other than ABOUT_TO_FIRE: its attempt was resolved, or is in doubt.
abbrev pub IsPast : Codec → String → String → Redis → Type 0
IsPast c id i r =
    (s : IntentStatus) × HasStatus (record_of (stored c id r) i) (some s) × (s ≢ about_to_fire)

step-IsPast :
    (c : Codec) (id i : String) (op : Op) (r : Redis)
    → StateLives id op r
    → IsPast c id i r
    → IsPast c id i (step c id op r)
step-IsPast c id i op r lives (s, has, past) = elim (step-Change c id i r s has op lives) [
  | kept same ↦
      (s, SameValue-HasStatus _ (record_of (stored c id (step c id op r)) i) s same has, past)
  | moved t edge is ↦ (t, is, Edge-not_prepared edge)
]

run-IsPast :
    (c : Codec) (id i : String) (ops : List Op) (r : Redis)
    → Lives c id ops r
    → IsPast c id i r
    → IsPast c id i (run c id ops r)
unfolding run
run-IsPast c id i [] r lives past = past
run-IsPast c id i (op ∷ ops) r lives past =
    run-IsPast c id i ops (step c id op r) lives.1 (step-IsPast c id i op r lives.0 past)

-- Once an intent has left ABOUT_TO_FIRE, no preflight for it passes again, whoever asks with whatever
-- arguments, after any sequence of scripts, locks and waits in which the state key does not expire.
pub run_never_redispatched :
    (c : Codec) (id : String) (ops : List Op) (r : Redis) (a : PreflightArgs) {t : ℕ}
    → Lives c id ops r
    → IsPast c id a.intent_id r
    → preflight c id a (run c id ops r) ≢ value t
run_never_redispatched c id ops r a lives past passed =
    let (s, has, left) = run-IsPast c id a.intent_id ops r lives past in
    let passing = preflight_sound c id a (run c id ops r) passed in
    left (
      same_status (record_of (stored c id (run c id ops r)) a.intent_id) s about_to_fire has
        (unfold status_text in passing.status))

-- A record with a final status
abbrev pub IsFinal : Codec → String → String → Redis → Type 0
IsFinal c id i r =
    (s : IntentStatus) × HasStatus (record_of (stored c id r) i) (some s) × (is_final s ≡ true)

step-frozen :
    (c : Codec) (id i : String) (op : Op) (r : Redis)
    → StateLives id op r
    → IsFinal c id i r
    → SameValue (record_of (stored c id r) i) (record_of (stored c id (step c id op r)) i)
step-frozen c id i op r lives (s, has, final) = elim (step-Change c id i r s has op lives) [
  | kept same ↦ same
  | moved t edge is ↦ absurd (false≢true (sym (Edge-not_final edge) ∙ final))
]

-- A record that is FIRED_CONFIRMED or FAILED_CONFIRMED stays as it is at every depth, after any sequence
-- of scripts, locks and waits in which the state key does not expire.
pub run_freezes :
    (c : Codec) (id i : String) (ops : List Op) (r : Redis)
    → Lives c id ops r
    → IsFinal c id i r
    → SameValue (record_of (stored c id r) i) (record_of (stored c id (run c id ops r)) i)
unfolding run
run_freezes c id i [] r lives final = λ path. refl
run_freezes c id i (op ∷ ops) r lives (s, has, final) =
    let same = step-frozen c id i op r lives.0 (s, has, final) in
    let later : IsFinal c id i (step c id op r) =
      (s, SameValue-HasStatus _ (record_of (stored c id (step c id op r)) i) s same has, final) in
    λ path. same path ∙ run_freezes c id i ops (step c id op r) lives.1 later path
