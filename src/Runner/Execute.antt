-- ===== src/Runner/Execute.antt =====
-- execute of WriteAheadRunner in aep_core/core/intent_workflow.py: the order of its effects, for
-- whatever each of its calls answers.
pub mod Order
use research_paper_aep.Base.{Bool, List, Option, String, [], if◌then◌else◌, ◌&&◌, ◌++◌, ◌∷◌}
use research_paper_aep.Intents.Status.{IntentStatus, failed_confirmed, fired_unconfirmed}
use research_paper_aep.Runner.Policy.{ConnectorPolicy, classify_response}

-- What happened to the outside, in order
pub data Event : Type 0 where
  lease_taken intent_written acknowledged authorized preflight_passed mutated lease_released : Event
  resolution_written : IntentStatus → Event

pub data Outcome : Type 0 where
  returned : IntentStatus → Outcome
  raised : Outcome

-- store.preflight: it passes, raises an IntentPreflightError, or raises something else.
pub data PreflightAnswer : Type 0 where
  passes fails raises : PreflightAnswer

-- connector.mutate: a response with the evidence in it, or an exception.
pub data MutateAnswer : Type 0 where
  responds : Option String → MutateAnswer
  throws : MutateAnswer

-- What every call of execute answers; true stands for a call that returns. Where the barrier raises
-- NotImplementedError, nothing is persisted, as where the lease is lost.
pub record World : Type 0 where
  pub startup_valid : Bool
  pub lease_acquired : Bool
  pub state_exists : Bool
  pub binding_prepared : Bool
  pub intent_created : Bool
  pub barrier_acknowledges : Bool
  pub owns_lease_after_barrier : Bool
  pub no_dispatch_persisted : Bool
  pub dispatch_authorized : Bool
  pub preflight : PreflightAnswer
  pub owns_lease_after_preflight : Bool
  pub preflight_failure_persisted : Bool
  pub preflight_failure_durable : Bool
  pub binding_verified : Bool
  pub mutate : MutateAnswer
  pub resolution_persisted : Bool
  pub resolution_durable : Bool

abbrev pub Trace : Type 0
Trace = List Event × Outcome

-- an event before what follows it
abbrev pub emit : Event → Trace → Trace
emit e (events, outcome) = (e ∷ events, outcome)

abbrev pub stop : Trace
stop = ([], raised)

abbrev pub target_status : ConnectorPolicy → MutateAnswer → IntentStatus
target_status p throws = fired_unconfirmed
target_status p (responds evidence) = classify_response p evidence

-- from DURING_RESOLUTION_CAS on
unfoldable pub resolve : World → IntentStatus → Trace
resolve w target =
    if w.resolution_persisted
    then emit (resolution_written target)
        (if w.resolution_durable then ([], returned target) else stop)
    else stop

-- except IntentPreflightError
unfoldable pub preflight_failed : World → Trace
preflight_failed w =
    if w.owns_lease_after_preflight && w.preflight_failure_persisted
    then emit (resolution_written failed_confirmed)
        (if w.preflight_failure_durable then ([], returned failed_confirmed) else stop)
    else stop

-- from the preflight on
unfoldable pub dispatch : ConnectorPolicy → World → PreflightAnswer → Trace
unfolding resolve preflight_failed
dispatch p w raises = stop
dispatch p w fails = preflight_failed w
dispatch p w passes =
    let sent = emit mutated (resolve w (target_status p w.mutate)) in
    emit preflight_passed (if w.binding_verified then sent else stop)

-- from the intent's write on: the barrier, or the one attempt to persist that nothing was sent
unfoldable pub after_intent : ConnectorPolicy → World → Trace
unfolding dispatch
after_intent p w =
    let sent = dispatch p w w.preflight in
    let authorizing =
      emit acknowledged (if w.dispatch_authorized then emit authorized sent else stop) in
    if w.barrier_acknowledges
    then authorizing
    else if w.owns_lease_after_barrier && w.no_dispatch_persisted
    then emit (resolution_written failed_confirmed) stop
    else stop

unfoldable pub under_lease : ConnectorPolicy → World → Trace
unfolding after_intent
under_lease p w =
    let written = emit intent_written (after_intent p w) in
    if w.state_exists && (w.binding_prepared && w.intent_created) then written else stop

-- finally: the lease is released on every path
abbrev pub release : Trace → Trace
release (events, outcome) = (events ++ (lease_released ∷ []), outcome)

unfoldable pub execute : ConnectorPolicy → World → Trace
unfolding under_lease
execute p w =
    let held = emit lease_taken (release (under_lease p w)) in
    if w.startup_valid && w.lease_acquired then held else stop
