-- ===== src/Recovery.antt =====
-- aep_core/core/intent_recovery.py: what a recovery pass does with one intent.
-- The connector's declaration, its observation, the time of Redis, the drawn delay and what becomes of
-- each call of the lease, the store and the barrier are inputs.
-- Times count microseconds.
pub mod Plan
pub mod Bounded
pub mod Passes
pub mod Scan
use research_paper_aep.Base.{
  Bool, List, Option, String, [], false, if◌then◌else◌, leb, max, min, nat_eq, none, some, true, ℕ,
  ◌&&◌, ◌*◌, ◌+◌, ◌-◌, ◌^◌, ◌||◌, ◌∷◌,
}
use research_paper_aep.Intents.Status.{
  IntentStatus, about_to_fire, failed_confirmed, fired_confirmed, fired_unconfirmed, is_legal,
  permanently_ambiguous,
}
use research_paper_aep.Contract.{
  Capability, Decision, Declared, Outcome, ReadbackResult, ambiguous, classify_readback, confirmed,
  declared_capability, no_readback, parse_readback_result, refuted, retry,
}

-- The fields of ConnectorPolicy that recovery reads
pub record Policy : Type 0 where
  pub max_reconciliation_attempts : ℕ
  pub max_reconciliation_duration : ℕ
  pub backoff_base : ℕ
  pub backoff_cap : ℕ

pub record Progress : Type 0 where
  pub attempt_count : ℕ
  pub first_check_at : Option ℕ
  pub last_check_at : Option ℕ
  pub next_check_at : ℕ
  pub last_evidence_class : Option String

-- The fields of IntentRecord that recovery reads or writes
pub record Intent : Type 0 where
  pub status : IntentStatus
  pub reconcile_after : ℕ
  pub reconciliation : Option Progress

-- _eligible; its assertion that a FIRED_UNCONFIRMED record has progress fails where there is none.
unfoldable pub eligible : Intent → ℕ → Option Bool
eligible i now = elim i.status [
  | about_to_fire ↦ some (leb i.reconcile_after now)
  | fired_unconfirmed ↦ elim i.reconciliation [
    | none ↦ none
    | some p ↦ some (leb p.next_check_at now)
  ]
  | _ ↦ some false
]

-- _OUTCOME_TO_STATUS
unfoldable pub outcome_status : Outcome → IntentStatus
outcome_status confirmed = fired_confirmed
outcome_status refuted = failed_confirmed
outcome_status ambiguous = permanently_ambiguous
outcome_status retry = fired_unconfirmed

-- ConnectorPolicy.backoff_ceiling: none where it raises, ValueError below 1, and OverflowError from 1025
-- on, as no float holds 2^1024 and the base is one. An infinite product gives the cap.
unfoldable pub backoff_ceiling : Policy → ℕ → Option ℕ
backoff_ceiling policy attempt =
    if leb 1 attempt && leb attempt 1024
    then some (min (policy.backoff_base * 2 ^ (attempt - 1)) policy.backoff_cap)
    else none

-- The choice of the reconciliation progress in transition_intent
unfoldable pub next_progress : Intent → IntentStatus → Option Progress → ℕ → Option Intent
next_progress old new (some p) now = some (record old { status = new; reconciliation = some p })
next_progress old fired_unconfirmed none now = elim old.status [
  | fired_unconfirmed ↦ none
  | _ ↦ some (record old {
    status = fired_unconfirmed;
    reconciliation = some (record {
      attempt_count = 0;
      first_check_at = none;
      last_check_at = none;
      next_check_at = max old.reconcile_after now;
      last_evidence_class = none;
    });
  })
]
next_progress old new none now = some (record old { status = new })

-- transition_intent on these fields: the new intent, or none where it raises.
unfoldable pub transition : Intent → IntentStatus → Option Progress → ℕ → Option Intent
unfolding is_legal next_progress
transition old new given now =
    if is_legal (some old.status) new then next_progress old new given now else none

-- What a pass wants to persist
pub record Resolution : Type 0 where
  pub target : IntentStatus
  pub reason : String
  pub evidence_class : String
  pub reconciliation : Option Progress
  pub readback_performed : Bool

-- previous.first_check_at or now: a zero counts as absent
abbrev pub first_or : Option ℕ → ℕ → ℕ
first_or none now = now
first_or (some t) now = if nat_eq t 0 then now else t

-- the attempt or the duration limit is met
unfoldable pub exhausted : Policy → Intent → ℕ → ℕ → Bool
exhausted policy i attempts now =
    leb policy.max_reconciliation_attempts attempts
    || leb (i.reconcile_after + policy.max_reconciliation_duration) now

abbrev pub checked : Progress → ℕ → Decision → ℕ → Progress
checked previous now decision due_at = record {
  attempt_count = previous.attempt_count + 1;
  first_check_at = some (first_or previous.first_check_at now);
  last_check_at = some now;
  next_check_at = due_at;
  last_evidence_class = some decision.evidence_class;
}

-- The plan at the limit.
abbrev pub give_up : Progress → ℕ → Decision → Resolution
give_up previous now decision = record {
  target = permanently_ambiguous;
  reason = "reconciliation-attempt-or-duration-limit";
  evidence_class = decision.evidence_class;
  reconciliation = some (checked previous now decision now);
  readback_performed = true;
}

-- The plan below the limit: the delay is drawn from 0 to the ceiling.
abbrev pub check_again : Progress → ℕ → (ℕ → ℕ) → Decision → Option ℕ → Option Resolution
check_again previous now uniform decision none = none
check_again previous now uniform decision (some ceiling) = some (record {
  target = outcome_status decision.outcome;
  reason = decision.reason;
  evidence_class = decision.evidence_class;
  reconciliation = some (checked previous now decision (now + uniform ceiling));
  readback_performed = true;
})

-- if decision.outcome is ReconciliationOutcome.RETRY
unfoldable pub reschedule :
    Policy → Intent → ℕ → (ℕ → ℕ) → Decision → Option Progress → Option Resolution
unfolding exhausted backoff_ceiling outcome_status
reschedule policy i now uniform decision none = none
reschedule policy i now uniform decision (some previous) =
    let attempts = previous.attempt_count + 1 in
    let again = check_again previous now uniform decision (backoff_ceiling policy attempts) in
    if exhausted policy i attempts now then some (give_up previous now decision) else again

unfoldable pub by_decision : Policy → Intent → ℕ → (ℕ → ℕ) → Decision → Option Resolution
unfolding reschedule outcome_status
by_decision policy i now uniform decision = elim decision.outcome [
  | retry ↦ reschedule policy i now uniform decision i.reconciliation
  | _ ↦ some (record {
    target = outcome_status decision.outcome;
    reason = decision.reason;
    evidence_class = decision.evidence_class;
    reconciliation = i.reconciliation;
    readback_performed = true;
  })
]

abbrev pub unasked : Intent → String → String → Resolution
unasked i reason evidence = record {
  target = permanently_ambiguous;
  reason = reason;
  evidence_class = evidence;
  reconciliation = i.reconciliation;
  readback_performed = false;
}

-- From declared_capability to _persist_recovery_resolution; a read-back that raised is foreign.
unfoldable pub resolve :
    Policy
    → Intent
    → ℕ
    → (ℕ → ℕ)
    → Declared Capability
    → Declared ReadbackResult
    → Option Resolution
unfolding by_decision
resolve policy i now uniform declared observation = elim (declared_capability declared) [
  | none ↦ some (unasked i "connector-capability-undeclared" "UNDECLARED_CAPABILITY")
  | some no_readback ↦ some (unasked i "connector-has-no-readback" "NO_READBACK")
  | some c ↦ elim (classify_readback c (parse_readback_result observation)) [
    | none ↦ none
    | some decision ↦ by_decision policy i now uniform decision
  ]
]

-- The claim of an orphaned intent
unfoldable pub claim : Intent → ℕ → Option Intent
unfolding transition next_progress
claim i now = elim i.status [ about_to_fire ↦ transition i fired_unconfirmed none now | _ ↦ some i ]

-- How a call that recover_intent depends on ends: it goes on, returns None, or raises.
pub data Gate : Type 0 where
  proceeds returns_none raises_error : Gate

-- A transition of the store with its durability barrier: both go through; nothing is written and an
-- exception is raised; or the state is written and an exception is raised all the same, as the reply of
-- the script is lost or the barrier fails.
pub data Write : Type 0 where
  durable not_written unconfirmed : Write

-- How recover_intent ends.
pub data Ended : Type 0 where
  nothing_done resolved interrupted : Ended

-- The inputs of one call of recover_intent.
pub record Pass : Type 0 where
  pub declared : Declared Capability
  pub observation : Declared ReadbackResult
  pub now : ℕ
  pub uniform : ℕ → ℕ
  -- the first get_execution, and the connector's configuration
  pub first_read : Gate
  -- _acquire
  pub lease : Gate
  -- get_execution and redis_time under the lease
  pub reads : Gate
  -- the claim of an ABOUT_TO_FIRE intent
  pub claims : Write
  -- no checkpoint raises, and read_back no exception that ends the process
  pub survives : Bool
  -- _persist_recovery_resolution
  pub persists : Write
  -- release_lock
  pub releases : Bool

abbrev pub by_gate : Gate → Intent → Ended × Intent → Ended × Intent
by_gate proceeds i o = o
by_gate returns_none i o = (nothing_done, i)
by_gate raises_error i o = (interrupted, i)

abbrev pub on_release : Bool → Ended × Intent → Ended × Intent
on_release true o = o
on_release false o = (interrupted, o.1)

abbrev pub written_as : Write → Intent → Intent → Ended × Intent
written_as durable before after = (resolved, after)
written_as not_written before after = (interrupted, before)
written_as unconfirmed before after = (interrupted, after)

abbrev pub by_transition : Pass → Intent → Option Intent → Ended × Intent
by_transition p k none = (interrupted, k)
by_transition p k (some j) = written_as p.persists k j

unfoldable pub by_plan : Pass → Intent → Option Resolution → Ended × Intent
unfolding transition
by_plan p k none = (interrupted, k)
by_plan p k (some plan) = by_transition p k (transition k plan.target plan.reconciliation p.now)

-- From the declared capability on.
unfoldable pub interrogate : Policy → Pass → Intent → Bool → Ended × Intent
unfolding by_plan resolve
interrogate policy p k false = (interrupted, k)
interrogate policy p k true =
    by_plan p k (resolve policy k p.now p.uniform p.declared p.observation)

-- What the claim writes; an intent that is FIRED_UNCONFIRMED already is not written.
unfoldable pub claim_write : Pass → IntentStatus → Write
claim_write p about_to_fire = p.claims
claim_write p _ = durable

unfoldable pub after_claim : Policy → Pass → Intent → Intent → Write → Ended × Intent
unfolding interrogate
after_claim policy p i k durable = interrogate policy p k p.survives
after_claim policy p i k not_written = (interrupted, i)
after_claim policy p i k unconfirmed = (interrupted, k)

abbrev pub claimed_as : Policy → Pass → Intent → Option Intent → Ended × Intent
claimed_as policy p i none = (interrupted, i)
claimed_as policy p i (some k) = after_claim policy p i k (claim_write p i.status)

abbrev pub by_eligible : Policy → Pass → Intent → Option Bool → Ended × Intent
by_eligible policy p i none = (interrupted, i)
by_eligible policy p i (some false) = (nothing_done, i)
by_eligible policy p i (some true) = claimed_as policy p i (claim i p.now)

-- recover_intent: how it ends, and the intent that the store holds then.
unfoldable pub recover : Policy → Pass → Intent → Ended × Intent
unfolding eligible claim after_claim claim_write
recover policy p i = by_gate p.first_read i (
    by_gate p.lease i
      (on_release p.releases (by_gate p.reads i (by_eligible policy p i (eligible i p.now)))))

abbrev pub goes_on : Gate → Bool
goes_on proceeds = true
goes_on _ = false

abbrev pub goes_through : Write → Bool
goes_through durable = true
goes_through _ = false

-- No call of the pass fails.
abbrev pub is_smooth : Pass → Bool
is_smooth p =
    goes_on p.first_read
    && (goes_on p.lease
        && (p.releases
            && (goes_on p.reads
                && (goes_through p.claims && (p.survives && goes_through p.persists)))))

abbrev pub is_true : Option Bool → Bool
is_true (some b) = b
is_true none = false

abbrev pub tally : Bool → ℕ × Intent → ℕ × Intent
tally b o = (if b then 1 + o.0 else o.0, o.1)

-- Calls of recover_intent for one intent, one after another: how many of them find it due and meet no
-- failure, and what the store holds in the end. This models no function of the source.
unfoldable pub recover_all : Policy → List Pass → Intent → ℕ × Intent
unfolding recover eligible
recover_all policy [] i = (0, i)
recover_all policy (p ∷ ps) i =
    tally (is_true (eligible i p.now) && is_smooth p) (recover_all policy ps (recover policy p i).1)
