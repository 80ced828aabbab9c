-- ===== src/Contract.antt =====
-- aep_core/core/connector_contract.py: what a connector may assert about a call whose outcome is not
-- known, and what the protocol makes of it. A ConnectorContractError is none.
pub mod Authority
pub mod Spelling
use research_paper_aep.Base.{Bool, Option, String, false, if◌then◌else◌, none, some, true, ◌==◌}

pub data Capability : Type 0 where
  authoritative_readback positive_only_readback no_readback : Capability

pub data ReadbackResult : Type 0 where
  applied not_applied unknown conflict : ReadbackResult

pub data Outcome : Type 0 where
  confirmed refuted ambiguous retry : Outcome

unfoldable pub capability_text : Capability → String
capability_text authoritative_readback = "AUTHORITATIVE_READBACK"
capability_text positive_only_readback = "POSITIVE_ONLY_READBACK"
capability_text no_readback = "NO_READBACK"

unfoldable pub result_text : ReadbackResult → String
result_text applied = "APPLIED"
result_text not_applied = "NOT_APPLIED"
result_text unknown = "UNKNOWN"
result_text conflict = "CONFLICT"

-- PERMITTED_READBACK_RESULTS and result_is_permitted
unfoldable pub result_is_permitted : Capability → ReadbackResult → Bool
result_is_permitted authoritative_readback _ = true
result_is_permitted positive_only_readback not_applied = false
result_is_permitted positive_only_readback _ = true
result_is_permitted no_readback _ = false

pub record Decision : Type 0 where
  pub outcome : Outcome
  pub reason : String
  pub evidence_class : String

-- A Python value that should be a member of an enum of strings: a member, a string, or anything else,
-- an attribute that is not there included.
pub data Declared {ℓ} (A : Type ℓ) : Type ℓ where
  member : A → Declared A
  written : String → Declared A
  foreign : Declared A

-- ReconciliationCapability(text), which raises for any other text
unfoldable pub capability_of : String → Option Capability
capability_of s =
    if s == "AUTHORITATIVE_READBACK"
    then some authoritative_readback
    else if s == "POSITIVE_ONLY_READBACK"
    then some positive_only_readback
    else if s == "NO_READBACK"
    then some no_readback
    else none

unfoldable pub declared_capability : Declared Capability → Option Capability
declared_capability (member c) = some c
declared_capability (written s) = capability_of s
declared_capability foreign = none

-- ReadbackResult(text), UNKNOWN where it raises
unfoldable pub result_of : String → ReadbackResult
result_of s =
    if s == "APPLIED"
    then applied
    else if s == "NOT_APPLIED"
    then not_applied
    else if s == "UNKNOWN"
    then unknown
    else if s == "CONFLICT"
    then conflict
    else unknown

-- The observation is the value that the two getattr calls leave.
unfoldable pub parse_readback_result : Declared ReadbackResult → ReadbackResult
unfolding result_of
parse_readback_result (member r) = r
parse_readback_result (written s) = result_of s
parse_readback_result foreign = unknown

abbrev pub applied_reason : Capability → String
applied_reason authoritative_readback = "authoritative-readback-applied"
applied_reason _ = "positive-only-readback-applied"

abbrev pub absent_decision : Capability → Decision
absent_decision authoritative_readback = record {
  outcome = refuted;
  reason = "authoritative-readback-not-applied";
  evidence_class = "NOT_APPLIED";
}
absent_decision _ = record {
  outcome = ambiguous;
  reason = "positive-only-negative-evidence-contract-violation";
  evidence_class = "NOT_APPLIED";
}

-- The classification below the tests of its arguments
unfoldable pub classify_queried : Capability → ReadbackResult → Decision
unfolding result_text
classify_queried c applied = record {
  outcome = confirmed;
  reason = applied_reason c;
  evidence_class = result_text applied;
}
classify_queried c not_applied = absent_decision c
classify_queried c conflict = record {
  outcome = ambiguous;
  reason = "conflicting-readback-evidence";
  evidence_class = result_text conflict;
}
classify_queried c unknown = record {
  outcome = retry;
  reason = "reconciliation-unknown-scheduled-backoff";
  evidence_class = result_text unknown;
}

-- The type tests of classify_readback hold by the types of its arguments here.
unfoldable pub classify_readback : Capability → ReadbackResult → Option Decision
unfolding classify_queried
classify_readback no_readback r = none
classify_readback c r = some (classify_queried c r)
