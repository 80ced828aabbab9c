-- ===== src/Recovery/Scan.antt =====
-- scan_once of aep_core/core/intent_recovery.py: one pass over all executions. What a read of an execution
-- and a recovery of an intent come to is given; a cancellation is not among it.
pub mod Isolation
use research_paper_aep.Base.{
  List, Option, String, [], if◌then◌else◌, length, ltb, none, some, ℕ, ◌++◌, ◌∷◌,
}
use research_paper_aep.Recovery.{Intent, eligible}

infixl 5 ◌>>=◌
abbrev pub ◌>>=◌ {ℓ κ} : {A : Type ℓ} {B : Type κ} → Option A → (A → Option B) → Option B
none >>= f = none
some a >>= f = f a

pub data Phase : Type 0 where
  discovery recovery : Phase

pub record ScanFailure : Type 0 where
  pub execution_id : String
  pub intent_id : Option String
  pub failure_class : String
  pub phase : Phase

-- get_execution: an exception, no state, or the intents of the ledger
pub data ExecutionRead : Type 0 where
  read_fails : String → ExecutionRead
  no_state : ExecutionRead
  ledger : List (String × Intent) → ExecutionRead

-- recover_intent: an exception, nothing to do, or a result
pub data RecoveryAnswer (R : Type 0) : Type 0 where
  recovery_fails : String → RecoveryAnswer R
  nothing : RecoveryAnswer R
  result : R → RecoveryAnswer R

abbrev pub Candidate : Type 0
Candidate = String × String

-- _record_scan_failure keeps at most MAX_RETAINED_SCAN_FAILURES.
unfoldable pub record_scan_failure : List ScanFailure → ScanFailure → List ScanFailure
record_scan_failure failures f =
    if ltb (length failures) 256 then failures ++ (f ∷ []) else failures

-- for intent in state.intent_ledger.values(); none where the assertion of _eligible fails
unfoldable pub due_intents :
    ℕ → String → List (String × Intent) → List Candidate → Option (List Candidate)
unfolding eligible
due_intents now id [] candidates = some candidates
due_intents now id ((i, intent) ∷ rest) candidates = do
  due ← eligible intent now
  due_intents now id rest (if due then candidates ++ ((id, i) ∷ []) else candidates)

-- async for key in scan_iter
unfoldable pub discover :
    ℕ
    → List (String × ExecutionRead)
    → List Candidate
    → List ScanFailure
    → Option (List Candidate × List ScanFailure)
unfolding due_intents record_scan_failure
discover now [] candidates failures = some (candidates, failures)
discover now ((id, read_fails failure_class) ∷ rest) candidates failures =
    discover now rest candidates (
      record_scan_failure failures (record {
        execution_id = id;
        intent_id = none;
        failure_class = failure_class;
        phase = discovery;
      }))
discover now ((id, no_state) ∷ rest) candidates failures = discover now rest candidates failures
discover now ((id, ledger intents) ∷ rest) candidates failures = do
  found ← due_intents now id intents candidates
  discover now rest found failures

module _ {R : Type 0} (answer : Candidate → RecoveryAnswer R) where
  -- for ..., outcome in zip(candidates, gathered)
  unfoldable pub gather : List Candidate → List R → List ScanFailure → List R × List ScanFailure
  unfolding record_scan_failure
  gather [] results failures = (results, failures)
  gather (c ∷ rest) results failures = elim (answer c) [
    | recovery_fails failure_class ↦ gather rest results (
        record_scan_failure failures (record {
          execution_id = c.0;
          intent_id = some c.1;
          failure_class = failure_class;
          phase = recovery;
        }))
    | nothing ↦ gather rest results failures
    | result r ↦ gather rest (results ++ (r ∷ [])) failures
  ]

  unfoldable pub scan_once : ℕ → List (String × ExecutionRead) → Option (List R × List ScanFailure)
  unfolding discover gather
  scan_once now keys = do found ← discover now keys [] []; some (gather found.0 [] found.1)
