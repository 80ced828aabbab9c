-- ===== src/Tests/Scan.antt =====
use research_paper_aep.Base.{List, String, [], if◌then◌else◌, none, refl, some, ℕ, ◌==◌, ◌∷◌, ◌≡◌}
use research_paper_aep.Intents.Status.{about_to_fire}
use research_paper_aep.Recovery.{Intent, eligible}
use research_paper_aep.Recovery.Scan.{
  Candidate, ExecutionRead, RecoveryAnswer, discover, discovery, due_intents, gather, ledger,
  read_fails, record_scan_failure, recovery, recovery_fails, result, scan_once,
}

-- A pass over three executions, one of which is corrupt.

abbrev prepared : ℕ → Intent
prepared t = record { status = about_to_fire; reconcile_after = t; reconciliation = none }

abbrev keys : List (String × ExecutionRead)
keys =
    ("e1", ledger (("i1", prepared 100) ∷ ("i2", prepared 900) ∷ []))
    ∷ ("e2", read_fails "StateCorruptionError")
    ∷ ("e3", ledger (("i3", prepared 100) ∷ ("i4", prepared 100) ∷ []))
    ∷ []

-- the recovery of i3 fails, the others give the id of their intent
abbrev answers : Candidate → RecoveryAnswer String
answers c = if c.1 == "i3" then recovery_fails "WriteAheadWorkflowError" else result c.1

two_recovered :
    scan_once answers 200 keys
    ≡ some (
      "i1" ∷ "i4" ∷ [],
      record {
        execution_id = "e2";
        intent_id = none;
        failure_class = "StateCorruptionError";
        phase = discovery;
      }
          ∷ record {
            execution_id = "e3";
            intent_id = some "i3";
            failure_class = "WriteAheadWorkflowError";
            phase = recovery;
          }
          ∷ [],
    )
unfolding scan_once discover due_intents eligible gather record_scan_failure
two_recovered = refl
