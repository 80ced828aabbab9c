-- ===== src/Tests/Recovery.antt =====
use research_paper_aep.Base.{[], arith, false, none, refl, some, true, ℕ, ◌/◌, ◌∷◌, ◌≡◌}
use research_paper_aep.Intents.Status.{
  about_to_fire, fired_unconfirmed, is_legal, permanently_ambiguous,
}
use research_paper_aep.Contract.{
  ambiguous, applied, authoritative_readback, capability_of, classify_queried, classify_readback,
  confirmed, declared_capability, foreign, not_applied, parse_readback_result, refuted,
  result_is_permitted, result_text, retry, unknown, written,
}
use research_paper_aep.Contract.Authority.{settles_permitted}
use research_paper_aep.Recovery.{
  Intent, Pass, Policy, after_claim, backoff_ceiling, by_decision, by_plan, claim, claim_write,
  durable, eligible, exhausted, interrogate, is_smooth, next_progress, outcome_status, proceeds,
  recover, recover_all, reschedule, resolve, transition, unconfirmed,
}
use research_paper_aep.Recovery.Bounded.{HasProgress, Passed, recover_due}
use research_paper_aep.Recovery.Passes.{Bounded, recover_all-Bounded}

-- Recovery of one prepared intent.

abbrev policy : Policy
policy = record {
  max_reconciliation_attempts = 2;
  max_reconciliation_duration = 1000;
  backoff_base = 10;
  backoff_cap = 60;
}

abbrev orphan : Intent
orphan = record { status = about_to_fire; reconcile_after = 200; reconciliation = none }

abbrev half : ℕ → ℕ
half n = n / 2

abbrev silent_pass : ℕ → Pass
silent_pass t = record {
  declared = written "POSITIVE_ONLY_READBACK";
  observation = foreign;
  now = t;
  uniform = half;
  first_read = proceeds;
  lease = proceeds;
  reads = proceeds;
  claims = durable;
  survives = true;
  persists = durable;
  releases = true;
}

-- a pass whose claim is written and not confirmed
abbrev unconfirmed_claim : ℕ → Pass
unconfirmed_claim t = record (silent_pass t) { claims = unconfirmed }

orphan-HasProgress : HasProgress orphan
orphan-HasProgress e = absurd (apart e)
  where
    apart : about_to_fire ≡ fired_unconfirmed → ⊥
    apart q = cc

orphan_due : eligible orphan 200 ≡ some true
unfolding eligible
orphan_due = refl

-- after a claim that was not confirmed, two silent answers use up the attempts
given_up :
    recover_all policy
      (unconfirmed_claim 200 ∷ silent_pass 201 ∷ silent_pass 300 ∷ silent_pass 400 ∷ [])
      orphan
    ≡ (
      2,
      record {
        status = permanently_ambiguous;
        reconcile_after = 200;
        reconciliation = some (record {
          attempt_count = 2;
          first_check_at = some 201;
          last_check_at = some 300;
          next_check_at = 300;
          last_evidence_class = some "UNKNOWN";
        });
      },
    )
unfolding recover_all recover eligible claim claim_write after_claim interrogate by_plan resolve
    transition next_progress is_legal by_decision reschedule exhausted backoff_ceiling
    outcome_status classify_readback classify_queried declared_capability capability_of
    parse_readback_result result_text
given_up = refl

-- no float holds 2^1024
no_ceiling : backoff_ceiling policy 1025 ≡ none
unfolding backoff_ceiling
no_ceiling = refl

recover_due_example :
    Passed policy
      (silent_pass 200)
      orphan
      (is_smooth (silent_pass 200))
      (recover policy (silent_pass 200) orphan)
recover_due_example =
    recover_due policy (silent_pass 200) orphan (omega arith) orphan_due orphan-HasProgress

recover_all-Bounded_example :
    Bounded policy orphan (recover_all policy (silent_pass 200 ∷ silent_pass 300 ∷ []) orphan)
recover_all-Bounded_example =
    recover_all-Bounded policy (silent_pass 200 ∷ silent_pass 300 ∷ []) orphan (omega arith)
      orphan-HasProgress (omega arith)

absent_refutes :
    classify_readback authoritative_readback not_applied
    ≡ some (record {
      outcome = refuted;
      reason = "authoritative-readback-not-applied";
      evidence_class = "NOT_APPLIED";
    })
unfolding classify_readback classify_queried
absent_refutes = refl

settles_permitted_example :
    (refuted ≡ confirmed
      → (not_applied ≡ applied) × (result_is_permitted authoritative_readback not_applied ≡ true))
    × (refuted ≡ refuted
        → (authoritative_readback ≡ authoritative_readback)
          × (not_applied ≡ not_applied)
          × (result_is_permitted authoritative_readback not_applied ≡ true))
    × (refuted ≡ retry → not_applied ≡ unknown)
    × (result_is_permitted authoritative_readback not_applied ≡ false → refuted ≡ ambiguous)
settles_permitted_example = settles_permitted authoritative_readback not_applied _ absent_refutes
