-- ===== src/Recovery/Plan.antt =====
use research_paper_aep.Base.{
  Bool-cases, Option, Option-cases, arith, false, inl, inr, le→leb, min, refl, some, subst, sym, ℕ,
  ◌*◌, ◌+◌, ◌-◌, ◌<◌, ◌^◌, ◌∙◌, ◌≡◌, ◌≤◌, ◌⊎◌,
}
use research_paper_aep.Intents.Status.{
  failed_confirmed, fired_confirmed, fired_unconfirmed, is_unresolved, permanently_ambiguous,
}
use research_paper_aep.Contract.{
  Capability, Decision, Declared, ReadbackResult, applied, authoritative_readback, classify_queried,
  classify_readback, conflict, declared_capability, no_readback, not_applied, parse_readback_result,
  positive_only_readback, retry, unknown,
}
use research_paper_aep.Recovery.{
  Intent, Policy, Progress, Resolution, backoff_ceiling, by_decision, exhausted, outcome_status,
  reschedule, resolve,
}

-- What recovery plans for an intent that it has claimed: it settles it or schedules another check.

-- A plan that leaves the intent unsettled counts one more attempt below the limit, before the deadline,
-- and schedules the next check at most the backoff ceiling later.
pub record Reschedules (policy : Policy) (i : Intent) (p : Progress) (now : ℕ) (uniform : ℕ → ℕ)
    (plan : Resolution) : Type 0 where
  pub next : Progress
  pub again : plan.target ≡ fired_unconfirmed
  pub recorded : plan.reconciliation ≡ some next
  pub counted : next.attempt_count ≡ p.attempt_count + 1
  pub below : p.attempt_count + 1 < policy.max_reconciliation_attempts
  pub early : now < i.reconcile_after + policy.max_reconciliation_duration
  pub later :
      (ceiling : ℕ) × (backoff_ceiling policy (p.attempt_count + 1) ≡ some ceiling)
      × (next.next_check_at ≡ now + uniform ceiling)

-- A plan that settles: where it confirms or refutes, a connector that may say so has said so.
pub record Settles (declared : Declared Capability) (observation : Declared ReadbackResult)
    (plan : Resolution) : Type 0 where
  pub settled : is_unresolved plan.target ≡ false
  pub applied_seen : plan.target ≡ fired_confirmed → parse_readback_result observation ≡ applied
  pub absent_seen :
      plan.target ≡ failed_confirmed
      → (declared_capability declared ≡ some authoritative_readback)
        × (parse_readback_result observation ≡ not_applied)

abbrev pub Planned :
    Policy
    → Intent
    → Progress
    → ℕ
    → (ℕ → ℕ)
    → Declared Capability
    → Declared ReadbackResult
    → Option Resolution
    → Type 0
Planned policy i p now uniform declared observation planned =
    (plan : Resolution) × (planned ≡ some plan)
    × (Settles declared observation plan ⊎ Reschedules policy i p now uniform plan)

has_ceiling :
    (policy : Policy) (attempt : ℕ)
    → 1 ≤ attempt
    → attempt ≤ 1024
    → (ceiling : ℕ) × (backoff_ceiling policy attempt ≡ some ceiling)
unfolding backoff_ceiling
has_ceiling policy attempt p q = (
  min (policy.backoff_base * 2 ^ (attempt - 1)) policy.backoff_cap,
  rw (le→leb 1 attempt p, le→leb attempt 1024 q) refl,
)

module _ (policy : Policy) (i : Intent) (p : Progress) (now : ℕ) (uniform : ℕ → ℕ)
    (declared : Declared Capability) (observation : Declared ReadbackResult)
    (limited : policy.max_reconciliation_attempts ≤ 1025) where
  escalates :
      (plan : Resolution) → plan.target ≡ permanently_ambiguous → Settles declared observation plan
  unfolding is_unresolved
  escalates plan e = record { settled = rw e; applied_seen = λ q. cc; absent_seen = λ q. cc }

  confirms :
      (plan : Resolution)
      → plan.target ≡ fired_confirmed
      → parse_readback_result observation ≡ applied
      → Settles declared observation plan
  unfolding is_unresolved
  confirms plan e o = record {
    settled = rw e;
    applied_seen = λ _. o;
    absent_seen = λ q. absurd (apart (sym e ∙ q));
  }
    where
      apart : fired_confirmed ≡ failed_confirmed → ⊥
      apart q = cc

  refutes :
      (plan : Resolution)
      → plan.target ≡ failed_confirmed
      → declared_capability declared ≡ some authoritative_readback
      → parse_readback_result observation ≡ not_applied
      → Settles declared observation plan
  unfolding is_unresolved
  refutes plan e d o = record { settled = rw e; applied_seen = λ q. cc; absent_seen = λ _. (d, o) }

  resolve-unknown :
      (decision : Decision)
      → decision.outcome ≡ retry
      → Planned policy i p now uniform declared observation
          (reschedule policy i now uniform decision (some p))
  unfolding reschedule exhausted outcome_status is_unresolved
  resolve-unknown decision e = elim (Bool-cases (exhausted policy i (p.attempt_count + 1) now)) [
    | inl over ↦ rw over (_, refl, inl (escalates _ refl))
    | inr under ↦
        let below : p.attempt_count + 1 < policy.max_reconciliation_attempts =
          ground (arith, under) in
        let early : now < i.reconcile_after + policy.max_reconciliation_duration =
          ground (arith, under) in
        let (ceiling, drawn) =
          has_ceiling policy (p.attempt_count + 1) (omega arith) (omega (arith, below, limited)) in
        rw (under, drawn)
          (
            _,
            refl,
            inr (record {
              next = _;
              again = rw e refl;
              recorded = refl;
              counted = refl;
              below = below;
              early = early;
              later = (ceiling, drawn, refl);
            }),
          )
  ]

  resolve-stored :
      (decision : Decision)
      → decision.outcome ≡ retry
      → i.reconciliation ≡ some p
      → Planned policy i p now uniform declared observation
          (reschedule policy i now uniform decision i.reconciliation)
  resolve-stored decision e stored =
      subst
        (λ o.
          Planned policy i p now uniform declared observation
            (reschedule policy i now uniform decision o))
        (sym stored) (resolve-unknown decision e)

  planned :
      (c : Capability) (r : ReadbackResult)
      → declared_capability declared ≡ some c
      → parse_readback_result observation ≡ r
      → i.reconciliation ≡ some p
      → Planned policy i p now uniform declared observation
          (resolve policy i now uniform declared observation)
  unfolding resolve by_decision classify_readback classify_queried outcome_status is_unresolved
  planned no_readback r d o e = rw (d, resolve) (_, refl, inl (escalates _ refl))
  planned authoritative_readback applied d o e =
      rw (d, o, resolve) (_, refl, inl (confirms _ refl o))
  planned authoritative_readback not_applied d o e =
      rw (d, o, resolve) (_, refl, inl (refutes _ refl d o))
  planned authoritative_readback conflict d o e =
      rw (d, o, resolve) (_, refl, inl (escalates _ refl))
  planned authoritative_readback unknown d o e = rw (d, o, resolve) (resolve-stored _ refl e)
  planned positive_only_readback applied d o e =
      rw (d, o, resolve) (_, refl, inl (confirms _ refl o))
  planned positive_only_readback not_applied d o e =
      rw (d, o, resolve) (_, refl, inl (escalates _ refl))
  planned positive_only_readback conflict d o e =
      rw (d, o, resolve) (_, refl, inl (escalates _ refl))
  planned positive_only_readback unknown d o e = rw (d, o, resolve) (resolve-stored _ refl e)

  -- Where the policy allows 1025 attempts at most, recovery has a plan for a claimed intent, one that settles it or one that counts an attempt.
  pub resolve-Planned :
      i.reconciliation ≡ some p
      → Planned policy i p now uniform declared observation
          (resolve policy i now uniform declared observation)
  unfolding resolve
  resolve-Planned e = elim (Option-cases (declared_capability declared)) [
    | inl d ↦ rw (d, resolve) (_, refl, inl (escalates _ refl))
    | inr (c, d) ↦ planned c (parse_readback_result observation) d refl e
  ]
