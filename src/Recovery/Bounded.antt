-- ===== src/Recovery/Bounded.antt =====
use research_paper_aep.Base.{
  Bool, Option, and-true, ap, false, inl, inr, max, none, refl, some, subst, sym, true, ℕ, ◌&&◌,
  ◌+◌, ◌<◌, ◌∙◌, ◌≡◌, ◌≢◌, ◌≤◌, ◌⊎◌,
}
use research_paper_aep.Intents.Status.{
  IntentStatus, about_to_fire, failed_confirmed, fired_confirmed, fired_unconfirmed, is_legal,
  is_unresolved, permanently_ambiguous,
}
use research_paper_aep.Recovery.{
  Ended, Gate, Intent, Pass, Policy, Progress, Resolution, Write, after_claim, backoff_ceiling,
  by_gate, by_plan, claim, claim_write, claimed_as, durable, eligible, goes_on, goes_through,
  interrogate, interrupted, is_smooth, next_progress, not_written, nothing_done, on_release,
  proceeds, raises_error, recover, resolved, returns_none, transition, unconfirmed, written_as,
}
use research_paper_aep.Contract.{
  Capability, Declared, ReadbackResult, applied, authoritative_readback, declared_capability,
  not_applied, parse_readback_result,
}
use research_paper_aep.Recovery.Plan.{Reschedules, Settles, resolve-Planned}

-- What a recovery pass leaves of an intent, whatever fails in it.

-- A FIRED_UNCONFIRMED record has its progress, which the model of the record demands.
abbrev pub HasProgress : Intent → Type 0
HasProgress i = i.status ≡ fired_unconfirmed → (p : Progress) × (i.reconciliation ≡ some p)

-- The attempts that a record counts; a prepared one counts none.
abbrev pub attempts_of : IntentStatus → Option Progress → ℕ
attempts_of fired_unconfirmed (some p) = p.attempt_count
attempts_of _ _ = 0

abbrev pub attempts : Intent → ℕ
attempts i = attempts_of i.status i.reconciliation

-- A claimed record, with the attempts of the one before
pub record Claimed (i k : Intent) : Type 0 where
  pub doubted : k.status ≡ fired_unconfirmed
  pub progress : Progress
  pub kept : k.reconciliation ≡ some progress
  pub same_count : progress.attempt_count ≡ attempts i
  pub same_time : k.reconcile_after ≡ i.reconcile_after

claim-prepared :
    (i : Intent) (now : ℕ)
    → i.status ≡ about_to_fire
    → (k : Intent) × (claim i now ≡ some k) × Claimed i k
unfolding claim transition next_progress is_legal
claim-prepared i now e = (
  fresh,
  rw e,
  record { doubted = refl; progress = start; kept = refl; same_count = rw e; same_time = refl },
)
  where
    start : Progress
    start = record {
      attempt_count = 0;
      first_check_at = none;
      last_check_at = none;
      next_check_at = max i.reconcile_after now;
      last_evidence_class = none;
    }

    fresh : Intent
    fresh = record i { status = fired_unconfirmed; reconciliation = some start }

claim-doubted :
    (i : Intent) (now : ℕ) (p : Progress)
    → i.status ≡ fired_unconfirmed
    → i.reconciliation ≡ some p
    → (k : Intent) × (claim i now ≡ some k) × Claimed i k
unfolding claim
claim-doubted i now p e r = (
  i,
  rw e,
  record { doubted = e; progress = p; kept = r; same_count = rw (e, r); same_time = refl },
)

transition-settles :
    (k : Intent) (t : IntentStatus) (o : Option Progress) (now : ℕ)
    → k.status ≡ fired_unconfirmed
    → is_unresolved t ≡ false
    → (j : Intent) × (transition k t o now ≡ some j) × (j.status ≡ t)
unfolding transition next_progress is_legal is_unresolved
transition-settles k about_to_fire o now e u = cc
transition-settles k fired_unconfirmed o now e u = cc
transition-settles k fired_confirmed none now e u = rw (e, transition) (_, refl, refl)
transition-settles k fired_confirmed (some q) now e u = rw (e, transition) (_, refl, refl)
transition-settles k failed_confirmed none now e u = rw (e, transition) (_, refl, refl)
transition-settles k failed_confirmed (some q) now e u = rw (e, transition) (_, refl, refl)
transition-settles k permanently_ambiguous none now e u = rw (e, transition) (_, refl, refl)
transition-settles k permanently_ambiguous (some q) now e u = rw (e, transition) (_, refl, refl)

transition-again :
    (k : Intent) (q : Progress) (now : ℕ)
    → k.status ≡ fired_unconfirmed
    → transition k fired_unconfirmed (some q) now
      ≡ some (record k { status = fired_unconfirmed; reconciliation = some q })
unfolding transition next_progress is_legal
transition-again k q now e = rw e

-- What one due pass leaves
pub record Counted (policy : Policy) (i : Intent) (now : ℕ) (uniform : ℕ → ℕ) (j : Intent)
    : Type 0 where
  pub next : Progress
  pub again : j.status ≡ fired_unconfirmed
  pub recorded : j.reconciliation ≡ some next
  pub counted : next.attempt_count ≡ attempts i + 1
  pub below : next.attempt_count < policy.max_reconciliation_attempts
  pub early : now < i.reconcile_after + policy.max_reconciliation_duration
  pub scheduled :
      (ceiling : ℕ) × (backoff_ceiling policy (attempts i + 1) ≡ some ceiling)
      × (next.next_check_at ≡ now + uniform ceiling)

-- What a due pass leaves that settles: a conclusion is backed by the observation.
pub record Settled (declared : Declared Capability) (observation : Declared ReadbackResult)
    (j : Intent) : Type 0 where
  pub settled : is_unresolved j.status ≡ false
  pub applied_seen : j.status ≡ fired_confirmed → parse_readback_result observation ≡ applied
  pub absent_seen :
      j.status ≡ failed_confirmed
      → (declared_capability declared ≡ some authoritative_readback)
        × (parse_readback_result observation ≡ not_applied)

-- What a pass leaves that persists a plan.
abbrev pub Concluded : Policy → Pass → Intent → Intent → Type 0
Concluded policy p i j = Settled p.declared p.observation j ⊎ Counted policy i p.now p.uniform j

-- What a pass leaves: the intent as it was, its claim, or a persisted plan.
abbrev pub Reached : Policy → Pass → Intent → Intent → Type 0
Reached policy p i j = (j ≡ i) ⊎ (Claimed i j ⊎ Concluded policy p i j)

-- The pass leaves one of these; a resolved pass has persisted a plan; and it resolves where ok is true.
abbrev pub Passed : Policy → Pass → Intent → Bool → Ended × Intent → Type 0
Passed policy p i ok o =
    Reached policy p i o.1
    × (o.0 ≡ resolved → Concluded policy p i o.1)
    × (ok ≡ true → o.0 ≡ resolved)

module _ (policy : Policy) (p : Pass) (i : Intent)
    (limited : policy.max_reconciliation_attempts ≤ 1025) where
  persist :
      (k : Intent) (claimed : Claimed i k) (plan : Resolution)
      → Settles p.declared p.observation plan
        ⊎ Reschedules policy k claimed.progress p.now p.uniform plan
      → (j : Intent) × (transition k plan.target plan.reconciliation p.now ≡ some j)
        × Concluded policy p i j
  persist k claimed plan (inl s) =
      let (j, e, same) =
        transition-settles k plan.target plan.reconciliation p.now claimed.doubted s.settled in
      (
        j,
        e,
        inl (record {
          settled = ap is_unresolved same ∙ s.settled;
          applied_seen = λ q. s.applied_seen (sym same ∙ q);
          absent_seen = λ q. s.absent_seen (sym same ∙ q);
        }),
      )
  persist k claimed plan (inr s) = (
    record k { status = fired_unconfirmed; reconciliation = some s.next },
    rw (s.again, s.recorded) (transition-again k s.next p.now claimed.doubted),
    inr (record {
      next = s.next;
      again = refl;
      recorded = refl;
      counted = s.counted ∙ ap (λ n. n + 1) claimed.same_count;
      below = subst (λ (n : ℕ). n < policy.max_reconciliation_attempts) (sym s.counted) s.below;
      early =
          subst (λ (n : ℕ). p.now < n + policy.max_reconciliation_duration) claimed.same_time
            s.early;
      scheduled =
          subst
            (λ n.
              (ceiling : ℕ) × (backoff_ceiling policy (n + 1) ≡ some ceiling)
              × (s.next.next_check_at ≡ p.now + p.uniform ceiling))
            claimed.same_count s.later;
    }),
  )

  stops :
      (e : Ended) (j : Intent)
      → e ≢ resolved
      → Reached policy p i j
      → Passed policy p i false (e, j)
  stops e j never reached = (reached, λ q. absurd (never q), λ q. cc)

  broken : interrupted ≢ resolved
  broken q = cc

  idle : nothing_done ≢ resolved
  idle q = cc

  weaker : (a b : Bool) (o : Ended × Intent) → Passed policy p i b o → Passed policy p i (a && b) o
  weaker a b o (reached, concluded, ends) = (reached, concluded, λ q. ends (and-true a b q).1)

  written_as-Passed :
      (w : Write) (k j : Intent)
      → Claimed i k
      → Concluded policy p i j
      → Passed policy p i (goes_through w) (written_as w k j)
  written_as-Passed durable k j claimed c = (inr (inr c), λ q. c, λ q. refl)
  written_as-Passed not_written k j claimed c = stops interrupted k broken (inr (inl claimed))
  written_as-Passed unconfirmed k j claimed c = stops interrupted j broken (inr (inr c))

  interrogate-Passed :
      (b : Bool) (k : Intent)
      → Claimed i k
      → Passed policy p i (b && goes_through p.persists) (interrogate policy p k b)
  unfolding interrogate by_plan
  interrogate-Passed false k claimed = stops interrupted k broken (inr (inl claimed))
  interrogate-Passed true k claimed =
      let (plan, planned, how) =
        resolve-Planned policy k claimed.progress p.now p.uniform p.declared p.observation limited
          claimed.kept in
      let (j, moved, c) = persist k claimed plan how in
      rw (planned, by_plan, moved) (written_as-Passed p.persists k j claimed c)

  after_claim-Passed :
      (w : Write) (k : Intent)
      → Claimed i k
      → Passed policy p i
          (goes_through w && (p.survives && goes_through p.persists))
          (after_claim policy p i k w)
  unfolding after_claim
  after_claim-Passed durable k claimed = interrogate-Passed p.survives k claimed
  after_claim-Passed not_written k claimed = stops interrupted i broken (inl refl)
  after_claim-Passed unconfirmed k claimed = stops interrupted k broken (inr (inl claimed))

  by_gate-Passed :
      (g : Gate) (ok : Bool) (o : Ended × Intent)
      → Passed policy p i ok o
      → Passed policy p i (goes_on g && ok) (by_gate g i o)
  by_gate-Passed proceeds ok o h = h
  by_gate-Passed returns_none ok o h = stops nothing_done i idle (inl refl)
  by_gate-Passed raises_error ok o h = stops interrupted i broken (inl refl)

  on_release-Passed :
      (b ok : Bool) (o : Ended × Intent)
      → Passed policy p i ok o
      → Passed policy p i (b && ok) (on_release b o)
  on_release-Passed true ok o h = h
  on_release-Passed false ok o h = stops interrupted o.1 broken h.0

  claim-Claimed :
      eligible i p.now ≡ some true
      → HasProgress i
      → (k : Intent) × (claim i p.now ≡ some k)
        × Claimed i k
        × ((claim_write p i.status ≡ p.claims) ⊎ (claim_write p i.status ≡ durable))
  unfolding eligible claim_write
  claim-Claimed due has = by_status i.status refl
    where
      not_due : some false ≡ some true → ⊥
      not_due q = cc

      by_status :
          (s : IntentStatus)
          → i.status ≡ s
          → (k : Intent) × (claim i p.now ≡ some k)
            × Claimed i k
            × ((claim_write p i.status ≡ p.claims) ⊎ (claim_write p i.status ≡ durable))
      by_status about_to_fire e =
          let (k, c, d) = claim-prepared i p.now e in (k, c, d, inl (rw e refl))
      by_status fired_unconfirmed e =
          let (q, r) = has e in
          let (k, c, d) = claim-doubted i p.now q e r in (k, c, d, inr (rw e refl))
      by_status fired_confirmed e = absurd (not_due (rw e at due))
      by_status failed_confirmed e = absurd (not_due (rw e at due))
      by_status permanently_ambiguous e = absurd (not_due (rw e at due))

  claimed_as-Passed :
      (k : Intent)
      → Claimed i k
      → (claim_write p i.status ≡ p.claims) ⊎ (claim_write p i.status ≡ durable)
      → Passed policy p i
          (goes_through p.claims && (p.survives && goes_through p.persists))
          (claimed_as policy p i (some k))
  unfolding claim_write
  claimed_as-Passed k claimed (inl e) =
      subst
        (λ w.
          Passed policy p i (goes_through p.claims && (p.survives && goes_through p.persists))
            (after_claim policy p i k w))
        (sym e) (after_claim-Passed p.claims k claimed)
  claimed_as-Passed k claimed (inr e) =
      subst
        (λ w.
          Passed policy p i (goes_through p.claims && (p.survives && goes_through p.persists))
            (after_claim policy p i k w))
        (sym e) (weaker (goes_through p.claims) _ _ (after_claim-Passed durable k claimed))

  -- A call of recover_intent on a due record with its progress, under a policy of at most 1025 attempts,
  -- whatever its calls of the lease, the store, the connector and the barrier do. It leaves the intent as
  -- it was, or claimed with as many attempts, or with a persisted plan; it has persisted a plan if it
  -- returns a result, and it does return one if no call fails. A persisted plan either settles the intent,
  -- confirmed only where the observation is APPLIED and refuted only where it is NOT_APPLIED and the
  -- connector declares an authoritative read-back; or it counts one more attempt, below the limit and
  -- before the deadline, and the next check is due after a delay drawn up to the ceiling.
  pub recover_due :
      eligible i p.now ≡ some true
      → HasProgress i
      → Passed policy p i (is_smooth p) (recover policy p i)
  unfolding recover
  recover_due due has =
      let (k, claimed_is, claimed, how) = claim-Claimed due has in
      rw (due, claimed_is)
        (by_gate-Passed p.first_read _ _ (
          by_gate-Passed p.lease _ _ (
            on_release-Passed p.releases _ _
              (by_gate-Passed p.reads _ _ (claimed_as-Passed k claimed how)))))
