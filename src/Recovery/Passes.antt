-- ===== src/Recovery/Passes.antt =====
use research_paper_aep.Base.{
  Bool, List, [], ap, arith, false, false≢true, if◌then◌else◌, inl, inr, leb, refl, some, subst,
  sym, true, ℕ, ◌&&◌, ◌+◌, ◌<◌, ◌∙◌, ◌∷◌, ◌≡◌, ◌≤◌, ◌⊎◌,
}
use research_paper_aep.Intents.Status.{
  IntentStatus, about_to_fire, failed_confirmed, fired_confirmed, fired_unconfirmed, is_unresolved,
  permanently_ambiguous,
}
use research_paper_aep.Recovery.{
  Ended, Gate, Intent, Pass, Policy, by_gate, eligible, is_smooth, is_true, nothing_done,
  on_release, proceeds, raises_error, recover, recover_all, returns_none, tally,
}
use research_paper_aep.Recovery.Bounded.{
  Claimed, Concluded, Counted, HasProgress, Passed, attempts, recover_due,
}

-- Over any sequence of passes, with whatever connectors answer and whatever fails, an intent is due
-- only so often.

abbrev pub Bounded : Policy → Intent → ℕ × Intent → Type 0
Bounded policy i o =
    (o.0 + attempts i ≤ policy.max_reconciliation_attempts)
    × (is_unresolved o.1.status ≡ true → o.0 + attempts i < policy.max_reconciliation_attempts)

eligible-settled :
    (i : Intent) (now : ℕ) → is_unresolved i.status ≡ false → eligible i now ≡ some false
unfolding eligible is_unresolved
eligible-settled i now u = by_status i.status refl
  where
    by_status : (s : IntentStatus) → i.status ≡ s → eligible i now ≡ some false
    by_status about_to_fire e = absurd (false≢true (sym (rw e at u)))
    by_status fired_unconfirmed e = absurd (false≢true (sym (rw e at u)))
    by_status fired_confirmed e = rw e
    by_status failed_confirmed e = rw e
    by_status permanently_ambiguous e = rw e

pub eligible-HasProgress :
    (i : Intent) (now : ℕ) → HasProgress i → (due : Bool) × (eligible i now ≡ some due)
unfolding eligible
eligible-HasProgress i now has = by_status i.status refl
  where
    by_status : (s : IntentStatus) → i.status ≡ s → (due : Bool) × (eligible i now ≡ some due)
    by_status about_to_fire e = (leb i.reconcile_after now, rw e)
    by_status fired_unconfirmed e = let (p, r) = has e in (leb p.next_check_at now, rw (e, r))
    by_status fired_confirmed e = (false, rw e)
    by_status failed_confirmed e = (false, rw e)
    by_status permanently_ambiguous e = (false, rw e)

by_gate-same : (g : Gate) (i : Intent) (o : Ended × Intent) → o.1 ≡ i → (by_gate g i o).1 ≡ i
by_gate-same proceeds i o h = h
by_gate-same returns_none i o h = refl
by_gate-same raises_error i o h = refl

on_release-same : (b : Bool) (i : Intent) (o : Ended × Intent) → o.1 ≡ i → (on_release b o).1 ≡ i
on_release-same true i o h = h
on_release-same false i o h = h

recover-not_due :
    (policy : Policy) (p : Pass) (i : Intent)
    → eligible i p.now ≡ some false
    → (recover policy p i).1 ≡ i
unfolding recover
recover-not_due policy p i e = rw e (
    by_gate-same p.first_read i _ (
      by_gate-same p.lease i _
        (on_release-same p.releases i _ (by_gate-same p.reads i (nothing_done, i) refl))))

recover_all-idle :
    (policy : Policy) (p : Pass) (ps : List Pass) (i : Intent)
    → eligible i p.now ≡ some false
    → recover_all policy (p ∷ ps) i ≡ recover_all policy ps i
unfolding recover_all
recover_all-idle policy p ps i e =
    ap (λ o. tally (is_true o && is_smooth p) (recover_all policy ps (recover policy p i).1)) e
    ∙ ap (recover_all policy ps) (recover-not_due policy p i e)

recover_all-settled :
    (policy : Policy) (ps : List Pass) (i : Intent)
    → is_unresolved i.status ≡ false
    → recover_all policy ps i ≡ (0, i)
unfolding recover_all
recover_all-settled policy [] i u = refl
recover_all-settled policy (p ∷ ps) i u =
    recover_all-idle policy p ps i (eligible-settled i p.now u) ∙ recover_all-settled policy ps i u

-- An intent that counts its attempts, below the limit
record Open (policy : Policy) (i : Intent) : Type 0 where
  has : HasProgress i
  below : attempts i < policy.max_reconciliation_attempts

Counted-Open :
    (policy : Policy) (i j : Intent) (now : ℕ) (uniform : ℕ → ℕ)
    → Counted policy i now uniform j
    → Open policy j × (attempts j ≡ attempts i + 1)
Counted-Open policy i j now uniform c =
    let same : attempts j ≡ c.next.attempt_count = rw (c.again, c.recorded) in
    (
      record {
        has = λ _. (c.next, c.recorded);
        below = subst (λ (n : ℕ). n < policy.max_reconciliation_attempts) (sym same) c.below;
      },
      same ∙ c.counted,
    )

Claimed-Open :
    (policy : Policy) (i k : Intent)
    → Claimed i k
    → Open policy i
    → Open policy k × (attempts k ≡ attempts i)
Claimed-Open policy i k c open_i =
    let same : attempts k ≡ c.progress.attempt_count = rw (c.doubted, c.kept) in
    let count = same ∙ c.same_count in
    (
      record {
        has = λ _. (c.progress, c.kept);
        below = subst (λ (n : ℕ). n < policy.max_reconciliation_attempts) (sym count) open_i.below;
      },
      count,
    )

-- What a due pass leaves: a settled intent, or one with no less than the attempts it has used up.
Left : Policy → Intent → Bool → Intent → Type 0
Left policy i smooth j =
    (is_unresolved j.status ≡ false)
    ⊎ (Open policy j × ((if smooth then 1 else 0) + attempts i ≤ attempts j))

Concluded-Left :
    (policy : Policy) (p : Pass) (i j : Intent) (smooth : Bool)
    → Concluded policy p i j
    → Left policy i smooth j
unfolding Left
Concluded-Left policy p i j smooth (inl s) = inl s.settled
Concluded-Left policy p i j true (inr c) =
    let (o, count) = Counted-Open policy i j p.now p.uniform c in inr (o, omega (arith, count))
Concluded-Left policy p i j false (inr c) =
    let (o, count) = Counted-Open policy i j p.now p.uniform c in inr (o, omega (arith, count))

Passed-Left :
    (policy : Policy) (p : Pass) (i : Intent) (smooth : Bool) (o : Ended × Intent)
    → Open policy i
    → Passed policy p i smooth o
    → Left policy i smooth o.1
unfolding Left
Passed-Left policy p i true o open_i (reached, concluded, ends) =
    Concluded-Left policy p i o.1 true (concluded (ends refl))
Passed-Left policy p i false o open_i (inl same, _, _) =
    subst (λ j. Left policy i false j) (sym same) (inr (open_i, omega arith))
Passed-Left policy p i false o open_i (inr (inl c), _, _) =
    let (k, count) = Claimed-Open policy i o.1 c open_i in inr (k, omega (arith, count))
Passed-Left policy p i false o open_i (inr (inr c), _, _) = Concluded-Left policy p i o.1 false c

after_due :
    (policy : Policy) (ps : List Pass) (i j : Intent) (smooth : Bool)
    → Open policy i
    → Left policy i smooth j
    → (Open policy j → Bounded policy j (recover_all policy ps j))
    → Bounded policy i (tally smooth (recover_all policy ps j))
unfolding Left
after_due policy ps i j smooth open_i (inl u) later =
    rw (recover_all-settled policy ps j u) (one smooth, λ v. absurd (false≢true (sym u ∙ v)))
  where
    one : (b : Bool) → (if b then 1 + 0 else 0) + attempts i ≤ policy.max_reconciliation_attempts
    one true = let below = open_i.below in omega (arith, below)
    one false = let below = open_i.below in omega (arith, below)
after_due policy ps i j true open_i (inr (o, used)) later =
    let (most, less_) = later o in
    (omega (arith, most, used), λ u. let l = less_ u in omega (arith, l, used))
after_due policy ps i j false open_i (inr (o, used)) later =
    let (most, less_) = later o in
    (omega (arith, most, used), λ u. let l = less_ u in omega (arith, l, used))

-- Under a policy of at most 1025 attempts, whatever the connectors declare and answer, whenever the
-- passes run and whatever fails in them: at most as many of those in which no call fails as the policy
-- has attempts left find the intent due, and where it is still unsettled in the end fewer did.
pub recover_all-Bounded :
    (policy : Policy) (ps : List Pass) (i : Intent)
    → policy.max_reconciliation_attempts ≤ 1025
    → HasProgress i
    → attempts i < policy.max_reconciliation_attempts
    → Bounded policy i (recover_all policy ps i)
unfolding recover_all
recover_all-Bounded policy [] i limited has below = (omega arith, λ _. omega arith)
recover_all-Bounded policy (p ∷ ps) i limited has below =
    let (due, e) = eligible-HasProgress i p.now has in
    elim due
        as (λ d. eligible i p.now ≡ some d → Bounded policy i (recover_all policy (p ∷ ps) i)) [
          | false ↦ λ e.
              subst (Bounded policy i) (sym (recover_all-idle policy p ps i e))
                (recover_all-Bounded policy ps i limited has below)
          | true ↦ λ e.
              let open_i : Open policy i = record { has = has; below = below } in
              let passed = recover_due policy p i limited e has in
              let left = Passed-Left policy p i (is_smooth p) _ open_i passed in
              subst (Bounded policy i)
                (sym (
                  ap
                    (λ o.
                      tally (is_true o && is_smooth p)
                        (recover_all policy ps (recover policy p i).1))
                    e))
                (after_due policy ps i (recover policy p i).1 (is_smooth p) open_i left
                  (λ o. recover_all-Bounded policy ps (recover policy p i).1 limited o.has o.below))
        ]
      e
