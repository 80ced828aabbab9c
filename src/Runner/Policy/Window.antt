-- ===== src/Runner/Policy/Window.antt =====
use research_paper_aep.Base.{
  All, Any, Bool, Bool-cases, List, String, [], arith, false, first, inl, inr, leb, leb→le, ltb,
  next, none, or-eq-false, refl, some, str_eq→eq, subst, true, ℕ, ◌+◌, ◌-◌, ◌/◌, ◌<◌, ◌==◌, ◌∷◌,
  ◌≡◌, ◌≢◌, ◌≤◌,
}
use research_paper_aep.Runner.Policy.{
  ConnectorPolicy, dispatch_window_ms, exceeds_lease, first_failure, has_member, less_than,
  overlaps, post_init, tests, whole_milliseconds,
}
use research_paper_aep.Floats.{Number, below, difference, exactly, infinite, less, minus, nan}

-- What an accepted policy guarantees to a dispatch.

first_failure-none :
    (ts : List (Bool × String)) → first_failure ts ≡ none → All (λ t. t.0 ≡ false) ts
unfolding first_failure
first_failure-none [] h = tt
first_failure-none ((true, message) ∷ rest) h = cc
first_failure-none ((false, message) ∷ rest) h = (refl, first_failure-none rest h)

fits_lease :
    (client margin lock : ℕ)
    → exceeds_lease (exactly client) (exactly margin) (exactly lock) ≡ false
    → client + margin ≤ lock
unfolding exceeds_lease less minus difference
fits_lease c m l h = elim (Bool-cases (leb m l)) [
  | inl e ↦ by_difference (leb→le m l e) (rw (e, less) at h)
  | inr e ↦ absurd (true≢false (rw (e, less) at h))
]
  where
    by_difference : m ≤ l → ltb (l - m) c ≡ false → c + m ≤ l
    by_difference p q = ground arith

    true≢false : true ≢ false
    true≢false q = cc

has_member-Any : (s : String) (xs : List String) → has_member s xs ≡ true → Any (λ x. x ≡ s) xs
unfolding has_member
has_member-Any s [] h = cc
has_member-Any s (x ∷ xs) h = elim (Bool-cases (x == s)) [
  | inl e ↦ first (str_eq→eq x s e)
  | inr e ↦ next (has_member-Any s xs (rw e at h))
]

overlaps-member :
    (s : String) (xs ys : List String)
    → overlaps xs ys ≡ false
    → Any (λ x. x ≡ s) xs
    → has_member s ys ≡ false
unfolding overlaps
overlaps-member s [] ys h m = elim m [ ]
overlaps-member s (x ∷ xs) ys h (first e) =
    subst (λ z. has_member z ys ≡ false) e (or-eq-false _ _ h).0
overlaps-member s (x ∷ xs) ys h (next rest) = overlaps-member s xs ys (or-eq-false _ _ h).1 rest

at_least : (m n : ℕ) → less_than (exactly m) n ≡ false → n ≤ m
unfolding less_than less
at_least m n h = ground arith

nan_fits : (client lock : Number) → exceeds_lease client nan lock ≡ false
unfolding exceeds_lease less minus
nan_fits client (below m) = refl
nan_fits client (exactly m) = refl
nan_fits client infinite = refl
nan_fits client nan = refl

nan_small : less_than nan 15000000 ≡ false
unfolding less_than less
nan_small = refl

no_window : (client : Number) → whole_milliseconds client nan ≡ none
unfolding whole_milliseconds
no_window (below m) = refl
no_window (exactly m) = refl
no_window infinite = refl
no_window nan = refl

passes-first_failure :
    (ts : List (Bool × String)) → All (λ t. t.0 ≡ false) ts → first_failure ts ≡ none
unfolding first_failure
passes-first_failure [] h = refl
passes-first_failure ((failed, message) ∷ rest) h = rw h.0 (passes-first_failure rest h.1)

-- In an accepted policy whose client timeout, margin, lease and attempt limit are finite: the floor of
-- the preflight, client timeout and safety margin, is defined and fits into a lease that was just taken;
-- it is 15 seconds at least; at least one attempt of reconciliation is allowed; and no evidence is
-- declared both a success and a failure. The policy stays accepted with NaN for its margin, and its
-- floor is then undefined.
pub post_init_sound :
    (p : ConnectorPolicy) (client margin lock most : ℕ)
    → p.client_timeout ≡ exactly client
    → p.buffer_margin ≡ exactly margin
    → p.lock_ttl ≡ exactly lock
    → p.max_reconciliation_attempts ≡ exactly most
    → post_init p ≡ none
    → (window : ℕ) × (dispatch_window_ms p ≡ some window)
      × (window ≤ lock / 1000)
      × (15000 ≤ window)
      × (0 < most)
      × ((s : String)
          → has_member s p.definitive_success_evidence ≡ true
          → has_member s p.definitive_failure_evidence ≡ false)
      × (post_init (record p { buffer_margin = nan }) ≡ none)
      × (dispatch_window_ms (record p { buffer_margin = nan }) ≡ none)
unfolding post_init tests dispatch_window_ms whole_milliseconds
post_init_sound p client margin lock most c m l a h =
    let passed = first_failure-none (tests p) h in
    let (positive, (settles, (wide, (short, rest)))) = passed in
    let floor = at_least margin 15000000 (subst (λ x. less_than x 15000000 ≡ false) m wide) in
    let fits = fits_lease client margin lock (rw (c, m, l) at short) in
    let attempts = at_least most 1 (subst (λ x. less_than x 1 ≡ false) a rest.1.0) in
    let apart = rest.1.1.1.1.1.1.1.1.0 in
    (
      (client + margin) / 1000,
      rw (c, m) refl,
      omega (arith, fits),
      omega (arith, floor),
      omega (arith, attempts),
      λ s k. overlaps-member s _ _ apart (has_member-Any s _ k),
      passes-first_failure (tests (record p { buffer_margin = nan }))
          (positive, (settles, (nan_small, (nan_fits p.client_timeout p.lock_ttl, rest)))),
      no_window p.client_timeout,
    )
