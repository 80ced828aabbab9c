-- ===== src/Runner/Execute/Order.antt =====
use research_paper_aep.Base.{
  Bool, Bool-cases, List, [], ap, arith, false, if◌then◌else◌, inl, inr, refl, true, ℕ, ◌&&◌, ◌++◌,
  ◌+◌, ◌∙◌, ◌∷◌, ◌≡◌, ◌⊎◌,
}
use research_paper_aep.Intents.Status.{IntentStatus, failed_confirmed}
use research_paper_aep.Runner.Policy.{ConnectorPolicy}
use research_paper_aep.Runner.Execute.{
  Event, PreflightAnswer, Trace, World, acknowledged, after_intent, authorized, dispatch, emit,
  execute, fails, intent_written, lease_released, lease_taken, mutated, passes, preflight_failed,
  preflight_passed, raises, release, resolution_written, resolve, stop, target_status, under_lease,
}

-- The order of a dispatch.

abbrev pub mutations : List Event → ℕ
mutations [] = 0
mutations (mutated ∷ es) = 1 + mutations es
mutations (_ ∷ es) = mutations es

-- What follows the call of the provider: the resolution that its answer stands for, or nothing
abbrev pub Resolves : IntentStatus → List Event → Type 0
Resolves target es = (es ≡ []) ⊎ (es ≡ resolution_written target ∷ [])

-- No call of the provider, or one after these steps, followed by the resolution
abbrev pub Calls : List Event → IntentStatus → List Event → Type 0
Calls steps target es =
    (mutations es ≡ 0)
    ⊎ ((rest : List Event) × (es ≡ steps ++ (mutated ∷ rest)) × Resolves target rest)

resolve-Resolves : (w : World) (target : IntentStatus) → Resolves target (resolve w target).0
unfolding resolve
resolve-Resolves w target = elim (Bool-cases w.resolution_persisted) [
  | inr e ↦ rw e (inl refl)
  | inl e ↦ elim (Bool-cases w.resolution_durable) [
    | inl d ↦ rw (e, d) (inr refl)
    | inr d ↦ rw (e, d) (inr refl)
  ]
]

preflight_failed-mutations : (w : World) → mutations (preflight_failed w).0 ≡ 0
unfolding preflight_failed
preflight_failed-mutations w =
    elim (Bool-cases (w.owns_lease_after_preflight && w.preflight_failure_persisted)) [
      | inr e ↦ rw e refl
      | inl e ↦ elim (Bool-cases w.preflight_failure_durable) [
        | inl d ↦ rw (e, d) refl
        | inr d ↦ rw (e, d) refl
      ]
    ]

-- One more step before the others
Calls-emit :
    (e : Event) (steps es : List Event) (target : IntentStatus)
    → mutations (e ∷ es) ≡ mutations es
    → Calls steps target es
    → Calls (e ∷ steps) target (e ∷ es)
Calls-emit e steps es target same (inl none_is) = inl (same ∙ none_is)
Calls-emit e steps es target same (inr (rest, shape, resolved)) =
    inr (rest, ap (λ fs. e ∷ fs) shape, resolved)

Calls-if :
    (b : Bool) (steps : List Event) (target : IntentStatus) (x y : Trace)
    → Calls steps target x.0
    → Calls steps target y.0
    → Calls steps target (if b then x else y).0
Calls-if true steps target x y h k = h
Calls-if false steps target x y h k = k

module _ (p : ConnectorPolicy) (w : World) where
  abbrev target : IntentStatus
  target = target_status p w.mutate

  dispatch-Calls :
      (answer : PreflightAnswer) → Calls (preflight_passed ∷ []) target (dispatch p w answer).0
  unfolding dispatch
  dispatch-Calls raises = inl refl
  dispatch-Calls fails = inl (preflight_failed-mutations w)
  dispatch-Calls passes =
      let sent : Trace = emit mutated (resolve w target) in
      Calls-emit preflight_passed [] (if w.binding_verified then sent else stop).0 target refl (
        Calls-if w.binding_verified [] target sent stop
          (inr ((resolve w target).0, refl, resolve-Resolves w target)) (inl refl))

  after_intent-Calls :
      Calls (acknowledged ∷ authorized ∷ preflight_passed ∷ []) target (after_intent p w).0
  unfolding after_intent
  after_intent-Calls =
      let sent = dispatch p w w.preflight in
      let steps : List Event = authorized ∷ preflight_passed ∷ [] in
      let rest : Trace = if w.dispatch_authorized then emit authorized sent else stop in
      let local : Trace =
        if w.owns_lease_after_barrier && w.no_dispatch_persisted
        then emit (resolution_written failed_confirmed) stop
        else stop in
      Calls-if w.barrier_acknowledges (acknowledged ∷ steps) target (emit acknowledged rest) local
        (Calls-emit acknowledged steps rest.0 target refl (
          Calls-if w.dispatch_authorized steps target (emit authorized sent) stop
            (Calls-emit authorized (preflight_passed ∷ []) sent.0 target refl
              (dispatch-Calls w.preflight))
            (inl refl)))
        (Calls-if (w.owns_lease_after_barrier && w.no_dispatch_persisted) (acknowledged ∷ steps)
          target (emit (resolution_written failed_confirmed) stop) stop (inl refl) (inl refl))

  under_lease-Calls :
      Calls
        (intent_written ∷ acknowledged ∷ authorized ∷ preflight_passed ∷ [])
        target
        (under_lease p w).0
  unfolding under_lease
  under_lease-Calls =
      let steps : List Event = acknowledged ∷ authorized ∷ preflight_passed ∷ [] in
      Calls-if (w.state_exists && (w.binding_prepared && w.intent_created)) (intent_written ∷ steps)
        target (emit intent_written (after_intent p w)) stop
        (Calls-emit intent_written steps (after_intent p w).0 target refl after_intent-Calls)
        (inl refl)

mutations-append : (es fs : List Event) → mutations (es ++ fs) ≡ mutations es + mutations fs
mutations-append [] fs = omega arith
mutations-append (mutated ∷ es) fs = omega (arith, mutations-append es fs)
mutations-append (lease_taken ∷ es) fs = mutations-append es fs
mutations-append (intent_written ∷ es) fs = mutations-append es fs
mutations-append (acknowledged ∷ es) fs = mutations-append es fs
mutations-append (authorized ∷ es) fs = mutations-append es fs
mutations-append (preflight_passed ∷ es) fs = mutations-append es fs
mutations-append (lease_released ∷ es) fs = mutations-append es fs
mutations-append (resolution_written s ∷ es) fs = mutations-append es fs

-- Whatever the calls of a run answer: it does not call the provider, or it calls it once, and its effects
-- are exactly the lease, the intent, the acknowledgement, the authorization, the preflight, the call, at
-- most the resolution that the answer stands for, and the release of the lease, in this order.
pub execute_once :
    (p : ConnectorPolicy) (w : World)
    → (mutations (execute p w).0 ≡ 0)
      ⊎ ((rest : List Event) × ((execute p w).0
            ≡ lease_taken
              ∷ intent_written
              ∷ acknowledged
              ∷ authorized
              ∷ preflight_passed
              ∷ mutated
              ∷ (rest ++ (lease_released ∷ [])))
          × Resolves (target_status p w.mutate) rest)
unfolding execute
execute_once p w =
    by_held (w.startup_valid && w.lease_acquired) (under_lease p w) (under_lease-Calls p w)
  where
    by_held :
        (b : Bool) (t : Trace)
        → Calls
            (intent_written ∷ acknowledged ∷ authorized ∷ preflight_passed ∷ [])
            (target_status p w.mutate)
            t.0
        → (mutations (if b then emit lease_taken (release t) else stop).0 ≡ 0)
          ⊎ ((rest : List Event) × ((if b then emit lease_taken (release t) else stop).0
                ≡ lease_taken
                  ∷ intent_written
                  ∷ acknowledged
                  ∷ authorized
                  ∷ preflight_passed
                  ∷ mutated
                  ∷ (rest ++ (lease_released ∷ [])))
              × Resolves (target_status p w.mutate) rest)
    by_held false t calls = inl refl
    by_held true t (inl none_is) =
        let count = mutations-append t.0 (lease_released ∷ []) in
        inl (omega (arith, count, none_is))
    by_held true t (inr (rest, shape, resolved)) =
        inr (rest, ap (λ es. lease_taken ∷ (es ++ (lease_released ∷ []))) shape, resolved)
