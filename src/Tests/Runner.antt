-- ===== src/Tests/Runner.antt =====
use research_paper_aep.Base.{
  Bool, List, String, [], false, none, refl, some, true, ℕ, ◌++◌, ◌/◌, ◌<◌, ◌∷◌, ◌≡◌, ◌≤◌, ◌⊎◌,
}
use research_paper_aep.Intents.Status.{fired_unconfirmed}
use research_paper_aep.Runner.Policy.{
  ConnectorPolicy, dispatch_window_ms, exceeds_lease, first_failure, has_member, less_than,
  overlaps, post_init, tests,
}
use research_paper_aep.Runner.Policy.Window.{post_init_sound}
use research_paper_aep.Runner.Startup.{
  Composition, evaluation, production, returns_after, test, validate_mode, validate_startup,
}
use research_paper_aep.Runner.Startup.Compositions.{validate_startup_separates}
use research_paper_aep.Runner.Execute.{
  Event, World, acknowledged, after_intent, authorized, dispatch, execute, intent_written,
  lease_released, lease_taken, mutated, passes, preflight_passed, resolution_written, resolve,
  returned, target_status, throws, under_lease,
}
use research_paper_aep.Runner.Execute.Order.{Resolves, execute_once, mutations}
use research_paper_aep.Floats.{difference, exactly, less, minus, nan}

-- One policy, one composition and some runs.

abbrev policy : ConnectorPolicy
policy = record {
  client_timeout = exactly 10000000;
  settlement_lag = exactly 0;
  buffer_margin = exactly 15000000;
  lock_ttl = exactly 60000000;
  durability_timeout_ms = exactly 1000;
  max_reconciliation_attempts = exactly 8;
  max_reconciliation_duration = exactly 86400000000;
  backoff_base = exactly 5000000;
  backoff_cap = exactly 300000000;
  lease_acquire_attempts = exactly 3;
  lease_backoff_cap = exactly 1000000;
  definitive_success_evidence = "DEFINITIVE_SUCCESS" ∷ [];
  definitive_failure_evidence = "DEFINITIVE_FAILURE" ∷ [];
}

accepted : post_init policy ≡ none
unfolding post_init first_failure tests less_than exceeds_lease less minus difference overlaps
    has_member
accepted = refl

-- a client timeout that leaves no margin in the lease
too_long :
    post_init (record policy { client_timeout = exactly 50000000 })
    ≡ some "T_client must be <= T_lock - Buffer_Margin"
unfolding post_init first_failure tests less_than exceeds_lease less minus difference overlaps
    has_member
too_long = refl

post_init_sound_example :
    (window : ℕ) × (dispatch_window_ms policy ≡ some window)
    × (window ≤ 60000000 / 1000)
    × (15000 ≤ window)
    × (0 < 8)
    × ((s : String)
        → has_member s policy.definitive_success_evidence ≡ true
        → has_member s policy.definitive_failure_evidence ≡ false)
    × (post_init (record policy { buffer_margin = nan }) ≡ none)
    × (dispatch_window_ms (record policy { buffer_margin = nan }) ≡ none)
post_init_sound_example =
    post_init_sound policy 10000000 15000000 60000000 8 refl refl refl refl accepted

abbrev evaluating : Composition
evaluating = record {
  mode = evaluation;
  allow_test_dispatch = false;
  allow_test_barrier = false;
  vault_is_test = false;
  vault_is_evaluation = true;
  connector_is_test = false;
  connector_is_evaluation = true;
  barrier_is_test = false;
  barrier_validates = true;
}

evaluates : validate_startup evaluating ≡ true
unfolding validate_startup validate_mode returns_after
evaluates = refl

validate_startup_separates_example :
    (validate_mode evaluating production ≡ true
      → (evaluating.vault_is_test ≡ false)
        × (evaluating.vault_is_evaluation ≡ false)
        × (evaluating.connector_is_test ≡ false)
        × (evaluating.connector_is_evaluation ≡ false)
        × (evaluating.barrier_is_test ≡ false)
        × (evaluating.barrier_validates ≡ true))
    × (validate_mode evaluating evaluation ≡ true
        → (validate_mode evaluating production ≡ false)
          × ((b : Bool)
              → validate_mode (record evaluating { vault_is_evaluation = b }) evaluation ≡ true)
          × (validate_mode
                (record evaluating { connector_is_evaluation = false; vault_is_evaluation = false })
                production
              ≡ true))
    × (validate_mode evaluating test ≡ true
        → (validate_mode evaluating production ≡ false)
          × (validate_mode evaluating evaluation ≡ false))
validate_startup_separates_example = validate_startup_separates evaluating

abbrev smooth : World
smooth = record {
  startup_valid = true;
  lease_acquired = true;
  state_exists = true;
  binding_prepared = true;
  intent_created = true;
  barrier_acknowledges = true;
  owns_lease_after_barrier = true;
  no_dispatch_persisted = true;
  dispatch_authorized = true;
  preflight = passes;
  owns_lease_after_preflight = true;
  preflight_failure_persisted = true;
  preflight_failure_durable = true;
  binding_verified = true;
  mutate = throws;
  resolution_persisted = true;
  resolution_durable = true;
}

-- an exception of the connector leaves the attempt in doubt
doubtful : execute policy smooth ≡ (
  lease_taken
      ∷ intent_written
      ∷ acknowledged
      ∷ authorized
      ∷ preflight_passed
      ∷ mutated
      ∷ resolution_written fired_unconfirmed
      ∷ lease_released
      ∷ [],
  returned fired_unconfirmed,
)
unfolding execute under_lease after_intent dispatch resolve
doubtful = refl

execute_once_example :
    (mutations (execute policy smooth).0 ≡ 0)
    ⊎ ((rest : List Event) × ((execute policy smooth).0
          ≡ lease_taken
            ∷ intent_written
            ∷ acknowledged
            ∷ authorized
            ∷ preflight_passed
            ∷ mutated
            ∷ (rest ++ (lease_released ∷ [])))
        × Resolves (target_status policy smooth.mutate) rest)
execute_once_example = execute_once policy smooth
