-- ===== src/Runner/Policy.antt =====
-- ConnectorPolicy of aep_core/core/intent_workflow.py. Durations count microseconds.
pub mod Window
use research_paper_aep.Base.{
  Bool, List, Option, String, [], false, if◌then◌else◌, none, some, true, ℕ, ◌+◌, ◌/◌, ◌==◌, ◌||◌,
  ◌∷◌,
}
use research_paper_aep.Intents.Status.{
  IntentStatus, failed_confirmed, fired_confirmed, fired_unconfirmed,
}
use research_paper_aep.Floats.{Number, exactly, less, minus}

pub record ConnectorPolicy : Type 0 where
  pub client_timeout : Number
  pub settlement_lag : Number
  pub buffer_margin : Number
  pub lock_ttl : Number
  pub durability_timeout_ms : Number
  pub max_reconciliation_attempts : Number
  pub max_reconciliation_duration : Number
  pub backoff_base : Number
  pub backoff_cap : Number
  pub lease_acquire_attempts : Number
  pub lease_backoff_cap : Number
  pub definitive_success_evidence : List String
  pub definitive_failure_evidence : List String

-- x < n for a natural bound n
unfoldable pub less_than : Number → ℕ → Bool
unfolding less
less_than x n = less x (exactly n)

-- client > lock - margin
unfoldable pub exceeds_lease : Number → Number → Number → Bool
unfolding less minus
exceeds_lease client margin lock = less (minus lock margin) client

unfoldable pub has_member : String → List String → Bool
has_member s [] = false
has_member s (x ∷ xs) = x == s || has_member s xs

-- the two sets have a common member
unfoldable pub overlaps : List String → List String → Bool
unfolding has_member
overlaps [] ys = false
overlaps (x ∷ xs) ys = has_member x ys || overlaps xs ys

abbrev pub is_empty : List String → Bool
is_empty [] = true
is_empty (_ ∷ _) = false

-- The tests in their order; the first that holds raises ValueError with its message.
unfoldable pub first_failure : List (Bool × String) → Option String
first_failure [] = none
first_failure ((failed, message) ∷ rest) =
    let later = first_failure rest in if failed then some message else later

unfoldable pub tests : ConnectorPolicy → List (Bool × String)
unfolding less_than exceeds_lease overlaps
tests p =
    (less_than p.client_timeout 1, "client_timeout_seconds must be positive")
    ∷ (less_than p.settlement_lag 0, "settlement_lag_seconds cannot be negative")
    ∷ (less_than p.buffer_margin 15000000, "buffer_margin_seconds must be at least 15")
    ∷ (
      exceeds_lease p.client_timeout p.buffer_margin p.lock_ttl,
      "T_client must be <= T_lock - Buffer_Margin",
    )
    ∷ (less_than p.durability_timeout_ms 1, "durability_timeout_ms must be positive")
    ∷ (less_than p.max_reconciliation_attempts 1, "max_reconciliation_attempts must be positive")
    ∷ (
      less_than p.max_reconciliation_duration 1,
      "max_reconciliation_duration_seconds must be positive",
    )
    ∷ (
      less_than p.backoff_base 0 || less_than p.backoff_cap 0,
      "reconciliation backoff values cannot be negative",
    )
    ∷ (less_than p.lease_acquire_attempts 1, "lease_acquire_attempts must be positive")
    ∷ (less_than p.lease_backoff_cap 0, "lease_backoff_cap_seconds cannot be negative")
    ∷ (is_empty p.definitive_success_evidence, "connector must declare definitive success evidence")
    ∷ (is_empty p.definitive_failure_evidence, "connector must declare definitive failure evidence")
    ∷ (
      overlaps p.definitive_success_evidence p.definitive_failure_evidence,
      "success and failure evidence declarations overlap",
    )
    ∷ []

-- __post_init__: the message of the ValueError, none where the policy is accepted
unfoldable pub post_init : ConnectorPolicy → Option String
unfolding first_failure tests
post_init p = first_failure (tests p)

-- int(x * 1000) of the sum of two durations that are not negative: none where int raises, which it does
-- at NaN and at infinity.
unfoldable pub whole_milliseconds : Number → Number → Option ℕ
whole_milliseconds (exactly client) (exactly margin) = some ((client + margin) / 1000)
whole_milliseconds _ _ = none

-- dispatch_window_ms of execute, which is also the floor of the preflight
unfoldable pub dispatch_window_ms : ConnectorPolicy → Option ℕ
unfolding whole_milliseconds
dispatch_window_ms p = whole_milliseconds p.client_timeout p.buffer_margin

-- What execute reads of an evidence value: none where the response has no text there
unfoldable pub classify_response : ConnectorPolicy → Option String → IntentStatus
unfolding has_member
classify_response p none = fired_unconfirmed
classify_response p (some evidence) =
    if has_member evidence p.definitive_success_evidence
    then fired_confirmed
    else if has_member evidence p.definitive_failure_evidence
    then failed_confirmed
    else fired_unconfirmed
