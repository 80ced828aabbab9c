-- ===== src/Runner/Startup.antt =====
-- validate_startup of WriteAheadRunner in aep_core/core/intent_workflow.py.
pub mod Compositions
use research_paper_aep.Base.{Bool, List, [], if◌then◌else◌, not, true, ◌&&◌, ◌∷◌}

pub data DispatchMode : Type 0 where
  production evaluation test : DispatchMode

-- The attributes that the composition declares, and what the validation of a barrier answers
pub record Composition : Type 0 where
  pub mode : DispatchMode
  pub allow_test_dispatch : Bool
  pub allow_test_barrier : Bool
  pub vault_is_test : Bool
  pub vault_is_evaluation : Bool
  pub connector_is_test : Bool
  pub connector_is_evaluation : Bool
  pub barrier_is_test : Bool
  -- _validate_real_barrier does not raise
  pub barrier_validates : Bool

-- A chain of tests, each of which raises where it fails: the answer is whether the method returns.
unfoldable pub returns_after : List Bool → Bool
returns_after [] = true
returns_after (b ∷ rest) = b && returns_after rest

unfoldable pub validate_test : Composition → Bool
unfolding returns_after
validate_test c =
    returns_after (c.allow_test_dispatch ∷ c.vault_is_test ∷ c.connector_is_test ∷ [])
    && (if c.barrier_is_test then c.allow_test_barrier else c.barrier_validates)

unfoldable pub validate_mode : Composition → DispatchMode → Bool
unfolding returns_after validate_test
validate_mode c test = validate_test c
validate_mode c production = returns_after (
    not c.vault_is_test
    ∷ not c.barrier_is_test
    ∷ not c.connector_is_test
    ∷ not c.connector_is_evaluation
    ∷ not c.vault_is_evaluation
    ∷ c.barrier_validates
    ∷ [])
validate_mode c evaluation = returns_after (
    not c.vault_is_test
    ∷ not c.barrier_is_test
    ∷ not c.connector_is_test
    ∷ c.connector_is_evaluation
    ∷ c.barrier_validates
    ∷ [])

-- whether validate_startup returns
unfoldable pub validate_startup : Composition → Bool
unfolding validate_mode
validate_startup c = validate_mode c c.mode
