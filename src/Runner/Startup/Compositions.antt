-- ===== src/Runner/Startup/Compositions.antt =====
use research_paper_aep.Base.{Bool, arith, false, true, ◌≡◌}
use research_paper_aep.Runner.Startup.{
  Composition, evaluation, production, returns_after, test, validate_mode, validate_test,
}

-- Which compositions may dispatch.

-- A composition that is accepted in production has no test and no evaluation part and a validated
-- barrier. One that is accepted in evaluation is refused in production; it stays accepted whether its
-- vault is the evaluation vault or not, and is accepted in production once its connector is no
-- evaluation endpoint and its vault is not the evaluation vault. No composition is accepted both in the
-- test mode and in another one.
pub validate_startup_separates :
    (c : Composition)
    → (validate_mode c production ≡ true
        → (c.vault_is_test ≡ false)
          × (c.vault_is_evaluation ≡ false)
          × (c.connector_is_test ≡ false)
          × (c.connector_is_evaluation ≡ false)
          × (c.barrier_is_test ≡ false)
          × (c.barrier_validates ≡ true))
      × (validate_mode c evaluation ≡ true
          → (validate_mode c production ≡ false)
            × ((b : Bool) → validate_mode (record c { vault_is_evaluation = b }) evaluation ≡ true)
            × (validate_mode
                  (record c { connector_is_evaluation = false; vault_is_evaluation = false })
                  production
                ≡ true))
      × (validate_mode c test ≡ true
          → (validate_mode c production ≡ false) × (validate_mode c evaluation ≡ false))
unfolding validate_mode validate_test returns_after
validate_startup_separates c = ground arith
