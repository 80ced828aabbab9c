-- ===== src/Contract/Authority.antt =====
use research_paper_aep.Base.{arith, false, inl, inr, refl, some, true, ◌≡◌, ◌⊎◌}
use research_paper_aep.Contract.{
  Capability, Decision, ReadbackResult, ambiguous, applied, authoritative_readback,
  classify_queried, classify_readback, confirmed, no_readback, not_applied, positive_only_readback,
  refuted, result_is_permitted, retry, unknown,
}

-- What a classification rests on.

-- Evidence that settles an attempt was permitted to its connector, and an attempt is refuted only on
-- the word of an endpoint that can prove absence.
pub settles_permitted :
    (c : Capability) (r : ReadbackResult) (d : Decision)
    → classify_readback c r ≡ some d
    → (d.outcome ≡ confirmed → (r ≡ applied) × (result_is_permitted c r ≡ true))
      × (d.outcome ≡ refuted
          → (c ≡ authoritative_readback) × (r ≡ not_applied) × (result_is_permitted c r ≡ true))
      × (d.outcome ≡ retry → r ≡ unknown)
      × (result_is_permitted c r ≡ false → d.outcome ≡ ambiguous)
unfolding classify_readback classify_queried result_is_permitted
settles_permitted c r d h = grind arith

-- The classification answers exactly for the capabilities that are ever queried.
pub classify_readback-total :
    (c : Capability)
    → ((r : ReadbackResult) → (d : Decision) × (classify_readback c r ≡ some d)) ⊎ (c ≡ no_readback)
unfolding classify_readback
classify_readback-total authoritative_readback = inl (λ r. (_, refl))
classify_readback-total positive_only_readback = inl (λ r. (_, refl))
classify_readback-total no_readback = inr refl
