-- ===== src/Contract/Spelling.antt =====
use research_paper_aep.Base.{
  Bool-cases, String, ap, inl, inr, none, refl, some, str_eq→eq, ◌==◌, ◌↔◌, ◌∙◌, ◌≡◌, ◌⊎◌,
}
use research_paper_aep.Contract.{
  Capability, ReadbackResult, applied, authoritative_readback, capability_of, capability_text,
  conflict, declared_capability, no_readback, not_applied, parse_readback_result,
  positive_only_readback, result_of, result_text, unknown, written,
}

-- The texts of the enums and their reading.

some-inj {ℓ} : {A : Type ℓ} {a b : A} → some a ≡ some b → a ≡ b
some-inj e = cc

capability_of-text :
    (s : String) (c : Capability) → capability_of s ≡ some c → s ≡ capability_text c
unfolding capability_of capability_text
capability_of-text s c h = elim (Bool-cases (s == "AUTHORITATIVE_READBACK")) [
  | inl e ↦ str_eq→eq s _ e ∙ ap capability_text (some-inj (rw e at h))
  | inr e ↦ elim (Bool-cases (s == "POSITIVE_ONLY_READBACK")) [
    | inl p ↦ str_eq→eq s _ p ∙ ap capability_text (some-inj (rw (e, p) at h))
    | inr p ↦ elim (Bool-cases (s == "NO_READBACK")) [
      | inl n ↦ str_eq→eq s _ n ∙ ap capability_text (some-inj (rw (e, p, n) at h))
      | inr n ↦ absurd (none-some (rw (e, p, n) at h))
    ]
  ]
]
  where
    none-some : none ≡ some c → ⊥
    none-some q = cc

text-capability_of : (c : Capability) → capability_of (capability_text c) ≡ some c
unfolding capability_of capability_text
text-capability_of authoritative_readback = refl
text-capability_of positive_only_readback = refl
text-capability_of no_readback = refl

result_of-text : (s : String) → (result_of s ≡ unknown) ⊎ (s ≡ result_text (result_of s))
unfolding result_of result_text
result_of-text s = elim (Bool-cases (s == "APPLIED")) [
  | inl e ↦ rw e (inr (str_eq→eq s _ e))
  | inr e ↦ elim (Bool-cases (s == "NOT_APPLIED")) [
    | inl p ↦ rw (e, p) (inr (str_eq→eq s _ p))
    | inr p ↦ elim (Bool-cases (s == "UNKNOWN")) [
      | inl n ↦ rw (e, p, n) (inl refl)
      | inr n ↦ elim (Bool-cases (s == "CONFLICT")) [
        | inl q ↦ rw (e, p, n, q) (inr (str_eq→eq s _ q))
        | inr q ↦ rw (e, p, n, q) (inl refl)
      ]
    ]
  ]
]

text-result_of : (r : ReadbackResult) → result_of (result_text r) ≡ r
unfolding result_of result_text
text-result_of applied = refl
text-result_of not_applied = refl
text-result_of unknown = refl
text-result_of conflict = refl

-- A text declares the capability that it spells and no other text declares one; a text is read as the
-- result that it spells, and as UNKNOWN where it spells none.
pub declared_capability-roundtrip :
    (s : String)
    → ((c : Capability) → (declared_capability (written s) ≡ some c) ↔ (s ≡ capability_text c))
      × ((r : ReadbackResult) → parse_readback_result (written (result_text r)) ≡ r)
      × ((parse_readback_result (written s) ≡ unknown)
          ⊎ (s ≡ result_text (parse_readback_result (written s))))
unfolding declared_capability parse_readback_result
declared_capability-roundtrip s = (
  λ c. (capability_of-text s c, λ e. rw e (text-capability_of c)),
  text-result_of,
  result_of-text s,
)
