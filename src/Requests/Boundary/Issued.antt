-- ===== src/Requests/Boundary/Issued.antt =====
use research_paper_aep.Base.{
  All, All-map, Any, Bool-cases, List, Option, Option-cases, String, [], and-true, first, inl, inr,
  leb→le, nat_eq, nat_eq→eq, next, none, refl, some, str_eq→eq, subst, true, ℕ, ◌&&◌, ◌+◌, ◌∷◌, ◌≡◌,
  ◌≤◌,
}
use research_paper_aep.Requests.Boundary.{
  Binding, Dispatches, Making, ProvenanceRecord, Purpose, Services, VerifiedDispatch,
  consume_dispatch, discard_dispatch, found, issue_dispatch, points_to, release, remaining, serves,
  unspoilt, without,
}

-- What the registry holds has been issued, and a dispatch is spent once.

pub data DispatchOp : Type 0 where
  issued_for : Making → String → Binding → ℕ → DispatchOp
  consumed_for : ℕ → VerifiedDispatch → Purpose → DispatchOp
  dropped : ℕ → ℕ → DispatchOp

abbrev pub dispatches_after : Option (VerifiedDispatch × Dispatches) → Dispatches → Dispatches
dispatches_after none records = records
dispatches_after (some (d, records)) _ = records

unfoldable pub dispatch_step : Services → DispatchOp → Dispatches → Dispatches
unfolding issue_dispatch consume_dispatch discard_dispatch
dispatch_step s (issued_for m exact b at) records =
    dispatches_after (issue_dispatch s m exact b at records) records
dispatch_step s (consumed_for now d p) records = (consume_dispatch s now d p records).1
dispatch_step s (dropped serial identity) records = discard_dispatch serial identity records

-- The registry after a history, the latest event first.
unfoldable pub registry : Services → List DispatchOp → Dispatches
unfolding dispatch_step
registry s [] = []
registry s (op ∷ before) = dispatch_step s op (registry s before)

-- The event made this record.
abbrev pub Makes : Services → ℕ × ProvenanceRecord → DispatchOp → Type 0
Makes s e (issued_for m exact b at) =
    (m.identity ≡ e.0)
    × (m.serial ≡ e.1.dispatch_ref)
    × (s.sha256 exact ≡ e.1.material_digest)
    × (s.canonical b ≡ some e.1.canonical_binding)
    × (m.now + remaining b at ≡ e.1.expires_monotonic)
Makes s e (consumed_for now d p) = ⊥
Makes s e (dropped serial identity) = ⊥

pub All-without {ℓ} :
    (P : ℕ × ProvenanceRecord → Type ℓ) (k : ℕ) (records : Dispatches)
    → All P records
    → All P (without k records)
unfolding without
All-without P k [] h = tt
All-without P k ((j, r) ∷ rest) h = elim (Bool-cases (nat_eq j k)) [
  | inl e ↦ rw e (All-without P k rest h.1)
  | inr e ↦ rw e (h.0, All-without P k rest h.1)
]

pub All-discard {ℓ} :
    (P : ℕ × ProvenanceRecord → Type ℓ) (n k : ℕ) (records : Dispatches)
    → All P records
    → All P (discard_dispatch n k records)
unfolding discard_dispatch
All-discard P n k records h = elim (Bool-cases (points_to (found k records) n)) [
  | inl e ↦ rw e (All-without P k records h)
  | inr e ↦ rw e h
]

pub dispatch_step-Makes {ℓ} :
    (s : Services) (P : ℕ × ProvenanceRecord → Type ℓ) (op : DispatchOp) (records : Dispatches)
    → ((e : ℕ × ProvenanceRecord) → Makes s e op → P e)
    → All P records
    → All P (dispatch_step s op records)
unfolding dispatch_step issue_dispatch consume_dispatch
dispatch_step-Makes s P (consumed_for now d p) records f h = All-without P d.identity records h
dispatch_step-Makes s P (dropped n k) records f h = All-discard P n k records h
dispatch_step-Makes s P (issued_for m exact b at) records f h =
    elim (Option-cases (s.canonical b)) [
      | inl e ↦ rw e h
      | inr (text, e) ↦ rw e (f _ (refl, refl, refl, e, refl), All-without P m.identity records h)
    ]

pub registry-Makes :
    (s : Services) (history : List DispatchOp)
    → All (λ e. Any (Makes s e) history) (registry s history)
unfolding registry
registry-Makes s [] = tt
registry-Makes s (op ∷ before) =
    dispatch_step-Makes s (λ e. Any (Makes s e) (op ∷ before)) op (registry s before)
      (λ e a. first a) (All-map _ _ (λ e a. next a) (registry s before) (registry-Makes s before))

pub found-All {ℓ} :
    (P : ℕ × ProvenanceRecord → Type ℓ) (k : ℕ) (records : Dispatches) (r : ProvenanceRecord)
    → All P records
    → found k records ≡ some r
    → P (k, r)
unfolding found
found-All P k [] r h f = cc
found-All P k ((j, q) ∷ rest) r h f = elim (Bool-cases (nat_eq j k)) [
  | inr e ↦ found-All P k rest r h.1 (rw e at f)
  | inl e ↦
      let same : q ≡ r = record_is q r (rw e at f) in
      subst (λ n. P (n, r)) (nat_eq→eq j k e) (subst (λ u. P (j, u)) same h.0)
]
  where
    record_is : (a b : ProvenanceRecord) → some a ≡ some b → a ≡ b
    record_is a b p = cc

-- What a release has tested.
pub record Released (s : Services) (now : ℕ) (d : VerifiedDispatch) (p : Purpose)
    (r : ProvenanceRecord) : Type 0 where
  pub text : String
  pub reads : s.canonical d.binding ≡ some text
  pub object : r.dispatch_ref ≡ d.serial
  pub in_time : now ≤ r.expires_monotonic
  pub purpose : serves d.binding p ≡ true
  pub material : s.sha256 d.exact_request_bytes ≡ r.material_digest
  pub bound : text ≡ r.canonical_binding

pub release-Released :
    (s : Services) (now : ℕ) (d : VerifiedDispatch) (p : Purpose) (r : ProvenanceRecord)
    (exact : String)
    → release s now d p (some r) ≡ some exact
    → Released s now d p r × (exact ≡ d.exact_request_bytes)
unfolding release unspoilt
release-Released s now d p r exact h = elim (Option-cases (s.canonical d.binding)) [
  | inl e ↦ absurd (none_is_not exact (rw e at h))
  | inr (text, e) ↦
      elim (Bool-cases (nat_eq r.dispatch_ref d.serial && unspoilt s now d p r text)) [
        | inl q ↦
            let (object, tests) = and-true _ _ q in
            let (time, two) = and-true _ _ tests in
            let (purpose, three) = and-true _ _ two in
            let (material, four) = and-true _ _ three in
            (
              record {
                text = text;
                reads = e;
                object = nat_eq→eq _ _ object;
                in_time = leb→le _ _ time;
                purpose = purpose;
                material = str_eq→eq _ _ material;
                bound = str_eq→eq _ _ (and-true _ _ four).0;
              },
              same exact (rw (e, q) at h),
            )
        | inr q ↦ absurd (none_is_not exact (rw (e, q) at h))
      ]
]
  where
    none_is_not : (t : String) → none ≡ some t → ⊥
    none_is_not t e = cc

    same : (t : String) → some d.exact_request_bytes ≡ some t → t ≡ d.exact_request_bytes
    same t e = cc
