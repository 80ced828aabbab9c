-- ===== src/Requests/Boundary/Spent.antt =====
use research_paper_aep.Base.{
  All, All-map, Any, Bool-cases, List, Option-cases, String, [], ap, arith, false, first, inl, inr,
  nat_eq, next, none, some, subst, sym, true, ℕ, ◌++◌, ◌+◌, ◌∙◌, ◌∷◌, ◌≡◌, ◌≢◌, ◌≤◌,
}
use research_paper_aep.Requests.Boundary.{
  Dispatches, ProvenanceRecord, Purpose, Services, VerifiedDispatch, consume_dispatch, found,
  release, remaining, serves, without,
}
use research_paper_aep.Requests.Boundary.Issued.{
  DispatchOp, Makes, Released, consumed_for, dispatch_step, dispatch_step-Makes, dropped, found-All,
  issued_for, registry, registry-Makes, release-Released,
}

-- A released dispatch was issued, and is released once.

-- The event issued what the dispatch holds, under its id, and its time has not run out.
abbrev pub Covers : Services → ℕ → VerifiedDispatch → DispatchOp → Type 0
Covers s now d (issued_for m exact b at) =
    (m.identity ≡ d.identity)
    × (m.serial ≡ d.serial)
    × (s.sha256 exact ≡ s.sha256 d.exact_request_bytes)
    × (s.canonical b ≡ s.canonical d.binding)
    × (now ≤ m.now + remaining b at)
Covers s now d (consumed_for at e q) = ⊥
Covers s now d (dropped serial identity) = ⊥

Makes-Covers :
    (s : Services) (now : ℕ) (d : VerifiedDispatch) (p : Purpose) (r : ProvenanceRecord)
    → Released s now d p r
    → (op : DispatchOp) → Makes s (d.identity, r) op
    → Covers s now d op
Makes-Covers s now d p r t (issued_for m exact b at) (id, object, digest, text, expiry) = (
  id,
  object ∙ t.object,
  digest ∙ sym t.material,
  text ∙ sym (t.reads ∙ ap some t.bound),
  subst (λ n. now ≤ n) (sym expiry) t.in_time,
)
Makes-Covers s now d p r t (consumed_for at e q) made = absurd made
Makes-Covers s now d p r t (dropped n k) made = absurd made

Any-map {ℓ κ μ} :
    {A : Type ℓ} (P : A → Type κ) (Q : A → Type μ)
    → ((a : A) → P a → Q a)
    → (xs : List A) → Any P xs
    → Any Q xs
Any-map P Q f [] a = elim a [ ]
Any-map P Q f (x ∷ xs) (first h) = first (f x h)
Any-map P Q f (x ∷ xs) (next h) = next (Any-map P Q f xs h)

release-none :
    (s : Services) (now : ℕ) (d : VerifiedDispatch) (p : Purpose) (exact : String)
    → release s now d p none ≡ some exact
    → ⊥
unfolding release
release-none s now d p exact e = cc

-- What is released after any history of the registry: it is the request that the dispatch holds, the
-- binding of the dispatch has the identities that the caller names, and some event of the history
-- issued, under the dispatch's id and serial number, a request with the same digest and a binding with
-- the same canonical text, whose time has not run out.
pub consume_dispatch_issued :
    (s : Services) (history : List DispatchOp) (now : ℕ) (d : VerifiedDispatch) (p : Purpose)
    (exact : String)
    → (consume_dispatch s now d p (registry s history)).0 ≡ some exact
    → (exact ≡ d.exact_request_bytes) × (serves d.binding p ≡ true) × Any (Covers s now d) history
unfolding consume_dispatch
consume_dispatch_issued s history now d p exact h =
    elim (Option-cases (found d.identity (registry s history))) [
      | inl e ↦ absurd (release-none s now d p exact (rw e at h))
      | inr (r, e) ↦
          let (t, same) = release-Released s now d p r exact (rw e at h) in
          let made =
            found-All (λ x. Any (Makes s x) history) d.identity (registry s history) r
              (registry-Makes s history) e in
          (same, t.purpose, Any-map _ _ (Makes-Covers s now d p r t) history made)
    ]

-- No event of the history makes an object with the serial number.
abbrev pub Later : VerifiedDispatch → DispatchOp → Type 0
Later d (issued_for m exact b at) = m.serial ≢ d.serial
Later d (consumed_for at e q) = Unit
Later d (dropped serial identity) = Unit

-- An object with the serial number has the id of the dispatch.
abbrev pub Known : VerifiedDispatch → DispatchOp → Type 0
Known d (issued_for m exact b at) = m.serial ≡ d.serial → m.identity ≡ d.identity
Known d (consumed_for at e q) = Unit
Known d (dropped serial identity) = Unit

abbrev Gone : VerifiedDispatch → Dispatches → Type 0
Gone d records = All (λ e. e.1.dispatch_ref ≢ d.serial) records

Known-Makes :
    (s : Services) (d : VerifiedDispatch) (e : ℕ × ProvenanceRecord) (history : List DispatchOp)
    → All (Known d) history
    → Any (Makes s e) history
    → e.1.dispatch_ref ≡ d.serial
    → e.0 ≡ d.identity
Known-Makes s d e [] k a q = elim a [ ]
Known-Makes s d e (issued_for m exact b at ∷ rest) k (first (id, object, _, _, _)) q =
    sym id ∙ k.0 (object ∙ q)
Known-Makes s d e (consumed_for at c u ∷ rest) k (first made) q = absurd made
Known-Makes s d e (dropped n i ∷ rest) k (first made) q = absurd made
Known-Makes s d e (op ∷ rest) k (next a) q = Known-Makes s d e rest k.1 a q

without-Gone :
    (d : VerifiedDispatch) (records : Dispatches)
    → All (λ e. e.1.dispatch_ref ≡ d.serial → e.0 ≡ d.identity) records
    → Gone d (without d.identity records)
unfolding without
without-Gone d [] h = tt
without-Gone d ((j, r) ∷ rest) h = elim (Bool-cases (nat_eq j d.identity)) [
  | inl e ↦ rw e (without-Gone d rest h.1)
  | inr e ↦ rw e (λ same. other j d.identity e (h.0 same), without-Gone d rest h.1)
]
  where
    other : (a b : ℕ) → nat_eq a b ≡ false → a ≢ b
    other a b h e = ground arith

Later-Gone :
    (s : Services) (d : VerifiedDispatch) (later before : List DispatchOp)
    → All (Later d) later
    → Gone d (registry s before)
    → Gone d (registry s (later ++ before))
unfolding registry
Later-Gone s d [] before h g = g
Later-Gone s d (op ∷ later) before h g =
    dispatch_step-Makes s (λ e. e.1.dispatch_ref ≢ d.serial) op (registry s (later ++ before))
      (λ e made same. of_op op e h.0 made same) (Later-Gone s d later before h.1 g)
  where
    of_op :
        (op : DispatchOp) (e : ℕ × ProvenanceRecord)
        → Later d op
        → Makes s e op
        → e.1.dispatch_ref ≢ d.serial
    of_op (issued_for m exact b at) e l (_, object, _, _, _) same = l (object ∙ same)
    of_op (consumed_for at c q) e l made same = made
    of_op (dropped n i) e l made same = made

Gone-release :
    (s : Services) (now : ℕ) (d : VerifiedDispatch) (p : Purpose) (records : Dispatches)
    → Gone d records
    → (consume_dispatch s now d p records).0 ≡ none
unfolding consume_dispatch
Gone-release s now d p records g = elim (Option-cases (consume_dispatch s now d p records).0) [
  | inl e ↦ e
  | inr (exact, e) ↦ elim (Option-cases (found d.identity records)) [
    | inl f ↦ absurd (release-none s now d p exact (rw f at e))
    | inr (r, f) ↦
        let (t, same) = release-Released s now d p r exact (rw f at e) in
        absurd (found-All (λ x. x.1.dispatch_ref ≢ d.serial) d.identity records r g f t.object)
  ]
]

consumed-Gone :
    (s : Services) (d : VerifiedDispatch) (before : List DispatchOp) (at : ℕ) (q : Purpose)
    → All (Known d) before
    → Gone d (registry s (consumed_for at d q ∷ before))
unfolding registry dispatch_step consume_dispatch
consumed-Gone s d before at q known = without-Gone d (registry s before) (
    All-map _ _ (λ e a same. Known-Makes s d e before known a same) (registry s before)
      (registry-Makes s before))

-- After an attempt to spend a dispatch, whether it succeeded or not, and whatever happens to the
-- registry later: every further attempt is refused, at any time and for any purpose, where no later
-- object has its serial number and an earlier object with that number had its id.
pub consume_dispatch_once :
    (s : Services) (d : VerifiedDispatch) (before later : List DispatchOp) (at now : ℕ)
    (q p : Purpose)
    → All (Known d) before
    → All (Later d) later
    → (consume_dispatch s now d p (registry s (later ++ (consumed_for at d q ∷ before)))).0 ≡ none
consume_dispatch_once s d before later at now q p known new =
    Gone-release s now d p _ (
      Later-Gone s d later (consumed_for at d q ∷ before) new (consumed-Gone s d before at q known))
