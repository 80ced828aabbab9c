-- ===== src/Store/Spent.antt =====
use research_paper_aep.Base.{
  All, Bool, Bool-cases, List, Option-cases, String, ap, false, if◌then◌else◌, inl, inr, nat_eq,
  none, refl, true, ℕ, ◌||◌, ◌∙◌, ◌≡◌, ◌≢◌,
}
use research_paper_aep.Redis.{Redis, get, state}
use research_paper_aep.Lua.Script.{Script, raised, reject, value}
use research_paper_aep.Intents.Cas.Args.{Codec}
use research_paper_aep.Intents.Dispatch.{
  AuthorizeArgs, authorize, may_authorize, record_authorization,
}
use research_paper_aep.Storage.Save.{Quarantine, lua_state_validation_failure, raise_validation}
use research_paper_aep.Storage.Save.Frame.{raise_validation-Raised}
use research_paper_aep.Durability.Ack.{Records, consume, remove}
use research_paper_aep.Durability.Ack.Once.{AckOp, Fresh, Indexed, ack_run, consume_once}
use research_paper_aep.Store.{
  AuthorizeCall, StoreResult, after_tests, authorize_args, authorize_dispatch, binding_error,
  dispatch_authorization, dispatch_scope, durability_barrier, fails, on_authorize, returns,
}
use research_paper_aep.Store.Committed.{fails-ne-returns, of_save-Failed}

-- An acknowledgement lets one authorization through.

on_authorize-reject :
    (q : Quarantine) (id authorization : String) (r : Redis) (n : ℕ) (x : String)
    → (on_authorize q id authorization (reject n) r).0 ≢ returns x
unfolding on_authorize
on_authorize-reject q id authorization r n x =
    elim (Option-cases (lua_state_validation_failure n)) [
      | inl e ↦ rw (e, on_authorize) (refusal (nat_eq n 6 || nat_eq n 7))
      | inr (f, e) ↦
          rw (e, on_authorize)
            ((of_save-Failed id r (raise_validation none q id r f)
                (raise_validation-Raised none q id r f).1).0
              x)
    ]
  where
    refusal :
        (b : Bool) → (if b then fails binding_error else fails dispatch_authorization) ≢ returns x
    refusal true = fails-ne-returns binding_error x
    refusal false = fails-ne-returns dispatch_authorization x

authorized-returns :
    (q : Quarantine) (id : String) (a : AuthorizeArgs) (r : Redis) (m : Script (Unit {0}))
    (authorization x : String)
    → let written = record_authorization id a r m in
      (on_authorize q id authorization written.0 written.1).0 ≡ returns x
      → (written.0 ≡ value 1)
        × (authorization ≡ x)
        × ((on_authorize q id authorization written.0 written.1).1 ≡ written.1)
unfolding record_authorization on_authorize
authorized-returns q id a r (value tt) authorization x h = (refl, returned h, refl)
  where
    returned : {y z : String} → Path (StoreResult String) (returns y) (returns z) → y ≡ z
    returned p = cc
authorized-returns q id a r (reject n) authorization x h =
    absurd (on_authorize-reject q id authorization r n x h)
authorized-returns q id a r raised authorization x h =
    absurd (fails-ne-returns dispatch_authorization x h)

-- What stands behind an authorization that was returned
pub record Backed (c : Codec) (id : String) (a : AuthorizeCall) (records : Records) (r : Redis)
    (o : StoreResult String × (Records × Redis)) : Type 0 where
  pub acknowledged :
      (consume a.ack (dispatch_scope id a.intent_id a.prepared_state_version) records).0 ≡ true
  pub granted : (authorize c id (authorize_args a) r).0 ≡ value 1
  pub written : o.1.1 ≡ (authorize c id (authorize_args a) r).1
  pub spent : o.1.0 ≡ remove a.ack.identity records

module _ (accepted lasting : Bool) (records left : Records) (r : Redis)
    (answer : StoreResult String × Redis) where
  after_tests-returns :
      (bound : Bool) (x : String)
      → (after_tests bound accepted lasting records left r answer).0 ≡ returns x
      → (accepted ≡ true)
        × (answer.0 ≡ returns x)
        × ((after_tests bound accepted lasting records left r answer).1 ≡ (left, answer.1))
  unfolding after_tests
  after_tests-returns false x h = absurd (fails-ne-returns binding_error x h)
  after_tests-returns true x h = elim (Bool-cases accepted) [
    | inr e ↦ absurd (fails-ne-returns durability_barrier x (rw e at h))
    | inl e ↦ elim (Bool-cases lasting) [
      | inr f ↦ absurd (fails-ne-returns dispatch_authorization x (rw (e, f) at h))
      | inl f ↦ rw (e, f) (refl, rw (e, f) at h, refl)
    ]
  ]

  after_tests-refused :
      (bound : Bool)
      → accepted ≡ false
      → ((x : String) → (after_tests bound accepted lasting records left r answer).0 ≢ returns x)
        × ((after_tests bound accepted lasting records left r answer).1.1 ≡ r)
  unfolding after_tests
  after_tests-refused false e = (fails-ne-returns binding_error, refl)
  after_tests-refused true e = rw e (fails-ne-returns durability_barrier, refl)

  after_tests-left : (after_tests true accepted lasting records left r answer).1.0 ≡ left
  unfolding after_tests
  after_tests-left = elim (Bool-cases accepted) [
    | inr e ↦ rw e refl
    | inl e ↦ elim (Bool-cases lasting) [ inl f ↦ rw (e, f) refl | inr f ↦ rw (e, f) refl ]
  ]

module _ (c : Codec) (id : String) (q : Quarantine) (a : AuthorizeCall) (records : Records)
    (r : Redis) where
  -- An authorization is returned only where the acknowledgement of this very attempt was registered and
  -- the script recorded the authorization; the acknowledgement is gone from the registry.
  pub authorize_dispatch-Backed :
      (x : String)
      → (authorize_dispatch c id q a records r).0 ≡ returns x
      → (a.authorization ≡ x) × Backed c id a records r (authorize_dispatch c id q a records r)
  unfolding authorize_dispatch authorize consume
  authorize_dispatch-Backed x h =
      let (accepted, answered, wrote) = after_tests-returns _ _ records _ r _ a.has_binding x h in
      let (granted, named, same) =
        authorized-returns q id (authorize_args a) r
          (may_authorize c id (authorize_args a) r (get r (state id))) a.authorization x answered in
      (
        named,
        record {
          acknowledged = accepted;
          granted = granted;
          written = ap (λ p. p.1) wrote ∙ same;
          spent = ap (λ p. p.0) wrote;
        },
      )

  -- Whatever the first call with an acknowledgement came to, once it had a binding: a later call with the
  -- same acknowledgement, after any steps of the registry about other objects, fails and leaves Redis as
  -- it is.
  pub authorize_dispatch_once :
      (sign : String → String → String) (b : AuthorizeCall) (ops : List AckOp) (s : Redis)
      → a.has_binding ≡ true
      → b.ack ≡ a.ack
      → Indexed a.ack records
      → All (Fresh a.ack.serial) ops
      → let registry = ack_run sign ops (authorize_dispatch c id q a records r).1.0 in
        let o = authorize_dispatch c id q b registry s in
        ((x : String) → o.0 ≢ returns x) × (o.1.1 ≡ s)
  unfolding authorize_dispatch
  authorize_dispatch_once sign b ops s bound same indexed fresh =
      let scope = dispatch_scope id a.intent_id a.prepared_state_version in
      let other = dispatch_scope id b.intent_id b.prepared_state_version in
      let left : (authorize_dispatch c id q a records r).1.0 ≡ (consume a.ack scope records).1 =
        rw bound (after_tests-left _ _ records _ r _) in
      let registry = ack_run sign ops (authorize_dispatch c id q a records r).1.0 in
      after_tests-refused _ _ registry _ s _ b.has_binding
        (rw (same, left) (consume_once sign a.ack scope other records ops indexed fresh))
