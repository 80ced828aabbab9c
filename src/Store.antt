-- ===== src/Store.antt =====
-- IntentLedgerStore of aep_core/core/intents.py around two of its scripts: what commit_transition and
-- authorize_dispatch make of their answers, and dispatch_scope of
-- aep_core/core/durability.py. A script that raised has stopped; the reply of the
-- authorization script is not lost here.
pub mod Committed
pub mod Spent
use research_paper_aep.Base.{
  Bool, String, [], concat, decimal, false, if◌then◌else◌, leb, nat_eq, none, some, true, ℕ, ◌||◌,
  ◌∷◌,
}
use research_paper_aep.Redis.{Redis}
use research_paper_aep.Lua.Script.{Script, raised, reject, value}
use research_paper_aep.Intents.Cas.Args.{CasArgs, Codec}
use research_paper_aep.Intents.Cas.{intent_cas}
use research_paper_aep.Intents.Dispatch.{AuthorizeArgs, authorize}
use research_paper_aep.Storage.Save.{
  Quarantine, Reply, SaveError, SaveResult, delivered, lua_state_validation_failure,
  raise_validation, raises, saved,
}
use research_paper_aep.Durability.Ack.{DurabilityAck, Records, consume}

-- The exceptions; those of the storage adapter are passed on.
pub data StoreError : Type 0 where
  storage : SaveError → StoreError
  intent_state illegal_transition invariant creation_eligibility execution_fence binding_error
        preflight_error dispatch_authorization durability_barrier lock_lost stale :
      StoreError

pub data StoreResult {ℓ} (A : Type ℓ) : Type ℓ where
  returns : A → StoreResult A
  fails : StoreError → StoreResult A

abbrev pub of_save {ℓ} : {A : Type ℓ} → SaveResult × Redis → StoreResult A × Redis
of_save (saved, r) = (fails intent_state, r)
of_save (raises e, r) = (fails (storage e), r)

-- The codes from -1 to -9 in commit_transition
unfoldable pub commit_error : ℕ → StoreError
commit_error n =
    if nat_eq n 1
    then stale
    else if nat_eq n 2
    then invariant
    else if nat_eq n 3
    then lock_lost
    else if nat_eq n 4
    then illegal_transition
    else if nat_eq n 5
    then invariant
    else if nat_eq n 6
    then creation_eligibility
    else if nat_eq n 7
    then execution_fence
    else if nat_eq n 8
    then invariant
    else if nat_eq n 9
    then binding_error
    else intent_state

unfoldable pub on_commit : Quarantine → String → Script ℕ → Redis → StoreResult (Unit {0}) × Redis
unfolding raise_validation lua_state_validation_failure commit_error
on_commit q id raised r = (fails intent_state, r)
on_commit q id (value n) r = if nat_eq n 1 then (returns tt, r) else (fails intent_state, r)
on_commit q id (reject n) r = elim (lua_state_validation_failure n) [
  | none ↦ (fails (commit_error n), r)
  | some failure ↦ of_save (raise_validation none q id r failure)
]

unfoldable pub commit_transition :
    Codec → String → Quarantine → Reply → CasArgs → Redis → StoreResult (Unit {0}) × Redis
unfolding on_commit intent_cas
commit_transition c id q reply a r =
    let answer = delivered reply r (intent_cas c id a r) in on_commit q id answer.0 answer.1

unfoldable pub dispatch_scope : String → String → ℕ → String
unfolding decimal
dispatch_scope execution_id intent_id version =
    concat (execution_id ∷ ":" ∷ intent_id ∷ ":" ∷ decimal version ∷ [])

-- The arguments of authorize_dispatch, and the authorization that it draws
pub record AuthorizeCall : Type 0 where
  -- whether request_binding is a PersistedRequestBinding
  pub has_binding : Bool
  pub intent_id : String
  pub prepared_state_version : ℕ
  pub lock_token : String
  pub request_binding_digest : String
  pub ack : DurabilityAck
  pub authorization_ttl_ms : ℕ
  pub authorization : String

abbrev pub authorize_args : AuthorizeCall → AuthorizeArgs
authorize_args a = record {
  token = a.lock_token;
  version = a.prepared_state_version;
  intent_id = a.intent_id;
  digest = a.request_binding_digest;
  authorization = a.authorization;
  ttl_ms = a.authorization_ttl_ms;
}

unfoldable pub on_authorize :
    Quarantine → String → String → Script ℕ → Redis → StoreResult String × Redis
unfolding raise_validation lua_state_validation_failure
on_authorize q id authorization raised r = (fails dispatch_authorization, r)
on_authorize q id authorization (value n) r =
    if nat_eq n 1 then (returns authorization, r) else (fails dispatch_authorization, r)
on_authorize q id authorization (reject n) r = elim (lua_state_validation_failure n) [
  | none ↦
      (if nat_eq n 6 || nat_eq n 7 then fails binding_error else fails dispatch_authorization, r)
  | some failure ↦ of_save (raise_validation none q id r failure)
]

-- The three tests of authorize_dispatch before it calls the script, and where each stops
unfoldable pub after_tests :
    Bool
    → Bool
    → Bool
    → Records
    → Records
    → Redis
    → StoreResult String × Redis
    → StoreResult String × (Records × Redis)
after_tests false accepted lasting records left r answer = (fails binding_error, (records, r))
after_tests true false lasting records left r answer = (fails durability_barrier, (left, r))
after_tests true true false records left r answer = (fails dispatch_authorization, (left, r))
after_tests true true true records left r answer = (answer.0, (left, answer.1))

-- The acknowledgement is spent before the script is called, whatever the script answers.
unfoldable pub authorize_dispatch :
    Codec
    → String
    → Quarantine
    → AuthorizeCall
    → Records
    → Redis
    → StoreResult String × (Records × Redis)
unfolding after_tests on_authorize
authorize_dispatch c id q a records r =
    let spent = consume a.ack (dispatch_scope id a.intent_id a.prepared_state_version) records in
    let script = authorize c id (authorize_args a) r in
    after_tests a.has_binding spent.0 (leb 1 a.authorization_ttl_ms) records spent.1 r
      (on_authorize q id a.authorization script.0 script.1)
