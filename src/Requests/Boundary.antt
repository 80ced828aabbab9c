-- ===== src/Requests/Boundary.antt =====
pub mod Issued
pub mod Spent
use research_paper_aep.Base.{
  Bool, List, Option, String, [], false, if◌then◌else◌, leb, max, nat_eq, none, some, ℕ, ◌&&◌, ◌+◌,
  ◌-◌, ◌==◌, ◌∷◌,
}

-- _build_dispatch_boundary of aep_core/core/request_binding.py: the registry of verified dispatches.
-- An object has a serial number of its own; its id is another object's again once it is gone. The digest, the hmac
-- under the secret, the nonces and the monotonic clock, in milliseconds, are inputs, and so is the
-- canonical text of a binding, whose fields beside those that consume reads are one text here.
-- The lock makes each access of the registry one step.

-- PersistedRequestBinding
pub record Binding : Type 0 where
  pub connector_identity : String
  pub connector_operation : String
  pub endpoint_profile_id : String
  pub endpoint_profile_version : String
  pub execution_id : String
  pub step_id : String
  pub intent_id : String
  pub correlation_id : String
  pub dispatch_material_not_after_ms : ℕ
  pub others : String

pub record VerifiedDispatch : Type 0 where
  pub serial : ℕ
  pub identity : ℕ
  pub exact_request_bytes : String
  pub binding : Binding
  pub provenance : String

pub record ProvenanceRecord : Type 0 where
  pub dispatch_ref : ℕ
  pub material_digest : String
  pub canonical_binding : String
  pub provenance : String
  pub expires_monotonic : ℕ

-- What the interpreter and the libraries answer. canonical is none where
-- canonical_request_binding_bytes raises.
pub record Services : Type 0 where
  pub sha256 : String → String
  pub sign : String → String → String → String
  pub canonical : Binding → Option String

-- records, by id
abbrev pub Dispatches : Type 0
Dispatches = List (ℕ × ProvenanceRecord)

-- records.pop: what is found, and what is left
unfoldable pub found : ℕ → Dispatches → Option ProvenanceRecord
found k [] = none
found k ((j, r) ∷ rest) = if nat_eq j k then some r else found k rest

unfoldable pub without : ℕ → Dispatches → Dispatches
without k [] = []
without k ((j, r) ∷ rest) =
    let others = without k rest in if nat_eq j k then others else (j, r) ∷ others

-- The arguments of consume beside the dispatch.
pub record Purpose : Type 0 where
  pub connector_identity : String
  pub connector_operation : String
  pub endpoint_profile_id : String
  pub endpoint_profile_version : String
  pub execution_id : String
  pub step_id : String
  pub intent_id : String
  pub correlation_id : String

-- What is made for one call of issue: the object's serial number and id, the nonce, and the time.
pub record Making : Type 0 where
  pub serial : ℕ
  pub identity : ℕ
  pub nonce : String
  pub now : ℕ

-- remaining_ms
abbrev pub remaining : Binding → ℕ → ℕ
remaining b verified_at = max 1 (b.dispatch_material_not_after_ms - verified_at)

-- issue from the canonical text on
abbrev pub make_dispatch :
    Services
    → Making
    → String
    → Binding
    → ℕ
    → Dispatches
    → Option String
    → Option (VerifiedDispatch × Dispatches)
make_dispatch s m exact b verified_at records none = none
make_dispatch s m exact b verified_at records (some text) =
    let digest = s.sha256 exact in
    let proof = s.sign m.nonce digest (s.sha256 text) in
    let dispatch : VerifiedDispatch = record {
      serial = m.serial;
      identity = m.identity;
      exact_request_bytes = exact;
      binding = b;
      provenance = proof;
    } in
    let entry : ProvenanceRecord = record {
      dispatch_ref = m.serial;
      material_digest = digest;
      canonical_binding = text;
      provenance = proof;
      expires_monotonic = m.now + remaining b verified_at;
    } in
    some (dispatch, (m.identity, entry) ∷ without m.identity records)

unfoldable pub issue_dispatch :
    Services → Making → String → Binding → ℕ → Dispatches → Option (VerifiedDispatch × Dispatches)
unfolding without
issue_dispatch s m exact b verified_at records =
    make_dispatch s m exact b verified_at records (s.canonical b)

abbrev pub points_to : Option ProvenanceRecord → ℕ → Bool
points_to none serial = false
points_to (some r) serial = nat_eq r.dispatch_ref serial

-- discard, which the collector calls when the object is gone
unfoldable pub discard_dispatch : ℕ → ℕ → Dispatches → Dispatches
unfolding found without
discard_dispatch serial identity records =
    if points_to (found identity records) serial then without identity records else records

-- expected == actual
unfoldable pub serves : Binding → Purpose → Bool
serves b p =
    (p.connector_identity == b.connector_identity
      && (p.connector_operation == b.connector_operation
          && (p.endpoint_profile_id == b.endpoint_profile_id
              && p.endpoint_profile_version == b.endpoint_profile_version)))
    && (p.execution_id == b.execution_id
        && (p.step_id == b.step_id
            && (p.intent_id == b.intent_id && p.correlation_id == b.correlation_id)))

-- The tests after the record is popped.
unfoldable pub unspoilt :
    Services → ℕ → VerifiedDispatch → Purpose → ProvenanceRecord → String → Bool
unfolding serves
unspoilt s now d p r text =
    leb now r.expires_monotonic
    && (serves d.binding p
        && (s.sha256 d.exact_request_bytes == r.material_digest
            && (text == r.canonical_binding && d.provenance == r.provenance)))

-- consume from the canonical text on
abbrev pub release_exact :
    Services → ℕ → VerifiedDispatch → Purpose → ProvenanceRecord → Option String → Option String
release_exact s now d p r none = none
release_exact s now d p r (some text) =
    if nat_eq r.dispatch_ref d.serial && unspoilt s now d p r text
    then some d.exact_request_bytes
    else none

unfoldable pub release :
    Services → ℕ → VerifiedDispatch → Purpose → Option ProvenanceRecord → Option String
unfolding unspoilt
release s now d p none = none
release s now d p (some r) = release_exact s now d p r (s.canonical d.binding)

-- consume: none stands for the RequestBindingMismatchError. The record is gone in either case.
unfoldable pub consume_dispatch :
    Services → ℕ → VerifiedDispatch → Purpose → Dispatches → Option String × Dispatches
unfolding found without release
consume_dispatch s now d p records =
    (release s now d p (found d.identity records), without d.identity records)
