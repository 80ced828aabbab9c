-- ===== src/Durability/Ack.antt =====
-- _build_ack_boundary of aep_core/core/durability.py: the registry of acknowledgements.
-- An object has a serial number of its own; its id is another object's again once it is gone. The hmac
-- under the secret is a parameter. The lock makes each access of the registry one step.
pub mod Once
use research_paper_aep.Base.{
  Bool, List, Option, String, [], false, if◌then◌else◌, nat_eq, none, some, ℕ, ◌&&◌, ◌==◌, ◌∷◌,
}

pub record DurabilityAck : Type 0 where
  pub serial : ℕ
  pub identity : ℕ
  pub scope : String
  pub provenance : String

-- (weak reference, provenance, scope)
pub record Issued : Type 0 where
  pub reference : ℕ
  pub provenance : String
  pub scope : String

-- records, by id
abbrev pub Records : Type 0
Records = List (ℕ × Issued)

-- records.get
unfoldable pub lookup : ℕ → Records → Option Issued
lookup k [] = none
lookup k ((j, r) ∷ rest) = if nat_eq j k then some r else lookup k rest

-- records.pop
unfoldable pub remove : ℕ → Records → Records
remove k [] = []
remove k ((j, r) ∷ rest) =
    let others = remove k rest in if nat_eq j k then others else (j, r) ∷ others

-- issue, where the interpreter has made the object with this serial number and id and drawn the nonce.
-- none stands for the DurabilityBarrierError on an empty scope.
unfoldable pub issue :
    (String → String → String)
    → String
    → ℕ
    → ℕ
    → String
    → Records
    → Option (DurabilityAck × Records)
unfolding remove
issue sign nonce serial identity scope records =
    let provenance : String = sign nonce scope in
    let ack : DurabilityAck = record {
      serial = serial;
      identity = identity;
      scope = scope;
      provenance = provenance;
    } in
    let entry : Issued = record { reference = serial; provenance = provenance; scope = scope } in
    if scope == "" then none else some (ack, (identity, entry) ∷ remove identity records)

abbrev pub refers_to : Option Issued → ℕ → Bool
refers_to none serial = false
refers_to (some r) serial = nat_eq r.reference serial

-- discard, which the collector calls when the object is gone
unfoldable pub discard : ℕ → ℕ → Records → Records
unfolding lookup remove
discard serial identity records =
    if refers_to (lookup identity records) serial then remove identity records else records

abbrev pub authorises : DurabilityAck → String → Option Issued → Bool
authorises ack scope none = false
authorises ack scope (some r) =
    nat_eq r.reference ack.serial && (r.scope == scope && r.provenance == ack.provenance)

-- consume: false stands for the DurabilityBarrierError. The record is gone in either case.
unfoldable pub consume : DurabilityAck → String → Records → Bool × Records
unfolding lookup remove
consume ack scope records =
    (authorises ack scope (lookup ack.identity records), remove ack.identity records)
