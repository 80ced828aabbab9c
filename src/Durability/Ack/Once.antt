-- ===== src/Durability/Ack/Once.antt =====
use research_paper_aep.Base.{
  All, Bool-cases, List, Option, String, [], and-true, arith, eq_refl, false, inl, inr, nat_eq,
  nat_eq_refl, nat_eq→eq, none, refl, some, str_eq→eq, true, ℕ, ◌&&◌, ◌==◌, ◌∷◌, ◌≡◌, ◌≢◌,
}
use research_paper_aep.Durability.Ack.{
  DurabilityAck, Issued, Records, authorises, consume, discard, issue, lookup, refers_to, remove,
}

-- An acknowledgement is spent once, for the scope that it was issued for.

-- What happens to the registry
pub data AckOp : Type 0 where
  issued : String → ℕ → ℕ → String → AckOp
  consumed : DurabilityAck → String → AckOp
  discarded : ℕ → ℕ → AckOp

abbrev records_after : Option (DurabilityAck × Records) → Records → Records
records_after none records = records
records_after (some (ack, records)) _ = records

unfoldable pub ack_step : (String → String → String) → AckOp → Records → Records
unfolding issue consume discard
ack_step sign (issued nonce serial identity scope) records =
    records_after (issue sign nonce serial identity scope records) records
ack_step sign (consumed ack scope) records = (consume ack scope records).1
ack_step sign (discarded serial identity) records = discard serial identity records

unfoldable pub ack_run : (String → String → String) → List AckOp → Records → Records
unfolding ack_step
ack_run sign [] records = records
ack_run sign (op ∷ ops) records = ack_run sign ops (ack_step sign op records)

-- No record of the registry is that of the object.
abbrev pub Forgotten : ℕ → Records → Type 0
Forgotten serial records = All (λ p. p.1.reference ≢ serial) records

-- No later object has the serial number.
abbrev pub Fresh : ℕ → AckOp → Type 0
Fresh serial (issued nonce n identity scope) = n ≢ serial
Fresh serial (consumed ack scope) = Unit
Fresh serial (discarded n identity) = Unit

nat_ne : (a b : ℕ) → nat_eq a b ≡ false → a ≢ b
nat_ne a b h e = ground arith

remove-Forgotten :
    (serial k : ℕ) (records : Records)
    → Forgotten serial records
    → Forgotten serial (remove k records)
unfolding remove
remove-Forgotten serial k [] h = tt
remove-Forgotten serial k ((j, r) ∷ rest) h = elim (Bool-cases (nat_eq j k)) [
  | inl e ↦ rw e (remove-Forgotten serial k rest h.1)
  | inr e ↦ rw e (h.0, remove-Forgotten serial k rest h.1)
]

ack_step-Forgotten :
    (sign : String → String → String) (serial : ℕ) (op : AckOp) (records : Records)
    → Fresh serial op
    → Forgotten serial records
    → Forgotten serial (ack_step sign op records)
unfolding ack_step issue consume discard
ack_step-Forgotten sign serial (issued nonce n identity scope) records f h =
    elim (Bool-cases (scope == "")) [
      | inl e ↦ rw e h
      | inr e ↦ rw e (f, remove-Forgotten serial identity records h)
    ]
ack_step-Forgotten sign serial (consumed ack scope) records f h =
    remove-Forgotten serial ack.identity records h
ack_step-Forgotten sign serial (discarded n identity) records f h =
    elim (Bool-cases (refers_to (lookup identity records) n)) [
      | inl e ↦ rw e (remove-Forgotten serial identity records h)
      | inr e ↦ rw e h
    ]

ack_run-Forgotten :
    (sign : String → String → String) (serial : ℕ) (ops : List AckOp) (records : Records)
    → All (Fresh serial) ops
    → Forgotten serial records
    → Forgotten serial (ack_run sign ops records)
unfolding ack_run
ack_run-Forgotten sign serial [] records f h = h
ack_run-Forgotten sign serial (op ∷ ops) records f h =
    ack_run-Forgotten sign serial ops (ack_step sign op records) f.1
      (ack_step-Forgotten sign serial op records f.0 h)

Forgotten-lookup :
    (ack : DurabilityAck) (scope : String) (k : ℕ) (records : Records)
    → Forgotten ack.serial records
    → authorises ack scope (lookup k records) ≡ false
unfolding lookup
Forgotten-lookup ack scope k [] h = refl
Forgotten-lookup ack scope k ((j, r) ∷ rest) h = elim (Bool-cases (nat_eq j k)) [
  | inr e ↦ rw e (Forgotten-lookup ack scope k rest h.1)
  | inl e ↦ elim (Bool-cases (nat_eq r.reference ack.serial)) [
    | inl q ↦ absurd (h.0 (nat_eq→eq _ _ q))
    | inr q ↦ rw (e, q)
  ]
]

-- The registry knows an object under its own id only.
abbrev pub Indexed : DurabilityAck → Records → Type 0
Indexed ack records = All (λ p. p.1.reference ≡ ack.serial → p.0 ≡ ack.identity) records

Indexed-remove :
    (ack : DurabilityAck) (records : Records)
    → Indexed ack records
    → Forgotten ack.serial (remove ack.identity records)
unfolding remove
Indexed-remove ack [] h = tt
Indexed-remove ack ((j, r) ∷ rest) h = elim (Bool-cases (nat_eq j ack.identity)) [
  | inl e ↦ rw e (Indexed-remove ack rest h.1)
  | inr e ↦ rw e (λ same. nat_ne j ack.identity e (h.0 same), Indexed-remove ack rest h.1)
]

-- After an attempt to spend an acknowledgement that the registry knows under its own id only, whatever
-- other objects are issued, spent or collected later: it is refused for every scope, the attempt
-- having succeeded or not.
pub consume_once :
    (sign : String → String → String) (ack : DurabilityAck) (scope other : String)
    (records : Records) (ops : List AckOp)
    → Indexed ack records
    → All (Fresh ack.serial) ops
    → (consume ack other (ack_run sign ops (consume ack scope records).1)).0 ≡ false
unfolding consume
consume_once sign ack scope other records ops indexed fresh =
    Forgotten-lookup ack other ack.identity _
      (ack_run-Forgotten sign ack.serial ops _ fresh (Indexed-remove ack records indexed))

-- An acknowledgement is issued for every scope that is not empty, and is then accepted for that scope
-- and for no other.
pub issue-consume :
    (sign : String → String → String) (nonce : String) (serial identity : ℕ) (scope : String)
    (records : Records)
    → (scope == "") ≡ false
    → (ack : DurabilityAck) × (after : Records) × (issue sign nonce serial identity scope records
        ≡ some (ack, after))
      × ((consume ack scope after).0 ≡ true)
      × ((other : String) → (consume ack other after).0 ≡ true → scope ≡ other)
unfolding issue consume lookup
issue-consume sign nonce serial identity scope records h =
    let proof : String = sign nonce scope in
    let ack : DurabilityAck = record {
      serial = serial;
      identity = identity;
      scope = scope;
      provenance = proof;
    } in
    let entry : Issued = record { reference = serial; provenance = proof; scope = scope } in
    (
      ack,
      (identity, entry) ∷ remove identity records,
      rw h,
      rw (nat_eq_refl, nat_eq_refl, eq_refl scope, eq_refl proof),
      λ other accepted. scope_is other (rw (nat_eq_refl, nat_eq_refl) at accepted),
    )
  where
    scope_is :
        (other : String)
        → (scope == other && sign nonce scope == sign nonce scope) ≡ true
        → scope ≡ other
    scope_is other q = str_eq→eq scope other (and-true _ _ q).0
