-- ===== src/Tests/Durability.antt =====
use research_paper_aep.Base.{
  All, List, String, [], arith, inl, inr, refl, some, true, ℕ, ◌∷◌, ◌≡◌, ◌≤◌,
}
use research_paper_aep.Durability.Ack.{DurabilityAck, Records, consume, lookup, remove}
use research_paper_aep.Durability.Ack.Once.{AckOp, Fresh, Indexed, discarded, issued}
use research_paper_aep.Durability.Barrier.{
  Replies, Version, accepts_version, capabilities_of, capability_error, confirm_durable, fsyncs,
  start, too_old, validate_startup,
}
use research_paper_aep.Durability.Barrier.Proven.{Proves, confirm_durable_proven}

-- One acknowledgement and one barrier.

abbrev sign : String → String → String
sign nonce scope = "proof"

abbrev ack_one : DurabilityAck
ack_one = record { serial = 1; identity = 40; scope = "e1:i1:1"; provenance = "proof" }

abbrev one_issued : Records
one_issued = (40, record { reference = 1; provenance = "proof"; scope = "e1:i1:1" }) ∷ []

-- the object is collected, and another one gets its id
abbrev later_ops : List AckOp
later_ops = discarded 1 40 ∷ issued "n" 2 40 "e1:i1:1" ∷ []

ack_spent : consume ack_one "e1:i1:1" one_issued ≡ (true, [])
unfolding consume lookup remove
ack_spent = refl

one_issued-Indexed : Indexed ack_one one_issued
one_issued-Indexed = (λ e. refl, tt)

two_is_new : All (Fresh 1) later_ops
two_is_new = (tt, (λ e. absurd (omega (arith, e)), tt))

abbrev good_replies : Replies
good_replies = record {
  server_mapping = true;
  redis_version = some (record { major = 7; minor = 2; patch = 4 });
  aof_mapping = true;
  appendonly = some "yes";
  aof_enabled = some 1;
  supports_waitaof = true;
}

confirmed_once :
    confirm_durable (some 100) (fsyncs 1 0) (validate_startup true (some good_replies) start).1
    ≡ inr true
unfolding confirm_durable validate_startup capabilities_of accepts_version too_old
confirmed_once = refl

-- before a validation the barrier answers with an error
unvalidated : confirm_durable (some 100) (fsyncs 1 0) start ≡ inl capability_error
unfolding confirm_durable start
unvalidated = refl

confirm_durable_proven_example :
    (true ≡ true)
    × ((a : Replies) × (v : Version) × (some good_replies ≡ some a) × Proves a v)
    × ((l r : ℕ) × (fsyncs 1 0 ≡ fsyncs l r) × (1 ≤ l))
confirm_durable_proven_example =
    confirm_durable_proven true (some good_replies) start (some 100) (fsyncs 1 0) confirmed_once
