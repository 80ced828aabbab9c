-- ===== src/Durability/Barrier.antt =====
-- RealWaitAofDurabilityBarrier and confirm_durable_ack of aep_core/core/durability.py. What Redis
-- answers is an input, in the form that the tests of the code tell apart.
pub mod Proven
use research_paper_aep.Base.{
  Bool, Option, String, false, inl, inr, leb, ltb, nat_eq, none, not, some, suc, true, zero, ℕ,
  ◌&&◌, ◌==◌, ◌||◌, ◌⊎◌,
}
use research_paper_aep.Durability.Ack.{DurabilityAck, Records, issue}

pub data BarrierError : Type 0 where
  capability_error barrier_error value_error : BarrierError

pub record Version : Type 0 where
  pub major : ℕ
  pub minor : ℕ
  pub patch : ℕ

-- version_tuple < _MINIMUM_WAITAOF_REDIS_VERSION, which is (7, 2, 0)
unfoldable pub too_old : Version → Bool
too_old v = ltb v.major 7 || (nat_eq v.major 7 && ltb v.minor 2)

-- The answers of INFO server, INFO persistence, CONFIG GET and COMMAND INFO.
pub record Replies : Type 0 where
  -- whether INFO server is a mapping
  pub server_mapping : Bool
  -- what _parse_version reads, none for a malformed version
  pub redis_version : Option Version
  -- whether CONFIG GET is a mapping
  pub aof_mapping : Bool
  -- appendonly as text in lower case, none where it is no text
  pub appendonly : Option String
  -- aof_enabled of INFO persistence where that is an int
  pub aof_enabled : Option ℕ
  -- _command_info_supports_waitaof
  pub supports_waitaof : Bool

-- _startup_validated and the version in _capabilities
pub record Barrier : Type 0 where
  pub startup_validated : Bool
  pub capabilities : Option Version

unfoldable pub start : Barrier
start = record { startup_validated = false; capabilities = none }

abbrev pub is_yes : Option String → Bool
is_yes none = false
is_yes (some s) = s == "yes"

abbrev pub is_one : Option ℕ → Bool
is_one none = false
is_one (some n) = nat_eq n 1

-- if not b: raise
abbrev pub require {ℓ} : {A : Type ℓ} → Bool → Option A → Option A
require false rest = none
require true rest = rest

-- The tests of validate_startup on a version that was read
unfoldable pub accepts_version : Replies → Version → Option Version
unfolding too_old
accepts_version a v = require (not (too_old v)) (
    require a.aof_mapping (
      require (is_yes a.appendonly)
        (require (is_one a.aof_enabled) (require a.supports_waitaof (some v)))))

abbrev pub accepts_read : Replies → Option Version → Option Version
accepts_read a none = none
accepts_read a (some v) = accepts_version a v

unfoldable pub capabilities_of : Bool → Option Replies → Option Version
unfolding accepts_version
capabilities_of false replies = none
capabilities_of true none = none
capabilities_of true (some a) = require a.server_mapping (accepts_read a a.redis_version)

abbrev pub with_capabilities : Option Version → BarrierError ⊎ Version
with_capabilities none = inl capability_error
with_capabilities (some v) = inr v

abbrev pub validated : Option Version → Barrier
validated none = record { startup_validated = false; capabilities = none }
validated (some v) = record { startup_validated = true; capabilities = some v }

-- The barrier before the call does not matter: both fields are reset first. The flag tells whether the
-- mode is WAITAOF; none stands for a command that raised.
unfoldable pub validate_startup :
    Bool → Option Replies → Barrier → (BarrierError ⊎ Version) × Barrier
unfolding capabilities_of
validate_startup mode_is_waitaof replies barrier =
    let found = capabilities_of mode_is_waitaof replies in
    (with_capabilities found, validated found)

-- The answer of WAITAOF: an exception, two natural numbers, or anything else.
pub data WaitReply : Type 0 where
  command_failed malformed : WaitReply
  fsyncs : ℕ → ℕ → WaitReply

abbrev pub wait_result : WaitReply → BarrierError ⊎ Bool
wait_result command_failed = inl barrier_error
wait_result malformed = inl barrier_error
wait_result (fsyncs local_fsyncs replica_fsyncs) = inr (leb 1 local_fsyncs)

abbrev pub if_validated : Bool → Option Version → WaitReply → BarrierError ⊎ Bool
if_validated false capabilities reply = inl capability_error
if_validated true none reply = inl capability_error
if_validated true (some v) reply = wait_result reply

-- The timeout is none where it is no int.
unfoldable pub confirm_durable : Option ℕ → WaitReply → Barrier → BarrierError ⊎ Bool
confirm_durable none reply barrier = inl value_error
confirm_durable (some zero) reply barrier = inl value_error
confirm_durable (some (suc n)) reply barrier =
    if_validated barrier.startup_validated barrier.capabilities reply

abbrev pub or_error {ℓ} : {A : Type ℓ} → Option A → BarrierError ⊎ A
or_error none = inl barrier_error
or_error (some a) = inr a

-- confirm_durable_ack: the acknowledgement is issued only after the barrier has answered True.
unfoldable pub confirm_durable_ack :
    (String → String → String)
    → String
    → ℕ
    → ℕ
    → String
    → BarrierError ⊎ Bool
    → Records
    → BarrierError ⊎ (DurabilityAck × Records)
confirm_durable_ack sign nonce serial identity scope (inl e) records = inl e
confirm_durable_ack sign nonce serial identity scope (inr false) records = inl barrier_error
confirm_durable_ack sign nonce serial identity scope (inr true) records =
    or_error (issue sign nonce serial identity scope records)
