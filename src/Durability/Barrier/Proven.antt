-- ===== src/Durability/Barrier/Proven.antt =====
use research_paper_aep.Base.{
  Bool, Option, String, ap, arith, false, inr, leb→le, nat_eq→eq, none, not, not-true, refl, some,
  str_eq→eq, subst, suc, true, zero, ℕ, ◌<◌, ◌∙◌, ◌≡◌, ◌≤◌, ◌⊎◌,
}
use research_paper_aep.Durability.Barrier.{
  Barrier, BarrierError, Replies, Version, WaitReply, accepts_read, accepts_version,
  capabilities_of, command_failed, confirm_durable, fsyncs, is_one, is_yes, malformed, require,
  too_old, validate_startup, validated, wait_result,
}

-- What an acknowledgement proves of the server.

-- The replies of a validation that prove the version and the append-only file
pub record Proves (a : Replies) (v : Version) : Type 0 where
  pub version : a.redis_version ≡ some v
  pub recent : (7 < v.major) ⊎ ((v.major ≡ 7) × (2 ≤ v.minor))
  pub appends : a.appendonly ≡ some "yes"
  pub enabled : a.aof_enabled ≡ some 1
  pub supported : a.supports_waitaof ≡ true

recent_version : (v : Version) → too_old v ≡ false → (7 < v.major) ⊎ ((v.major ≡ 7) × (2 ≤ v.minor))
unfolding too_old
recent_version v h = ground arith

is_yes-true : (o : Option String) → is_yes o ≡ true → o ≡ some "yes"
is_yes-true none h = cc
is_yes-true (some s) h = ap some (str_eq→eq s "yes" h)

is_one-true : (o : Option ℕ) → is_one o ≡ true → o ≡ some 1
is_one-true none h = cc
is_one-true (some n) h = ap some (nat_eq→eq n 1 h)

require-some {ℓ} :
    {A : Type ℓ} (b : Bool) (rest : Option A) {a : A}
    → require b rest ≡ some a
    → (b ≡ true) × (rest ≡ some a)
require-some true rest h = (refl, h)
require-some false rest h = cc

accepts_version-Proves :
    (a : Replies) (w v : Version)
    → a.redis_version ≡ some w
    → accepts_version a w ≡ some v
    → Proves a v
unfolding accepts_version
accepts_version-Proves a w v e h =
    let (new, h1) = require-some (not (too_old w)) _ h in
    let (_, h2) = require-some a.aof_mapping _ h1 in
    let (on, h3) = require-some (is_yes a.appendonly) _ h2 in
    let (one, h4) = require-some (is_one a.aof_enabled) _ h3 in
    let (waits, h5) = require-some a.supports_waitaof _ h4 in
    record {
      version = e ∙ h5;
      recent =
          subst (λ (u : Version). (7 < u.major) ⊎ ((u.major ≡ 7) × (2 ≤ u.minor))) (some-inj h5)
            (recent_version w (not-true _ new));
      appends = is_yes-true a.appendonly on;
      enabled = is_one-true a.aof_enabled one;
      supported = waits;
    }
  where
    some-inj : {x y : Version} → some x ≡ some y → x ≡ y
    some-inj q = cc

accepts_read-Proves :
    (a : Replies) (o : Option Version) (v : Version)
    → a.redis_version ≡ o
    → accepts_read a o ≡ some v
    → Proves a v
accepts_read-Proves a none v e h = cc
accepts_read-Proves a (some w) v e h = accepts_version-Proves a w v e h

capabilities_of-Proves :
    (mode : Bool) (replies : Option Replies) (v : Version)
    → capabilities_of mode replies ≡ some v
    → (mode ≡ true) × (a : Replies) × (replies ≡ some a) × Proves a v
unfolding capabilities_of
capabilities_of-Proves false replies v h = cc
capabilities_of-Proves true none v h = cc
capabilities_of-Proves true (some a) v h = (
  refl,
  a,
  refl,
  accepts_read-Proves a a.redis_version v refl (require-some a.server_mapping _ h).1,
)

wait_result-true :
    (reply : WaitReply) → wait_result reply ≡ inr true → (l r : ℕ) × (reply ≡ fsyncs l r) × (1 ≤ l)
wait_result-true command_failed h = cc
wait_result-true malformed h = cc
wait_result-true (fsyncs l r) h = (l, r, refl, leb→le 1 l (inr-inj h))
  where
    inr-inj : {x y : Bool} → Path (BarrierError ⊎ Bool) (inr x) (inr y) → x ≡ y
    inr-inj q = cc

confirm_durable-validated :
    (timeout : Option ℕ) (reply : WaitReply) (found : Option Version)
    → confirm_durable timeout reply (validated found) ≡ inr true
    → (v : Version) × (found ≡ some v) × (wait_result reply ≡ inr true)
unfolding confirm_durable
confirm_durable-validated none reply found h = cc
confirm_durable-validated (some zero) reply found h = cc
confirm_durable-validated (some (suc n)) reply none h = cc
confirm_durable-validated (some (suc n)) reply (some v) h = (v, refl, h)

-- A barrier answers True only after a validation in WAITAOF mode, the last one, whose replies prove Redis
-- 7.2 or newer with the append-only file on and WAITAOF supported, and only where WAITAOF reports a local
-- fsync.
pub confirm_durable_proven :
    (mode : Bool) (replies : Option Replies) (barrier : Barrier) (timeout : Option ℕ)
    (reply : WaitReply)
    → confirm_durable timeout reply (validate_startup mode replies barrier).1 ≡ inr true
    → (mode ≡ true)
      × ((a : Replies) × (v : Version) × (replies ≡ some a) × Proves a v)
      × ((l r : ℕ) × (reply ≡ fsyncs l r) × (1 ≤ l))
unfolding validate_startup
confirm_durable_proven mode replies barrier timeout reply h =
    let (v, found, answered) = confirm_durable-validated timeout reply _ h in
    let (on, a, read, proof) = capabilities_of-Proves mode replies v found in
    (on, (a, v, read, proof), wait_result-true reply answered)
