-- ===== src/Locks/Lease.antt =====
-- lease of aep_core/core/locks.py: its tests of the parameters and its heartbeat. Times are milliseconds;
-- a parameter is none where it is a bool or no number.
pub mod Holds
use research_paper_aep.Base.{
  List, Option, String, [], if◌then◌else◌, leb, max, min, none, some, ℕ, ◌+◌, ◌/◌, ◌||◌, ◌∷◌,
}
use research_paper_aep.Redis.{Redis}
use research_paper_aep.Locks.{LockOp, lock_run, renew_lock}
use research_paper_aep.Floats.{Number, at_most, exactly, less, minus}

-- The deadline in force, where the tests pass; the deadline is absent where the caller gives none.
abbrev pub deadline_or : Number → Option (Option Number) → Option Number
deadline_or maximum none = some maximum
deadline_or maximum (some given) = given

unfoldable pub accepted_deadline : Number → Option Number → Option Number → Option Number
accepted_deadline maximum (some deadline) (some total) =
    if at_most deadline (exactly 0) || (less maximum deadline || at_most total (exactly 0))
    then none
    else some deadline
accepted_deadline maximum _ _ = none

unfoldable pub lease_deadline :
    Option Number → Option Number → Option (Option Number) → Option Number → Option Number
unfolding accepted_deadline
lease_deadline (some margin) (some ttl) deadline total =
    let maximum = minus ttl margin in
    if less margin (exactly 15000) || at_most ttl margin
    then none
    else accepted_deadline maximum (deadline_or maximum deadline) total
lease_deadline _ _ deadline total = none

-- the renewal interval
unfoldable pub renewal_interval : ℕ → ℕ → ℕ → ℕ
renewal_interval ttl total deadline = max (min (ttl / 3) (min (total / 3) (deadline / 3))) 50

-- How the heartbeat ends: stopped by the end of the protected work, or by cancelling it.
pub data Beat : Type 0 where
  stopped cap_reached ownership_lost : Beat

-- One element of the list is what others do to the lock, and how much time passes, from one renewal
-- to the next; last is the same from the last renewal to the end of the protected work.
unfoldable pub heartbeat :
    String → String → ℕ → ℕ → ℕ → List LockOp → ℕ → List (List LockOp) → Redis → Beat × Redis
unfolding lock_run renew_lock
heartbeat id token ttl interval total last elapsed [] r = (stopped, (lock_run id last r).1)
heartbeat id token ttl interval total last elapsed (ops ∷ rest) r =
    let waited_for = (lock_run id ops r).1 in
    let renewal = renew_lock id token ttl waited_for in
    let later = heartbeat id token ttl interval total last (elapsed + interval) rest renewal.1 in
    if leb total (elapsed + interval)
    then (cap_reached, waited_for)
    else if renewal.0
    then later
    else (ownership_lost, renewal.1)
