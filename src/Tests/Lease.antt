-- ===== src/Tests/Lease.antt =====
use research_paper_aep.Base.{All, List, [], arith, none, refl, some, true, ◌*◌, ◌+◌, ◌∷◌, ◌≡◌, ◌≤◌}
use research_paper_aep.Redis.{Redis, get}
use research_paper_aep.Locks.{LockOp, acquire, acquire_lock, wait}
use research_paper_aep.Locks.Lease.{accepted_deadline, heartbeat, lease_deadline, renewal_interval}
use research_paper_aep.Locks.Lease.Holds.{Brief, Holds, lease-Holds}
use research_paper_aep.Floats.{at_most, difference, exactly, less, minus, nan}

-- A lease of 30 seconds under contention.

abbrev unlocked : Redis
unlocked = record { clock = 1000; cell = λ _. none }

abbrev contended : List (List LockOp)
contended = (wait 4000 ∷ acquire "token-b" 30 ∷ wait 1000 ∷ []) ∷ (wait 5000 ∷ []) ∷ []

deadline_in_force :
    lease_deadline (some (exactly 15000)) (some (exactly (30 * 1000))) none (some (exactly 300000))
    ≡ some (exactly 15000)
unfolding lease_deadline accepted_deadline less at_most minus difference
deadline_in_force = refl

lease_taken_first : (acquire_lock "e1" "token-a" 30 unlocked).0 ≡ true
unfolding acquire_lock get
lease_taken_first = refl

every_five_seconds : renewal_interval (30 * 1000) 300000 15000 ≡ 5000
unfolding renewal_interval
every_five_seconds = refl

-- without any room for the margin the lease is refused
no_room :
    lease_deadline (some (exactly 15000)) (some (exactly 15000)) none (some (exactly 300000)) ≡ none
unfolding lease_deadline less at_most minus difference
no_room = refl

-- NaN passes the tests of a margin, and the deadline is then NaN
nan_margin_passes :
    lease_deadline (some nan) (some (exactly 30000)) none (some (exactly 300000)) ≡ some nan
unfolding lease_deadline accepted_deadline less at_most minus difference
nan_margin_passes = refl

-- the work ends three seconds after the last renewal
abbrev last_seconds : List LockOp
last_seconds = acquire "token-b" 30 ∷ wait 3000 ∷ []

contended-Brief : All (Brief "token-a" (30 * 1000)) contended
contended-Brief = (((tt, (tt, (tt, tt))), omega arith), (((tt, tt), omega arith), tt))

lease-Holds_example :
    (15000 ≤ 15000)
    × (15000 + 15000 ≤ 30 * 1000)
    × Holds "e1" "token-a" (renewal_interval (30 * 1000) 300000 15000) 300000 0 contended (
        heartbeat "e1" "token-a"
          (30 * 1000)
          (renewal_interval (30 * 1000) 300000 15000)
          300000
          last_seconds
          0
          contended
          (acquire_lock "e1" "token-a" 30 unlocked).1)
lease-Holds_example =
    lease-Holds "e1" "token-a" 30 15000 300000 15000 none unlocked contended last_seconds
      deadline_in_force lease_taken_first contended-Brief ((tt, (tt, tt)), omega arith)
