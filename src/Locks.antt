-- ===== src/Locks.antt =====
-- aep_core/core/locks.py: the lease lock of an execution. A lock is a key with a random token as its
-- content and an expiry; the two scripts act only for the token that is there.
pub mod Exclusion
pub mod Lease
use research_paper_aep.Base.{
  Bool, List, Option, String, [], false, if◌then◌else◌, none, some, true, ℕ, ◌*◌, ◌==◌, ◌∷◌,
}
use research_paper_aep.Redis.{Redis, advance, del, get, lock, pexpire, set}

-- SET key token NX EX ttl_seconds of acquire_lock: the lock is taken only where there is none.
unfoldable pub acquire_lock : String → String → ℕ → Redis → Bool × Redis
acquire_lock id token ttl_seconds r = elim (get r (lock id)) [
  | none ↦ (true, set r (lock id) token (some (ttl_seconds * 1000)))
  | some _ ↦ (false, r)
]

-- GET key == token, the test of both scripts
abbrev pub owns : Option String → String → Bool
owns none token = false
owns (some held) token = held == token

-- _RELEASE_SCRIPT and the answer that release_lock makes of it
unfoldable pub release_lock : String → String → Redis → Bool × Redis
release_lock id token r =
    if owns (get r (lock id)) token then (true, del r (lock id)) else (false, r)

-- _RENEW_SCRIPT and the answer that renew_lock makes of it
unfoldable pub renew_lock : String → String → ℕ → Redis → Bool × Redis
renew_lock id token extend_ms r =
    if owns (get r (lock id)) token then (true, pexpire r (lock id) extend_ms) else (false, r)

-- What any worker may do to the lock, and the passing of time.
pub data LockOp : Type 0 where
  acquire : String → ℕ → LockOp
  release : String → LockOp
  renew : String → ℕ → LockOp
  wait : ℕ → LockOp

unfoldable pub lock_step : String → LockOp → Redis → Bool × Redis
unfolding acquire_lock release_lock renew_lock
lock_step id (acquire token ttl) r = acquire_lock id token ttl r
lock_step id (release token) r = release_lock id token r
lock_step id (renew token ms) r = renew_lock id token ms r
lock_step id (wait ms) r = (true, advance r ms)

unfoldable pub lock_run : String → List LockOp → Redis → List Bool × Redis
unfolding lock_step
lock_run id [] r = ([], r)
lock_run id (op ∷ ops) r =
    let (answer, r') = lock_step id op r in
    let (answers, r'') = lock_run id ops r' in (answer ∷ answers, r'')
