-- ===== src/Locks/Exclusion.antt =====
use research_paper_aep.Base.{
  All, Bool, Bool-cases, List, Option, Option-cases, String, [], arith, eq_refl, false, false≢true,
  inl, inr, none, refl, some, str_eq→eq, true, ℕ, ◌*◌, ◌+◌, ◌<◌, ◌==◌, ◌∙◌, ◌∷◌, ◌≡◌, ◌≢◌,
}
use research_paper_aep.Redis.{Redis, advance, get, lock, same_key, set}
use research_paper_aep.Locks.{
  LockOp, acquire, acquire_lock, lock_run, owns, release, release_lock, renew, renew_lock, wait,
}

-- While a lease lasts, no other worker takes the lock, frees it, or shortens it.

-- The lock is held under a token, until a moment of the server's clock.
abbrev pub HeldUntil : String → String → ℕ → Redis → Type 0
HeldUntil id token until r =
    (r.cell (lock id) ≡ some (record { content = token; expires = some until })) × (r.clock < until)

pub get-HeldUntil :
    (id token : String) (until : ℕ) (r : Redis)
    → HeldUntil id token until r
    → get r (lock id) ≡ some token
unfolding get
get-HeldUntil id token until r (cell, early) = rw cell (ground arith)

-- An operation of somebody else: with another token, or an acquisition with any.
abbrev pub IsForeign : String → LockOp → Type 0
IsForeign token (acquire t ttl) = Unit
IsForeign token (release t) = token ≢ t
IsForeign token (renew t ms) = token ≢ t
IsForeign token (wait ms) = Unit

abbrev pub waited : List LockOp → ℕ
waited [] = 0
waited (wait ms ∷ ops) = ms + waited ops
waited (_ ∷ ops) = waited ops

-- Nobody else's acquisition, release or renewal is answered with a success.
abbrev pub Denied : List LockOp → List Bool → Type 0
Denied [] [] = Unit
Denied (wait ms ∷ ops) (b ∷ bs) = Denied ops bs
Denied (op ∷ ops) (b ∷ bs) = (b ≡ false) × Denied ops bs
Denied _ _ = ⊥

not-owns : (o : Option String) (token t : String) → o ≡ some token → token ≢ t → owns o t ≡ false
not-owns none token t e other = refl
not-owns (some held) token t e other = elim (Bool-cases (held == t)) [
  | inl same ↦ absurd (other (some-token e ∙ str_eq→eq held t same))
  | inr differ ↦ differ
]
  where
    some-token : {a b : String} → some a ≡ some b → b ≡ a
    some-token p = cc

module _ (id token : String) (until : ℕ) where
  acquire-denied :
      (t : String) (ttl : ℕ) (r : Redis)
      → HeldUntil id token until r
      → acquire_lock id t ttl r ≡ (false, r)
  unfolding acquire_lock
  acquire-denied t ttl r h = rw (get-HeldUntil id token until r h, acquire_lock)

  release-denied :
      (t : String) (r : Redis)
      → HeldUntil id token until r
      → token ≢ t
      → release_lock id t r ≡ (false, r)
  unfolding release_lock
  release-denied t r h other =
      rw (not-owns (get r (lock id)) token t (get-HeldUntil id token until r h) other)

  renew-denied :
      (t : String) (ms : ℕ) (r : Redis)
      → HeldUntil id token until r
      → token ≢ t
      → renew_lock id t ms r ≡ (false, r)
  unfolding renew_lock
  renew-denied t ms r h other =
      rw (not-owns (get r (lock id)) token t (get-HeldUntil id token until r h) other)

  pub lock_run_excludes :
      (ops : List LockOp) (r : Redis)
      → HeldUntil id token until r
      → All (IsForeign token) ops
      → r.clock + waited ops < until
      → Denied ops (lock_run id ops r).0 × HeldUntil id token until (lock_run id ops r).1
  unfolding lock_run advance
  lock_run_excludes [] r h f lt = (tt, h)
  lock_run_excludes (acquire t ttl ∷ ops) r h f lt =
      rw (acquire-denied t ttl r h)
        (let (d, k) = lock_run_excludes ops r h f.1 lt in ((refl, d), k))
  lock_run_excludes (release t ∷ ops) r h f lt =
      rw (release-denied t r h f.0)
        (let (d, k) = lock_run_excludes ops r h f.1 lt in ((refl, d), k))
  lock_run_excludes (renew t ms ∷ ops) r h f lt =
      rw (renew-denied t ms r h f.0)
        (let (d, k) = lock_run_excludes ops r h f.1 lt in ((refl, d), k))
  lock_run_excludes (wait ms ∷ ops) r h f lt =
      lock_run_excludes ops (record r { clock = r.clock + ms }) (h.0, omega arith) f.1 (omega arith)

pub acquire_lock-HeldUntil :
    (id token : String) (ttl : ℕ) (r : Redis)
    → 0 < ttl
    → (acquire_lock id token ttl r).0 ≡ true
    → HeldUntil id token (r.clock + ttl * 1000) (acquire_lock id token ttl r).1
unfolding acquire_lock set same_key
acquire_lock-HeldUntil id token ttl r pos h = elim (Option-cases (get r (lock id))) [
  | inl e ↦ rw (e, acquire_lock) (rw eq_refl (refl, omega arith))
  | inr (held, e) ↦ absurd (false≢true (rw (e, acquire_lock) at h))
]

pub clock-acquire_lock :
    (id token : String) (ttl : ℕ) (r : Redis) → (acquire_lock id token ttl r).1.clock ≡ r.clock
unfolding acquire_lock set
clock-acquire_lock id token ttl r = elim (Option-cases (get r (lock id))) [
  | inl e ↦ rw (e, acquire_lock)
  | inr (held, e) ↦ rw (e, acquire_lock)
]

-- After a successful acquisition, whatever others do to the lock and in whatever order, while less
-- time passes than its lifetime: nobody else acquires, frees or renews it, and GET still answers the
-- token of its holder.
pub acquire_lock_excludes :
    (id token : String) (ttl : ℕ) (r : Redis) (ops : List LockOp)
    → 0 < ttl
    → (acquire_lock id token ttl r).0 ≡ true
    → All (IsForeign token) ops
    → waited ops < ttl * 1000
    → let (answers, later) = lock_run id ops (acquire_lock id token ttl r).1 in
      Denied ops answers × (get later (lock id) ≡ some token)
acquire_lock_excludes id token ttl r ops pos h foreign short =
    let taken = acquire_lock-HeldUntil id token ttl r pos h in
    let same = clock-acquire_lock id token ttl r in
    let (denied, held) =
      lock_run_excludes id token (r.clock + ttl * 1000) ops (acquire_lock id token ttl r).1 taken
        foreign (omega (arith, same)) in
    (denied, get-HeldUntil id token (r.clock + ttl * 1000) _ held)
