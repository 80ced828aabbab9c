-- ===== src/Tests/Locks.antt =====
use research_paper_aep.Base.{
  All, List, [], arith, eq_iff, false≢true, none, refl, some, true, ◌∷◌, ◌≡◌, ◌≢◌,
}
use research_paper_aep.Redis.{Redis, advance, get, lock, same_key, set}
use research_paper_aep.Locks.{LockOp, acquire, acquire_lock, lock_run, release, renew, wait}
use research_paper_aep.Locks.Exclusion.{Denied, IsForeign, acquire_lock_excludes}

-- Two workers and one lease.

abbrev free_lock : Redis
free_lock = record { clock = 1000; cell = λ _. none }

abbrev rival_ops : List LockOp
rival_ops =
    wait 500 ∷ acquire "token-b" 60 ∷ release "token-b" ∷ renew "token-b" 9000 ∷ wait 400 ∷ []

taken : (acquire_lock "e1" "token-a" 1 free_lock).0 ≡ true
unfolding acquire_lock get
taken = refl

rival_ops-IsForeign : All (IsForeign "token-a") rival_ops
rival_ops-IsForeign =
    let other : "token-a" ≢ "token-b" = λ e. false≢true ((eq_iff "token-a" "token-b").1 e) in
    (tt, (tt, (other, (other, (tt, tt)))))

-- when its time is over the lease is free again
expired :
    (lock_run "e1"
      (wait 1000 ∷ acquire "token-b" 1 ∷ [])
      (acquire_lock "e1" "token-a" 1 free_lock).1).0
    ≡ true ∷ true ∷ []
unfolding lock_run acquire_lock advance get set same_key
expired = refl

acquire_lock_excludes_example :
    let (answers, later) = lock_run "e1" rival_ops (acquire_lock "e1" "token-a" 1 free_lock).1 in
    Denied rival_ops answers × (get later (lock "e1") ≡ some "token-a")
acquire_lock_excludes_example =
    acquire_lock_excludes "e1" "token-a" 1 free_lock rival_ops (omega arith) taken
      rival_ops-IsForeign (omega arith)
