-- ===== src/Locks/Lease/Holds.antt =====
use research_paper_aep.Base.{
  All, Bool, Bool-cases, List, Option, String, [], arith, eq_refl, false, if◌then◌else◌, inl, inr,
  leb, none, or-eq-false, refl, some, subst, true, ℕ, ◌*◌, ◌+◌, ◌-◌, ◌<◌, ◌∷◌, ◌≡◌, ◌≢◌, ◌≤◌,
}
use research_paper_aep.Redis.{Redis, get, lock, pexpire, same_key}
use research_paper_aep.Locks.{LockOp, acquire_lock, lock_run, owns, renew_lock}
use research_paper_aep.Locks.Exclusion.{
  HeldUntil, IsForeign, acquire_lock-HeldUntil, clock-acquire_lock, get-HeldUntil,
  lock_run_excludes, waited,
}
use research_paper_aep.Locks.Lease.{
  Beat, accepted_deadline, cap_reached, deadline_or, heartbeat, lease_deadline, ownership_lost,
  renewal_interval, stopped,
}
use research_paper_aep.Floats.{Number, at_most, difference, exactly, less, minus}

-- The heartbeat keeps the lease until the work ends or the cap is reached.

owner-owns : (o : Option String) (token : String) → o ≡ some token → owns o token ≡ true
owner-owns none token e = cc
owner-owns (some held) token e = rw (some-injective e) (eq_refl token)
  where
    some-injective : {x y : String} → some x ≡ some y → x ≡ y
    some-injective p = cc

module _ (id token : String) (ttl : ℕ) where
  renew-HeldUntil :
      (until : ℕ) (r : Redis)
      → HeldUntil id token until r
      → 0 < ttl
      → ((renew_lock id token ttl r).0 ≡ true)
        × HeldUntil id token (r.clock + ttl) (renew_lock id token ttl r).1
        × ((renew_lock id token ttl r).1.clock ≡ r.clock)
  unfolding renew_lock pexpire same_key
  renew-HeldUntil until r h pos =
      rw (owner-owns (get r (lock id)) token (get-HeldUntil id token until r h))
        (refl, (rw (eq_refl id, h.0) (ground arith), omega arith), refl)

-- Only others touch the lock, for less than its lifetime.
abbrev pub Brief : String → ℕ → List LockOp → Type 0
Brief token ttl ops = All (IsForeign token) ops × (waited ops < ttl)

-- What the heartbeat has counted at the end of these intervals.
abbrev pub counted : ℕ → List (List LockOp) → ℕ
counted interval [] = 0
counted interval (ops ∷ rest) = interval + counted interval rest

abbrev pub Holds : String → String → ℕ → ℕ → ℕ → List (List LockOp) → Beat × Redis → Type 0
Holds id token interval total elapsed intervals (beat, s) =
    (beat ≢ ownership_lost)
    × (get s (lock id) ≡ some token)
    × (beat ≡ stopped → elapsed + counted interval intervals < total)

cap-ne-lost : cap_reached ≢ ownership_lost
cap-ne-lost e = cc

stopped-ne-lost : stopped ≢ ownership_lost
stopped-ne-lost e = cc

cap-ne-stopped : cap_reached ≢ stopped
cap-ne-stopped e = cc

module _ (id token : String) (ttl interval total : ℕ) (last : List LockOp) (pos : 0 < ttl)
    (brief : Brief token ttl last) where
  heartbeat-Holds :
      (intervals : List (List LockOp)) (elapsed until : ℕ) (r : Redis)
      → HeldUntil id token until r
      → r.clock + ttl ≤ until
      → elapsed < total
      → All (Brief token ttl) intervals
      → Holds id token interval total elapsed intervals
          (heartbeat id token ttl interval total last elapsed intervals r)
  unfolding heartbeat
  heartbeat-Holds [] elapsed until r h in_time early quiet =
      let (foreign, short) = brief in
      let (_, held) =
        lock_run_excludes id token until last r h foreign (omega (arith, short, in_time)) in
      (
        stopped-ne-lost,
        get-HeldUntil id token until (lock_run id last r).1 held,
        λ e. omega (arith, early),
      )
  heartbeat-Holds (ops ∷ rest) elapsed until r h in_time early quiet =
      let (foreign, short) = quiet.0 in
      let (_, held) =
        lock_run_excludes id token until ops r h foreign (omega (arith, short, in_time)) in
      let at_beat = (lock_run id ops r).1 in
      let (renewed, again, same_clock) = renew-HeldUntil id token ttl until at_beat held pos in
      let ready : (renew_lock id token ttl at_beat).1.clock + ttl ≤ at_beat.clock + ttl =
        omega (arith, same_clock) in
      elim (Bool-cases (leb total (elapsed + interval))) [
        | inl cap ↦
            rw cap (
              cap-ne-lost,
              get-HeldUntil id token until at_beat held,
              λ e. absurd (cap-ne-stopped e),
            )
        | inr below_cap ↦
            let still : elapsed + interval < total = ground (arith, below_cap) in
            let (kept, mine, spent) =
              heartbeat-Holds rest (elapsed + interval) (at_beat.clock + ttl)
                (renew_lock id token ttl at_beat).1 again ready still quiet.1 in
            rw (below_cap, renewed, heartbeat)
              (kept, mine, λ e. let less_spent = spent e in omega (arith, less_spent))
      ]

-- The tests of the parameters, where the margin, the lifetime and the cap are finite.
if_none :
    (b : Bool) (o : Option Number) (x : Number)
    → (if b then none else o) ≡ some x
    → (b ≡ false) × (o ≡ some x)
if_none true o x h = cc
if_none false o x h = (refl, h)

number_is : (x y : Number) → some x ≡ some y → x ≡ y
number_is x y h = cc

not_at_most : (a b : ℕ) → at_most (exactly a) (exactly b) ≡ false → b < a
unfolding at_most less
not_at_most a b h = ground arith

not_less : (a b : ℕ) → less (exactly a) (exactly b) ≡ false → b ≤ a
unfolding less
not_less a b h = ground arith

accepted_deadline-parts :
    (maximum : Number) (deadline : Option Number) (total d : ℕ)
    → accepted_deadline maximum deadline (some (exactly total)) ≡ some (exactly d)
    → (less maximum (exactly d) ≡ false) × (1 ≤ total)
unfolding accepted_deadline
accepted_deadline-parts maximum none total d h = cc
accepted_deadline-parts maximum (some e) total d h =
    let (passed, given) = if_none _ (some e) (exactly d) h in
    let (_, rest) = or-eq-false _ _ passed in
    let (fits, positive) = or-eq-false (less maximum e) _ rest in
    (
      subst (λ x. less maximum x ≡ false) (number_is e (exactly d) given) fits,
      not_at_most total 0 positive,
    )

lease_deadline-parts :
    (margin ttl : ℕ) (deadline : Option (Option Number)) (total d : ℕ)
    → lease_deadline (some (exactly margin)) (some (exactly ttl)) deadline (some (exactly total))
      ≡ some (exactly d)
    → (15000 ≤ margin) × (margin < ttl) × (d + margin ≤ ttl) × (1 ≤ total)
unfolding lease_deadline minus difference
lease_deadline-parts margin ttl deadline total d h =
    let (passed, rest) = if_none _ _ (exactly d) h in
    let (small, short) = or-eq-false (less (exactly margin) (exactly 15000)) _ passed in
    let wide = not_less margin 15000 small in
    let fits = not_at_most ttl margin short in
    let room : leb margin ttl ≡ true = below_is margin ttl fits in
    let (within, positive) =
      accepted_deadline-parts (exactly (ttl - margin))
        (deadline_or (exactly (ttl - margin)) deadline) total d (rw room at rest) in
    let bound = not_less (ttl - margin) d within in
    (wide, fits, omega (arith, bound, fits), positive)
  where
    below_is : (a b : ℕ) → a < b → leb a b ≡ true
    below_is a b p = ground arith

-- Under parameters that the lease accepts, the lifetime, the margin, the cap and the deadline being
-- finite: the client's deadline and a margin of 15 seconds at least fit into the lock's lifetime; and
-- after a successful acquisition, where less than the lifetime passes from one renewal to the next and
-- from the last one to the end of the work, the heartbeat never loses the lock to others, whatever they
-- do to it meanwhile. The lock is the holder's when the heartbeat ends, and where the work has ended by
-- itself, the full intervals that have passed come to less than the cap.
pub lease-Holds :
    (id token : String) (ttl_seconds margin total d : ℕ) (deadline : Option (Option Number))
    (r : Redis) (intervals : List (List LockOp)) (last : List LockOp)
    → lease_deadline
        (some (exactly margin))
        (some (exactly (ttl_seconds * 1000)))
        deadline
        (some (exactly total))
      ≡ some (exactly d)
    → (acquire_lock id token ttl_seconds r).0 ≡ true
    → All (Brief token (ttl_seconds * 1000)) intervals
    → Brief token (ttl_seconds * 1000) last
    → let ttl = ttl_seconds * 1000 in
      let interval = renewal_interval ttl total d in
      (15000 ≤ margin)
      × (d + margin ≤ ttl)
      × Holds id token interval total 0 intervals (
          heartbeat id token ttl interval total last 0 intervals
            (acquire_lock id token ttl_seconds r).1)
lease-Holds id token ttl_seconds margin total d deadline r intervals last accepted taken quiet
      brief =
    let ttl = ttl_seconds * 1000 in
    let (wide, fits, within, positive) =
      lease_deadline-parts margin ttl deadline total d accepted in
    let held = acquire_lock-HeldUntil id token ttl_seconds r (omega (arith, wide, fits)) taken in
    let same = clock-acquire_lock id token ttl_seconds r in
    (
      wide,
      within,
      heartbeat-Holds id token ttl (renewal_interval ttl total d) total last
          (omega (arith, wide, fits)) brief intervals 0 (r.clock + ttl)
          (acquire_lock id token ttl_seconds r).1 held (omega (arith, same))
          (omega (arith, positive)) quiet,
    )
