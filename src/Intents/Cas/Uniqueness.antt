-- ===== src/Intents/Cas/Uniqueness.antt =====
use research_paper_aep.Base.{
  All, All-map, Any, Bool, Bool-cases, List, Pairwise, String, [], and-false, and-true, arith,
  eq_refl, false, first, if◌then◌else◌, inl, inr, leb→le, next, not, not-true, or-eq-false, some,
  subst, true, ℕ, ◌*◌, ◌||◌, ◌∷◌, ◌≡◌, ◌≢◌, ◌≤◌,
}
use research_paper_aep.Lua.Value.{LuaKey, LuaValue, pairs, text_of, ◌▸◌}
use research_paper_aep.Intents.Cas.Ledger.{
  attempt_of, attempt_seen, check_ledger, is_pending, is_retained, key_is, retention, step_seen,
}
use research_paper_aep.Lua.Script.{>>=-eq-value, guard-eq-value, guard-eq-value_rest, value}
use research_paper_aep.Lua.Equal.{shape}
use research_paper_aep.Intents.Cas.Args.{CasArgs, Codec, decoded_or_nil, ttl_or_zero}
use research_paper_aep.Redis.{Redis, pttl, state}
use research_paper_aep.Intents.Cas.Accepted.{Accepts, Accepts-Accepted, after, stored}
use research_paper_aep.Intents.Cas.Fence.{fence-ttl, stored-after}
use research_paper_aep.Redis.Laws.{pttl-set_self}

-- The rules that hold of a whole ledger once the intent script has written it, and how long the
-- written state then lives.

abbrev pub SameAttempt : LuaKey × LuaValue → LuaKey × LuaValue → Type 0
SameAttempt p q = attempt_of q.1 ≡ attempt_of p.1

abbrev pub BothPending : LuaKey × LuaValue → LuaKey × LuaValue → Type 0
BothPending p q =
    (is_pending p.1 ≡ true)
    × (is_pending q.1 ≡ true)
    × (text_of (q.1 ▸ "step_id") ≡ text_of (p.1 ▸ "step_id"))

-- The entries that are left agree with what the loop has seen.
abbrev Fresh : List (String × ℕ) → List String → LuaKey × LuaValue → Type 0
Fresh attempts pending p =
    (attempt_seen (attempt_of p.1) attempts ≡ false)
    × (is_pending p.1 ≡ true → step_seen (text_of (p.1 ▸ "step_id")) pending ≡ false)

attempt_seen-cons :
    (p q : String × ℕ) (qs : List (String × ℕ))
    → attempt_seen p (q ∷ qs) ≡ false
    → (p ≢ q) × (attempt_seen p qs ≡ false)
unfolding attempt_seen
attempt_seen-cons (s, m) (t, n) qs h = (λ e. ground (arith, eq_refl s), ground arith)

step_seen-cons :
    (s t : String) (ts : List String)
    → step_seen s (t ∷ ts) ≡ false
    → (s ≢ t) × (step_seen s ts ≡ false)
unfolding step_seen
step_seen-cons s t ts h = (λ e. ground (arith, eq_refl s, eq_refl t), ground arith)

abbrev then_pending : LuaKey × LuaValue → List String → List String
then_pending p pending = if is_pending p.1 then text_of (p.1 ▸ "step_id") ∷ pending else pending

then_pending-seen :
    (s : String) (p : LuaKey × LuaValue) (pending : List String)
    → step_seen s (then_pending p pending) ≡ false
    → (step_seen s pending ≡ false) × (is_pending p.1 ≡ true → s ≢ text_of (p.1 ▸ "step_id"))
then_pending-seen s p pending h = elim (Bool-cases (is_pending p.1)) [
  | inl e ↦
      let (other, rest) = step_seen-cons s (text_of (p.1 ▸ "step_id")) pending (rw e at h) in
      (rest, λ _. other)
  | inr e ↦ (rw e at h, λ f. cc (e, f))
]

Fresh-cons :
    (attempts : List (String × ℕ)) (pending : List String) (p q : LuaKey × LuaValue)
    → Fresh (attempt_of p.1 ∷ attempts) (then_pending p pending) q
    → Fresh attempts pending q × (¬ SameAttempt p q) × (¬ BothPending p q)
Fresh-cons attempts pending p q (unseen, free) =
    let (other, rest) = attempt_seen-cons (attempt_of q.1) (attempt_of p.1) attempts unseen in
    (
      (rest, λ e. (then_pending-seen (text_of (q.1 ▸ "step_id")) p pending (free e)).0),
      other,
      λ (pe, qe, same).
          (then_pending-seen (text_of (q.1 ▸ "step_id")) p pending (free qe)).1 pe same,
    )

abbrev pub IsKeyed : LuaKey × LuaValue → Type 0
IsKeyed p = key_is (p.1 ▸ "intent_id") p.0 ≡ true

-- What one round of the loop has passed.
check_ledger-cons :
    (p : LuaKey × LuaValue) (rest : List (LuaKey × LuaValue)) (attempts : List (String × ℕ))
    (pending : List String) (required : Bool) {b : Bool}
    → check_ledger (p ∷ rest) attempts pending required ≡ value b
    → IsKeyed p
      × Fresh attempts pending p
      × (check_ledger rest
            (attempt_of p.1 ∷ attempts)
            (then_pending p pending)
            (required || is_retained p.1)
          ≡ value b)
unfolding check_ledger
check_ledger-cons (key, r) rest attempts pending required h =
    let (shape, h1) = guard-eq-value_rest _ 5 _ h in
    let (unseen, h2) = guard-eq-value_rest _ 5 _ h1 in
    let (free, h3) = guard-eq-value_rest _ 5 _ h2 in
    (
      (and-true _ _ (and-true _ _ shape).1).0,
      (not-true _ unseen, λ e. and-false _ _ (not-true _ free) e),
      h3,
    )

-- The attempts of a step differ, and no step has two pending records.
abbrev pub Unique : List (LuaKey × LuaValue) → Type 0
Unique xs = Pairwise (λ p q. (¬ SameAttempt p q) × (¬ BothPending p q)) xs

check_ledger-Fresh :
    (xs : List (LuaKey × LuaValue)) (attempts : List (String × ℕ)) (pending : List String)
    (required : Bool) {b : Bool}
    → check_ledger xs attempts pending required ≡ value b
    → All (Fresh attempts pending) xs
check_ledger-Fresh [] attempts pending required h = tt
check_ledger-Fresh (p ∷ rest) attempts pending required h =
    let (_, fresh, more) = check_ledger-cons p rest attempts pending required h in
    (
      fresh,
      All-map _ _ (λ q f. (Fresh-cons attempts pending p q f).0) rest
          (check_ledger-Fresh rest (attempt_of p.1 ∷ attempts) (then_pending p pending)
            (required || is_retained p.1) more),
    )

check_ledger-Unique :
    (xs : List (LuaKey × LuaValue)) (attempts : List (String × ℕ)) (pending : List String)
    (required : Bool) {b : Bool}
    → check_ledger xs attempts pending required ≡ value b
    → Unique xs × All IsKeyed xs
check_ledger-Unique [] attempts pending required h = (tt, tt)
check_ledger-Unique (p ∷ rest) attempts pending required h =
    let (keyed, _, more) = check_ledger-cons p rest attempts pending required h in
    let seen = attempt_of p.1 ∷ attempts in
    let (unique, all_keyed) =
      check_ledger-Unique rest seen (then_pending p pending) (required || is_retained p.1) more in
    (
      (
        All-map _ _ (λ q f. let (_, a, b) = Fresh-cons attempts pending p q f in (a, b)) rest
            (check_ledger-Fresh rest seen (then_pending p pending) (required || is_retained p.1)
              more),
        unique,
      ),
      (keyed, all_keyed),
    )

check_ledger-required :
    (xs : List (LuaKey × LuaValue)) (attempts : List (String × ℕ)) (pending : List String)
    (required : Bool)
    → check_ledger xs attempts pending required ≡ value false
    → (required ≡ false) × All (λ p. is_retained p.1 ≡ false) xs
check_ledger-required [] attempts pending required h = (unfold check_ledger in cc h, tt)
check_ledger-required (p ∷ rest) attempts pending required h =
    let (_, _, more) = check_ledger-cons p rest attempts pending required h in
    let (neither, others) =
      check_ledger-required rest (attempt_of p.1 ∷ attempts) (then_pending p pending)
        (required || is_retained p.1) more in
    let both = or-eq-false required (is_retained p.1) neither in (both.0, (both.1, others))

required-leb : (required b : Bool) → (not required || b) ≡ true → required ≡ true → b ≡ true
required-leb required b h e = ground arith

retention-parts :
    (a : CasArgs) (new : LuaValue)
    → retention a new ≡ value tt
    → (required : Bool) × (check_ledger (pairs (new ▸ "intent_ledger")) [] [] false
        ≡ value required)
      × (required ≡ true → a.minimum_ttl ≤ ttl_or_zero a.ttl)
unfolding retention
retention-parts a new h =
    let (required, checked, floor) =
      >>=-eq-value (check_ledger (pairs (new ▸ "intent_ledger")) [] [] false) _ h in
    (required, checked, λ e. leb→le _ _ (required-leb required _ (guard-eq-value _ 5 floor) e))

none_required :
    (P : LuaKey × LuaValue → Bool) {xs : List (LuaKey × LuaValue)}
    → Any (λ p. P p ≡ true) xs
    → All (λ p. P p ≡ false) xs
    → ⊥
none_required P (first t) f = cc (t, f.0)
none_required P (next t) f = none_required P t f.1

-- The written ledger files every record under its own id, no two of its records share step and
-- attempt, and no two records of one step are both ABOUT_TO_FIRE or FIRED_UNCONFIRMED.
pub intent_cas-Unique :
    (c : Codec) (id : String) (a : CasArgs) (r : Redis)
    → Accepts c id a r
    → let ledger = pairs (stored c id (after c id a r) ▸ "intent_ledger") in
      Unique ledger × All IsKeyed ledger
intent_cas-Unique c id a r h =
    let (ok, _) = Accepts-Accepted c id a r h in
    let (required, checked, _) = retention-parts a _ ok.retained in
    rw (stored-after c id a r h) (check_ledger-Unique _ [] [] false checked)

-- Where the written ledger holds a record whose effect is not settled, the state is kept for at least
-- the minimum that the caller names, which is in seconds while PTTL counts milliseconds.
pub intent_cas_retains :
    (c : Codec) (id : String) (a : CasArgs) (r : Redis)
    → Accepts c id a r
    → Any (λ p. is_retained p.1 ≡ true) (pairs (stored c id (after c id a r) ▸ "intent_ledger"))
    → (t : ℕ) × (pttl (after c id a r) (state id) ≡ some t) × (a.minimum_ttl * 1000 ≤ t)
intent_cas_retains c id a r h open_record =
    let (ok, wrote) = Accepts-Accepted c id a r h in
    let new = decoded_or_nil (c.decode a.payload) in
    let (required, checked, floor) = retention-parts a new ok.retained in
    let here =
      subst
        (λ v. Any (λ (p : LuaKey × LuaValue). is_retained p.1 ≡ true) (pairs (v ▸ "intent_ledger")))
        (stored-after c id a r h) open_record in
    let is_required : required ≡ true = elim (Bool-cases required) [
      | inl e ↦ e
      | inr e ↦ absurd (
          none_required (λ p. is_retained p.1) here
            (check_ledger-required _ [] [] false (rw e at checked)).1)
    ] in
    (
      ttl_or_zero a.ttl * 1000,
      rw wrote (pttl-set_self r (state id) a.payload _ (fence-ttl a _ _ ok.fenced)),
      omega (arith, floor is_required),
    )
