-- ===== src/Intents/Cas/Eligibility.antt =====
use research_paper_aep.Base.{
  All, All-map, Any, List, String, [], ap, arith, false, first, inl, inr, next, none, not-true,
  refl, some, subst, sym, true, ℕ, ◌∙◌, ◌∷◌, ◌≡◌, ◌≢◌, ◌≤◌, ◌⊎◌,
}
use research_paper_aep.Lua.Value.{
  LuaKey, LuaValue, lua_eq, lua_eq-text, num, number_of, pairs, size, text, ◌▸◌,
}
use research_paper_aep.Lua.Script.{>>-eq-value, guard-eq-value_rest, value}
use research_paper_aep.Intents.Cas.Creation.{
  Latest, admits_successor, inspect, is_open, later, scan,
}
use research_paper_aep.Intents.Cas.Args.{CasArgs, Codec, decoded_or_nil, history, lua_successor}
use research_paper_aep.Intents.Cas.{by_old_status}
use research_paper_aep.Redis.{Redis}
use research_paper_aep.Intents.Cas.Accepted.{Accepts, Accepts-Accepted, after, stored}
use research_paper_aep.Intents.Cas.Fence.{fence-versions, next_version-true, stored-after}
use research_paper_aep.Intents.Cas.History.{branch-parts, record_of}
use research_paper_aep.Intents.Cas.Created.{creation-Created, no_latest, scan-inspect}

-- When the intent script creates a record: the execution-wide fence and the predecessor rule.

abbrev pub SameStep : LuaValue → LuaKey × LuaValue → Type 0
SameStep new p = lua_eq (p.1 ▸ "step_id") (new ▸ "step_id") ≡ true

abbrev pub attempt_no : LuaKey × LuaValue → ℕ
attempt_no p = number_of (p.1 ▸ "attempt")

later-ge : (new r : LuaValue) (latest : Latest) → latest.attempt ≤ (later new r latest).attempt
unfolding later
later-ge new r latest = ground arith

later-covers :
    (new : LuaValue) (p : LuaKey × LuaValue) (latest : Latest)
    → SameStep new p
    → attempt_no p ≤ (later new p.1 latest).attempt
unfolding later
later-covers new p latest h = ground arith

later-source :
    (new : LuaValue) (p : LuaKey × LuaValue) (latest : Latest)
    → (later new p.1 latest ≡ latest)
      ⊎ (SameStep new p
          × (later new p.1 latest
              ≡ record { attempt = attempt_no p; status = some (p.1 ▸ "status") }))
unfolding later
later-source new p latest = ground arith

latest_of : LuaValue → List (LuaKey × LuaValue) → Latest → Latest
latest_of new [] latest = latest
latest_of new (p ∷ rest) latest = latest_of new rest (later new p.1 latest)

scan-latest_of :
    (ledger new : LuaValue) (xs : List (LuaKey × LuaValue)) (latest : Latest) {l : Latest}
    → scan ledger new xs latest ≡ value l
    → l ≡ latest_of new xs latest
unfolding scan latest_of
scan-latest_of ledger new [] latest h = cc
scan-latest_of ledger new ((key, r) ∷ rest) latest h =
    scan-latest_of ledger new rest (later new r latest) (>>-eq-value (inspect ledger key r) _ h).1

latest_of-ge :
    (new : LuaValue) (xs : List (LuaKey × LuaValue)) (latest : Latest)
    → latest.attempt ≤ (latest_of new xs latest).attempt
unfolding latest_of
latest_of-ge new [] latest = omega arith
latest_of-ge new (p ∷ rest) latest =
    omega (arith, later-ge new p.1 latest, latest_of-ge new rest (later new p.1 latest))

latest_of-covers :
    (new : LuaValue) (xs : List (LuaKey × LuaValue)) (latest : Latest)
    → All (λ p. SameStep new p → attempt_no p ≤ (latest_of new xs latest).attempt) xs
unfolding latest_of
latest_of-covers new [] latest = tt
latest_of-covers new (p ∷ rest) latest = (
  λ same.
      omega (arith, later-covers new p latest same, latest_of-ge new rest (later new p.1 latest)),
  latest_of-covers new rest (later new p.1 latest),
)

abbrev IsSource : LuaValue → Latest → LuaKey × LuaValue → Type 0
IsSource new l p =
    SameStep new p × (l ≡ record { attempt = attempt_no p; status = some (p.1 ▸ "status") })

latest_of-IsSource :
    (new : LuaValue) (xs : List (LuaKey × LuaValue)) (latest : Latest)
    → (latest_of new xs latest ≡ latest) ⊎ Any (IsSource new (latest_of new xs latest)) xs
unfolding latest_of
latest_of-IsSource new [] latest = inl refl
latest_of-IsSource new (p ∷ rest) latest =
    elim (latest_of-IsSource new rest (later new p.1 latest)) [
      | inr there ↦ inr (next there)
      | inl e ↦ elim (later-source new p latest) [
        | inl same ↦ inl (e ∙ same)
        | inr (step, made) ↦ inr (first (step, e ∙ made))
      ]
    ]

-- The latest predecessor of the same step failed, with no effect, as attempt number m.
abbrev pub FailedAs : LuaValue → ℕ → LuaKey × LuaValue → Type 0
FailedAs new m p = SameStep new p × (attempt_no p ≡ m) × (p.1 ▸ "status" ≡ text "FAILED_CONFIRMED")

Any-map :
    (P Q : LuaKey × LuaValue → Type 0)
    → ((p : LuaKey × LuaValue) → P p → Q p)
    → {xs : List (LuaKey × LuaValue)} → Any P xs
    → Any Q xs
Any-map P Q f (first {x = x} h) = first (f x h)
Any-map P Q f (next h) = next (Any-map P Q f h)

predecessor :
    (new : LuaValue) (xs : List (LuaKey × LuaValue)) (l : Latest)
    → l ≡ latest_of new xs no_latest
    → admits_successor l.status ≡ true
    → (l.attempt ≡ 0) ⊎ Any (FailedAs new l.attempt) xs
predecessor new xs l e admitted = elim (latest_of-IsSource new xs no_latest) [
  | inl start ↦ inl (ap (λ (k : Latest). k.attempt) (e ∙ start))
  | inr there ↦ inr (
      Any-map _ _
        (λ p (step, made).
          let whole = e ∙ made in
          (
            step,
            ap (λ (k : Latest). k.attempt) (sym whole),
            lua_eq-text (p.1 ▸ "status") "FAILED_CONFIRMED" (
                subst (λ o. admits_successor o ≡ true) (ap (λ (k : Latest). k.status) whole)
                  admitted),
          ))
        there)
]

inspect-closed :
    (ledger : LuaValue) (p : LuaKey × LuaValue)
    → inspect ledger p.0 p.1 ≡ value tt
    → is_open p.1 ≡ false
unfolding inspect
inspect-closed ledger p h =
    let (_, rest) = guard-eq-value_rest _ 5 _ h in not-true _ (guard-eq-value_rest _ 7 _ rest).0

-- A creation goes through only on an execution that is not PAUSED and none of whose records is
-- ABOUT_TO_FIRE, FIRED_UNCONFIRMED or PERMANENTLY_AMBIGUOUS; the new record's attempt is the successor that Lua
-- computes, exact below 2^53, of m, the highest attempt of its step, which is 0 or belongs to a record that is FAILED_CONFIRMED; and
-- it was prepared at the version that is now stored, with one audit entry, on an execution that is
-- now PROCESSING.
pub intent_cas_creates :
    (c : Codec) (id : String) (a : CasArgs) (r : Redis)
    → Accepts c id a r
    → a.old_status ≡ none
    → let before = stored c id r in
      let now = stored c id (after c id a r) in
      let is = record_of now a.intent_id in
      (m : ℕ) × (before ▸ "status" ≢ text "PAUSED")
      × All (λ p. is_open p.1 ≡ false) (pairs (before ▸ "intent_ledger"))
      × (is ▸ "attempt" ≡ num (lua_successor m))
      × All (λ p. SameStep is p → attempt_no p ≤ m) (pairs (before ▸ "intent_ledger"))
      × ((m ≡ 0) ⊎ Any (FailedAs is m) (pairs (before ▸ "intent_ledger")))
      × (is ▸ "prepared_state_version" ≡ now ▸ "version")
      × (size (history is) ≡ 1)
      × (now ▸ "status" ≡ text "PROCESSING")
intent_cas_creates c id a r h e =
    let (ok, _) = Accepts-Accepted c id a r h in
    let (_, _, by_status) = branch-parts c a _ _ ok.branched in
    let new = decoded_or_nil (c.decode a.payload) in
    let made =
      creation-Created c a (stored c id r) new
        (subst (λ o. by_old_status c a (stored c id r) new o ≡ value tt) e by_status) in
    let (n, expected, _, version) = fence-versions a (stored c id r) new ok.fenced in
    let ledger = pairs (stored c id r ▸ "intent_ledger") in
    let found = scan-latest_of _ _ ledger no_latest made.scanned in
    rw (stored-after c id a r h) (
      made.latest.attempt,
      λ paused. cc (ap (λ v. lua_eq v (text "PAUSED")) paused, made.not_paused),
      All-map _ _ (λ p q. inspect-closed _ p q) ledger
          (scan-inspect _ _ ledger no_latest made.scanned),
      made.numbered,
      rw found (latest_of-covers (record_of new a.intent_id) ledger no_latest),
      predecessor (record_of new a.intent_id) ledger made.latest found made.admitted,
      next_version-true a.expected n _ expected made.prepared ∙ sym version,
      made.single,
      made.processing,
    )
