-- ===== src/Intents/Cas/Kept.antt =====
use research_paper_aep.Base.{
  All, All-map, Bool, Option, String, and-true, arith, false, nat_eq→eq, none, not, some, subst,
  suc, true, zero, ℕ, ◌&&◌, ◌+◌, ◌<◌, ◌||◌, ◌∙◌, ◌≡◌, ◌≢◌,
}
use research_paper_aep.Lua.Value.{
  LuaKey, LuaValue, at, bool, fields, index, is_nil, key_eq, lua_eq, lua_eq-from_text, name, nil,
  null, num, pairs, size, table, text, ◌▸◌,
}
use research_paper_aep.Lua.Equal.{All-find, SameValue, deep_equal, deep_equal-SameValue, key_eq_ne}
use research_paper_aep.Lua.Script.{
  >>-eq-value, each, each-eq-value, each-guard, guard, guard-eq-value, guard-eq-value_rest, value,
  ◌>>◌,
}
use research_paper_aep.Intents.Status.{IntentStatus}
use research_paper_aep.Intents.Cas.Args.{CasArgs, Codec, decoded_or_nil, has_value, history}
use research_paper_aep.Intents.Cas.Creation.{creation, inspect}
use research_paper_aep.Intents.Cas.Update.{immutable, kept_binding, prefix_kept, update}
use research_paper_aep.Intents.Cas.History.{branch-parts, record_of}
use research_paper_aep.Intents.Cas.{by_old_status}
use research_paper_aep.Redis.{Redis}
use research_paper_aep.Intents.Cas.Accepted.{Accepts, Accepts-Accepted, after, stored}
use research_paper_aep.Intents.Cas.Fence.{stored-after}
use research_paper_aep.Intents.Cas.Created.{creation-Created, no_latest, scan-inspect}

-- What the intent script keeps: every other record, the immutable fields of the record that it
-- changes, its request binding, and its audit trail, which only grows.

abbrev KeptAt : LuaValue → String → LuaKey × LuaValue → Type 0
KeptAt ledger i p = key_eq p.0 (name i) ≡ false → deep_equal p.1 (index ledger p.0) ≡ true

or-false : (a b : Bool) → (a || b) ≡ true → a ≡ false → b ≡ true
or-false a b h e = ground arith

-- The parts of an update that its later theorems use.
record Updated (a : CasArgs) (before new : LuaValue) : Type 0 where
  others : All (KeptAt (new ▸ "intent_ledger") a.intent_id) (pairs (before ▸ "intent_ledger"))
  bound : kept_binding a (record_of before a.intent_id) (record_of new a.intent_id) ≡ value tt
  fixed :
      All
        (λ f. deep_equal (record_of before a.intent_id ▸ f) (record_of new a.intent_id ▸ f) ≡ true)
        immutable
  longer :
      size (history (record_of new a.intent_id)) ≡ size (history (record_of before a.intent_id)) + 1
  extends :
      prefix_kept
        (size (history (record_of before a.intent_id)))
        1
        (history (record_of before a.intent_id))
        (history (record_of new a.intent_id))
      ≡ true

other_kept :
    (a : CasArgs) (new : LuaValue) (p : LuaKey × LuaValue)
    → (guard (not (is_nil (index (new ▸ "intent_ledger") p.0))) 5
        >> guard
            (key_eq p.0 (name a.intent_id) || deep_equal p.1 (index (new ▸ "intent_ledger") p.0))
            5)
      ≡ value tt
    → KeptAt (new ▸ "intent_ledger") a.intent_id p
other_kept a new p h other = or-false _ _ (guard-eq-value _ 5 (guard-eq-value_rest _ 5 _ h).1) other

update-Updated :
    (a : CasArgs) (before new : LuaValue) (s : IntentStatus)
    → update a before new s ≡ value tt
    → Updated a before new
unfolding update
update-Updated a before new s h =
    let (_, counted) = guard-eq-value_rest _ 4 _ h in
    let (_, looped) = guard-eq-value_rest _ 5 _ counted in
    let (others, binding) = >>-eq-value (each (pairs (before ▸ "intent_ledger")) _) _ looped in
    let (bound, fixing) =
      >>-eq-value (kept_binding a (record_of before a.intent_id) (record_of new a.intent_id)) _
        binding in
    let (fixed, sizes) = >>-eq-value (each immutable _) _ fixing in
    let (longer, extends) = guard-eq-value_rest _ 5 _ sizes in
    record {
      others = All-map _ _ (λ p q. other_kept a new p q) _ (each-eq-value _ _ others);
      bound = bound;
      fixed =
          each-guard immutable
            (λ f. deep_equal (record_of before a.intent_id ▸ f) (record_of new a.intent_id ▸ f)) 5
            fixed;
      longer = nat_eq→eq _ _ (and-true _ _ (and-true _ _ longer).1).1;
      extends = guard-eq-value _ 5 extends;
    }

inspect-kept :
    (ledger : LuaValue) (p : LuaKey × LuaValue)
    → inspect ledger p.0 p.1 ≡ value tt
    → deep_equal p.1 (index ledger p.0) ≡ true
unfolding inspect
inspect-kept ledger p h =
    let (_, rest) = guard-eq-value_rest _ 5 _ h in
    let (_, last) = guard-eq-value_rest _ 7 _ rest in (and-true _ _ (guard-eq-value _ 5 last)).1

creation-kept :
    (c : Codec) (a : CasArgs) (before new : LuaValue)
    → creation c a before new ≡ value tt
    → All
        (λ p. deep_equal p.1 (index (new ▸ "intent_ledger") p.0) ≡ true)
        (pairs (before ▸ "intent_ledger"))
creation-kept c a before new h =
    All-map _ _ (λ p q. inspect-kept (new ▸ "intent_ledger") p q) _
      (scan-inspect (new ▸ "intent_ledger") (record_of new a.intent_id)
        (pairs (before ▸ "intent_ledger")) no_latest (creation-Created c a before new h).scanned)

by_old_status-kept :
    (c : Codec) (a : CasArgs) (before new : LuaValue) (o : Option IntentStatus)
    → by_old_status c a before new o ≡ value tt
    → All (KeptAt (new ▸ "intent_ledger") a.intent_id) (pairs (before ▸ "intent_ledger"))
by_old_status-kept c a before new none h =
    All-map _ _ (λ p q other. q) _ (creation-kept c a before new h)
by_old_status-kept c a before new (some s) h = (update-Updated a before new s h).others

-- An accepted script leaves every record but the one it names as it was, at every depth.
pub intent_cas_keeps_others :
    (c : Codec) (id : String) (a : CasArgs) (r : Redis) (j : String)
    → Accepts c id a r
    → j ≢ a.intent_id
    → is_nil (record_of (stored c id r) j) ≡ false
    → SameValue (record_of (stored c id r) j) (record_of (stored c id (after c id a r)) j)
intent_cas_keeps_others c id a r j h other present =
    let (ok, _) = Accepts-Accepted c id a r h in
    let (_, _, by_status) = branch-parts c a _ _ ok.branched in
    rw (stored-after c id a r h) (
      deep_equal-SameValue _ _ (
        All-find (KeptAt (decoded_or_nil (c.decode a.payload) ▸ "intent_ledger") a.intent_id)
          (name j) (fields (stored c id r ▸ "intent_ledger"))
          (by_old_status-kept c a _ _ a.old_status by_status) present
          (key_eq_ne j a.intent_id other)))

prefix_kept-at :
    (n i : ℕ) (old new : LuaValue)
    → prefix_kept n i old new ≡ true
    → (k : ℕ) → k < n
    → deep_equal (index old (at (i + k))) (index new (at (i + k))) ≡ true
unfolding prefix_kept
prefix_kept-at zero i old new h k lt = absurd (omega arith)
prefix_kept-at (suc n) i old new h zero lt =
    let same : i ≡ i + 0 = omega arith in
    subst (λ (j : ℕ). deep_equal (index old (at j)) (index new (at j)) ≡ true) same
      (and-true _ _ h).0
prefix_kept-at (suc n) i old new h (suc k) lt =
    let same : i + 1 + k ≡ i + suc k = omega arith in
    subst (λ (j : ℕ). deep_equal (index old (at j)) (index new (at j)) ≡ true) same
      (prefix_kept-at n (i + 1) old new (and-true _ _ h).1 k (omega arith))

bound-text :
    (was is : LuaValue) (b s : String)
    → (not (has_value was) || (lua_eq was is && lua_eq is (text b))) ≡ true
    → was ≡ text s
    → is ≡ text s
bound-text (text t) is b s h e = lua_eq-from_text t is (and-true _ _ h).0 ∙ e
bound-text nil is b s h e = cc
bound-text null is b s h e = cc
bound-text (bool x) is b s h e = cc
bound-text (num n) is b s h e = cc
bound-text (table fs) is b s h e = cc

bound-kept :
    (a : CasArgs) (old new : LuaValue) (s : String)
    → kept_binding a old new ≡ value tt
    → old ▸ "canonical_request_binding" ≡ text s
    → new ▸ "canonical_request_binding" ≡ text s
unfolding kept_binding
bound-kept a old new s h =
    let (_, rest) = guard-eq-value_rest _ 9 _ h in
    let (same, _) = guard-eq-value_rest _ 9 _ rest in
    bound-text (old ▸ "canonical_request_binding") (new ▸ "canonical_request_binding") a.binding s
      same

-- A transition of a record that is there adds one audit entry behind those that are there, each of
-- which it keeps at every depth, and keeps the thirteen immutable fields and the request binding.
pub intent_cas_appends :
    (c : Codec) (id : String) (a : CasArgs) (r : Redis) (s : IntentStatus)
    → Accepts c id a r
    → a.old_status ≡ some s
    → let was = record_of (stored c id r) a.intent_id in
      let is = record_of (stored c id (after c id a r)) a.intent_id in
      (size (history is) ≡ size (history was) + 1)
      × ((k : ℕ)
          → k < size (history was)
          → SameValue (index (history was) (at (1 + k))) (index (history is) (at (1 + k))))
      × All (λ f. SameValue (was ▸ f) (is ▸ f)) immutable
      × ((b : String)
          → was ▸ "canonical_request_binding" ≡ text b
          → is ▸ "canonical_request_binding" ≡ text b)
intent_cas_appends c id a r s h e =
    let (ok, _) = Accepts-Accepted c id a r h in
    let (_, _, by_status) = branch-parts c a _ _ ok.branched in
    let kept = update-Updated a _ _ s (
      subst
        (λ o. by_old_status c a (stored c id r) (decoded_or_nil (c.decode a.payload)) o ≡ value tt)
        e by_status) in
    rw (stored-after c id a r h) (
      kept.longer,
      λ k lt. deep_equal-SameValue _ _ (prefix_kept-at _ 1 _ _ kept.extends k lt),
      All-map _ _ (λ f q. deep_equal-SameValue _ _ q) immutable kept.fixed,
      λ b. bound-kept a _ _ b kept.bound,
    )
