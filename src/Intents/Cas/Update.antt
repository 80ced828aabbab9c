-- ===== src/Intents/Cas/Update.antt =====
-- The intent script where the record is there: the record, its history and its progress.
-- aep_core/core/intents.py
use research_paper_aep.Base.{
  Bool, List, Option, String, [], bool_eq, false, if◌then◌else◌, leb, length, ltb, nat_eq, not,
  some, suc, true, zero, ℕ, ◌&&◌, ◌+◌, ◌==◌, ◌||◌, ◌∷◌,
}
use research_paper_aep.Lua.Value.{
  LuaValue, at, index, is_nil, is_num, is_table, key_eq, lua_eq, name, num, number_of, pairs, size,
  text, ◌▸◌,
}
use research_paper_aep.Lua.Script.{Script, each, guard, raised, value, ◌>>=◌, ◌>>◌}
use research_paper_aep.Lua.Equal.{deep_equal}
use research_paper_aep.Intents.Status.{
  IntentStatus, about_to_fire, fired_unconfirmed, old_text, status_text,
}
use research_paper_aep.Intents.Cas.Args.{CasArgs, has_value, history, is_status}

unfoldable pub immutable : List String
immutable =
    "intent_id" ∷ "step_id" ∷ "attempt" ∷ "connector" ∷ "target" ∷ "request_fingerprint"
    ∷ "correlation_id" ∷ "prepared_at" ∷ "client_timeout_seconds" ∷ "settlement_lag_seconds"
    ∷ "reconcile_after" ∷ "prepared_state_version" ∷ "risk_acceptance_id" ∷ []

-- The binding rules of a later transition.
unfoldable pub kept_binding : CasArgs → LuaValue → LuaValue → Script (Unit {0})
kept_binding a old new = do
  let was = old ▸ "canonical_request_binding"
  let is = new ▸ "canonical_request_binding"
  guard (bool_eq (has_value was) (has_value is)) 9
  guard (not (has_value was) || (lua_eq was is && lua_eq is (text a.binding))) 9
  guard (has_value was || a.binding == "") 9

-- for i = 1, #old_record.transitions
unfoldable pub prefix_kept : ℕ → ℕ → LuaValue → LuaValue → Bool
prefix_kept zero i old new = true
prefix_kept (suc n) i old new =
    deep_equal (index old (at i)) (index new (at i)) && prefix_kept n (i + 1) old new

-- else ... end: a transition of a record that is there
unfoldable pub update : CasArgs → LuaValue → LuaValue → IntentStatus → Script (Unit {0})
unfolding is_status kept_binding prefix_kept immutable
update a current candidate old_status = do
  let old_ledger = current ▸ "intent_ledger"
  let ledger = candidate ▸ "intent_ledger"
  let old = old_ledger ▸ a.intent_id
  let new = ledger ▸ a.intent_id
  guard (is_table old && is_status old old_status) 4
  guard (nat_eq (length (pairs ledger)) (length (pairs old_ledger))) 5
  each (pairs old_ledger) (λ (k, r).
      guard (not (is_nil (index ledger k))) 5
      >> guard (key_eq k (name a.intent_id) || deep_equal r (index ledger k)) 5)
  kept_binding a old new
  each immutable (λ f. guard (deep_equal (old ▸ f) (new ▸ f)) 5)
  guard
      (is_table (history old)
        && (is_table (history new) && nat_eq (size (history new)) (size (history old) + 1)))
      5
  guard (prefix_kept (size (history old)) 1 (history old) (history new)) 5

-- old_record.reconciliation.attempt_count + 1, an error where there is no such number
abbrev next_count : LuaValue → Script ℕ
next_count v = if is_num v then value (number_of v + 1) else raised

-- a < b, an error unless both are numbers
abbrev less : LuaValue → LuaValue → Script Bool
less a b = if is_num a && is_num b then value (ltb (number_of a) (number_of b)) else raised

-- The counts of reconciliation; the texts that Lua would read as numbers are errors here.
unfoldable pub progress :
    LuaValue → LuaValue → Option IntentStatus → IntentStatus → Script (Unit {0})
progress old new (some about_to_fire) fired_unconfirmed = do
  guard (lua_eq (new ▸ "reconciliation" ▸ "attempt_count") (num 0)) 5
  early ← less (new ▸ "reconciliation" ▸ "next_check_at") (new ▸ "reconcile_after")
  guard (not early) 5
progress old new (some fired_unconfirmed) fired_unconfirmed = do
  count ← next_count (old ▸ "reconciliation" ▸ "attempt_count")
  guard (lua_eq (new ▸ "reconciliation" ▸ "attempt_count") (num count)) 5
progress old new _ _ = value tt

abbrev is_fired_unconfirmed : IntentStatus → Bool
is_fired_unconfirmed fired_unconfirmed = true
is_fired_unconfirmed _ = false

-- if new_status == 'FIRED_UNCONFIRMED' then ...
unfoldable pub unconfirmed : CasArgs → LuaValue → LuaValue → Script (Unit {0})
unfolding progress
unconfirmed a current candidate = do
  let old = (current ▸ "intent_ledger") ▸ a.intent_id
  let new = (candidate ▸ "intent_ledger") ▸ a.intent_id
  guard
      (not (is_fired_unconfirmed a.new_status)
        || (is_table (new ▸ "reconciliation")
            && (is_num (new ▸ "reconciliation" ▸ "attempt_count")
                && is_num (new ▸ "reconciliation" ▸ "next_check_at"))))
      5
  progress old new a.old_status a.new_status

-- The newest audit entry names the transition.
unfoldable pub audit : CasArgs → LuaValue → Script (Unit {0})
audit a candidate = do
  let new = (candidate ▸ "intent_ledger") ▸ a.intent_id
  guard (is_table (history new) && leb 1 (size (history new))) 5
  let last = index (history new) (at (size (history new)))
  guard
      (is_table last
        && (lua_eq (last ▸ "old_state") (text (old_text a.old_status))
            && lua_eq (last ▸ "new_state") (text (status_text a.new_status))))
      5
