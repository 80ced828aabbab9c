-- ===== src/Intents/Cas/History.antt =====
use research_paper_aep.Base.{Option, String, and-true, false, none, refl, some, true, ◌≡◌}
use research_paper_aep.Lua.Value.{
  LuaValue, at, bool, find, index, is_nil, lua_eq-text, nil, null, num, size, table, text, ◌▸◌,
}
use research_paper_aep.Lua.Equal.{shape}
use research_paper_aep.Lua.Script.{guard-eq-value, guard-eq-value_rest, value}
use research_paper_aep.Intents.Status.{IntentStatus, is_legal, old_text, status_text}
use research_paper_aep.Intents.Cas.Args.{CasArgs, Codec, decoded_or_nil, history, is_status}
use research_paper_aep.Intents.Cas.Creation.{creation}
use research_paper_aep.Intents.Cas.Update.{audit, update}
use research_paper_aep.Intents.Cas.{branch, by_old_status}
use research_paper_aep.Redis.{Redis}
use research_paper_aep.Intents.Diagram.{Edge, is_legal-Edge}
use research_paper_aep.Intents.Cas.Accepted.{Accepts, Accepts-Accepted, after, stored}
use research_paper_aep.Intents.Cas.Fence.{stored-after}

-- The record that the intent script changes: its transition, its audit trail, and what stays.

-- The intent's record in a decoded state.
abbrev pub record_of : LuaValue → String → LuaValue
record_of v i = (v ▸ "intent_ledger") ▸ i

-- NONE is the status of a record that is not there.
abbrev pub HasStatus : LuaValue → Option IntentStatus → Type 0
HasStatus r none = is_nil r ≡ true
HasStatus r (some s) = r ▸ "status" ≡ text (status_text s)

pub HasStatus-present : (v : LuaValue) (s : IntentStatus) → HasStatus v (some s) → is_nil v ≡ false
unfolding find
HasStatus-present nil s h = cc
HasStatus-present null s h = refl
HasStatus-present (bool b) s h = refl
HasStatus-present (num n) s h = refl
HasStatus-present (text t) s h = refl
HasStatus-present (table fs) s h = refl

pub is_status-eq :
    (r : LuaValue) (s : IntentStatus) → is_status r s ≡ true → r ▸ "status" ≡ text (status_text s)
unfolding is_status
is_status-eq r s h = lua_eq-text (r ▸ "status") (status_text s) h

audit-parts :
    (a : CasArgs) (new : LuaValue)
    → audit a new ≡ value tt
    → let is = record_of new a.intent_id in
      let newest = index (history is) (at (size (history is))) in
      (newest ▸ "old_state" ≡ text (old_text a.old_status))
      × (newest ▸ "new_state" ≡ text (status_text a.new_status))
unfolding audit
audit-parts a new h =
    let (shape, rest) = guard-eq-value_rest _ 5 _ h in
    let texts = (and-true _ _ (and-true _ _ (guard-eq-value _ 5 rest)).1) in
    (lua_eq-text _ _ texts.0, lua_eq-text _ _ texts.1)

module _ (c : Codec) (a : CasArgs) (before new : LuaValue) where
  pub branch-parts :
      branch c a before new ≡ value tt
      → (is_status (record_of new a.intent_id) a.new_status ≡ true)
        × (is_legal a.old_status a.new_status ≡ true)
        × (by_old_status c a before new a.old_status ≡ value tt)
  unfolding branch
  branch-parts h =
      let (shape, rest) = guard-eq-value_rest _ 5 _ h in
      let (legal, by_status) = guard-eq-value_rest _ 4 _ rest in
      ((and-true _ _ (and-true _ _ shape).1).1, legal, by_status)

  creation-absent :
      creation c a before new ≡ value tt → is_nil (record_of before a.intent_id) ≡ true
  unfolding creation
  creation-absent h = (guard-eq-value_rest _ 5 _ h).0

  update-status :
      (s : IntentStatus)
      → update a before new s ≡ value tt
      → is_status (record_of before a.intent_id) s ≡ true
  unfolding update
  update-status s h = (and-true _ _ (guard-eq-value_rest _ 4 _ h).0).1

  by_old_status-HasStatus :
      (o : Option IntentStatus)
      → by_old_status c a before new o ≡ value tt
      → HasStatus (record_of before a.intent_id) o
  by_old_status-HasStatus none h = creation-absent h
  by_old_status-HasStatus (some s) h =
      is_status-eq (record_of before a.intent_id) s (update-status s h)

-- An accepted script follows an edge of the diagram, from the status that the record had, or from no
-- record, to the status that it has after, and the newest audit entry names that edge.
pub intent_cas_transition :
    (c : Codec) (id : String) (a : CasArgs) (r : Redis)
    → Accepts c id a r
    → let was = record_of (stored c id r) a.intent_id in
      let is = record_of (stored c id (after c id a r)) a.intent_id in
      let newest = index (history is) (at (size (history is))) in
      Edge a.old_status a.new_status
      × HasStatus was a.old_status
      × HasStatus is (some a.new_status)
      × (newest ▸ "old_state" ≡ text (old_text a.old_status))
      × (newest ▸ "new_state" ≡ text (status_text a.new_status))
intent_cas_transition c id a r h =
    let (ok, _) = Accepts-Accepted c id a r h in
    let (named, legal, by_status) = branch-parts c a _ _ ok.branched in
    let (old_state, new_state) = audit-parts a _ ok.audited in
    rw (stored-after c id a r h) (
      is_legal-Edge a.old_status a.new_status legal,
      by_old_status-HasStatus c a _ _ a.old_status by_status,
      is_status-eq (record_of (decoded_or_nil (c.decode a.payload)) a.intent_id) a.new_status named,
      old_state,
      new_state,
    )
