-- ===== src/Lifecycle/Refines.antt =====
use research_paper_aep.Base.{
  Bool-cases, List, Option, String, [], ap, eq_refl, false, false≢true, if◌then◌else◌, inl, inr,
  ltb, none, refl, some, subst, sym, ℕ, ◌*◌, ◌+◌, ◌==◌, ◌∙◌, ◌∷◌, ◌≡◌, ◌≢◌, ◌⊎◌,
}
use research_paper_aep.Lua.Value.{
  LuaValue, bool, entries, find, is_nil, name, nil, null, num, pairs, table, text, ◌▸◌,
}
use research_paper_aep.Lua.Equal.{SameValue, shape}
use research_paper_aep.Lua.Keys.{IsKeyedOnce}
use research_paper_aep.Intents.Cas.Args.{CasArgs, Codec, decoded_or_nil}
use research_paper_aep.Intents.Cas.History.{HasStatus, intent_cas_transition, record_of}
use research_paper_aep.Intents.Cas.Accepted.{Accepts, after, decoded, stored}
use research_paper_aep.Redis.{Redis, get, lock, same_key, set, state}
use research_paper_aep.Intents.Status.{
  IntentStatus, about_to_fire, failed_confirmed, fired_confirmed, fired_unconfirmed,
  permanently_ambiguous, status_text,
}
use research_paper_aep.Intents.Cas.Absent.{intent_cas_adds_no_other}
use research_paper_aep.Intents.Cas.Kept.{intent_cas_keeps_others}
use research_paper_aep.Intents.Diagram.{Edge}
use research_paper_aep.Lua.Script.{value}
use research_paper_aep.Intents.Cas.{intent_cas, validate}
use research_paper_aep.Lifecycle.Records.{
  commit-cases, has_ledger_entries-present, lock_step-state, no_ledger_entries,
  record_authorization-state, save_outcome-cases,
}
use research_paper_aep.Storage.Cas.{SaveArgs, base_cas, is_protected, may_save}
use research_paper_aep.Storage.Cas.Protected.{base_cas_unmanaged}
use research_paper_aep.Lifecycle.{
  Lives, Op, StateLives, authorization, cas, locking, run, save, step,
}
use research_paper_aep.Intents.Dispatch.{authorize, may_authorize}

-- The ledger as its clients see it: a status for each intent, moved one at a time along the diagram.
-- The scripts of aep_core/core/intents.py and aep_core/core/storage.py refine that machine; the
-- order of the records, their other fields, leases, versions and expiries are forgotten.

-- The abstract state: no status is NONE.
abbrev pub View : Type 0
View = String → Option IntentStatus

-- The abstract step.
pub data Move (before after : View) : Type 0 where
  rest : ((i : String) → after i ≡ before i) → Move before after
  move :
      (i : String) (t : IntentStatus)
      → Edge (before i) t
      → after i ≡ some t
      → ((j : String) → j ≢ i → after j ≡ before j)
      → Move before after

pub data Moves : View → View → Type 0 where
  stop : {v : View} → Moves v v
  then_move : {u v w : View} → Move u v → Moves v w → Moves u w

-- The status that a record shows.
read_status : LuaValue → Option IntentStatus
read_status (text s) =
    if s == "ABOUT_TO_FIRE"
    then some about_to_fire
    else if s == "FIRED_CONFIRMED"
    then some fired_confirmed
    else if s == "FAILED_CONFIRMED"
    then some failed_confirmed
    else if s == "FIRED_UNCONFIRMED"
    then some fired_unconfirmed
    else if s == "PERMANENTLY_AMBIGUOUS"
    then some permanently_ambiguous
    else none
read_status _ = none

unfoldable pub shown : LuaValue → Option IntentStatus
unfolding read_status
shown r = read_status (r ▸ "status")

-- What a client sees of the stored state of an execution.
unfoldable pub view : Codec → String → Redis → View
unfolding shown
view c id r i = shown (record_of (stored c id r) i)

read_status-text : (s : IntentStatus) → read_status (text (status_text s)) ≡ some s
unfolding read_status status_text
read_status-text about_to_fire = refl
read_status-text fired_confirmed = refl
read_status-text failed_confirmed = refl
read_status-text fired_unconfirmed = refl
read_status-text permanently_ambiguous = refl

shown-HasStatus : (v : LuaValue) (o : Option IntentStatus) → HasStatus v o → shown v ≡ o
unfolding shown find
shown-HasStatus nil none h = refl
shown-HasStatus null none h = cc
shown-HasStatus (bool b) none h = cc
shown-HasStatus (num n) none h = cc
shown-HasStatus (text t) none h = cc
shown-HasStatus (table fs) none h = cc
shown-HasStatus v (some s) h = ap read_status h ∙ read_status-text s

read_status-shape : (v : LuaValue) → read_status (shape v) ≡ read_status v
unfolding read_status
read_status-shape nil = refl
read_status-shape null = refl
read_status-shape (bool b) = refl
read_status-shape (num n) = refl
read_status-shape (text t) = refl
read_status-shape (table fs) = refl

shown-SameValue : (v w : LuaValue) → SameValue v w → shown w ≡ shown v
unfolding shown
shown-SameValue v w same =
    sym (read_status-shape (w ▸ "status"))
    ∙ sym (ap read_status (same (name "status" ∷ [])))
    ∙ read_status-shape (v ▸ "status")

-- What cjson.decode makes has no key twice in the ledger.
abbrev pub HasDistinctKeys : Option LuaValue → Type 0
HasDistinctKeys none = Unit
HasDistinctKeys (some v) = IsKeyedOnce (pairs (v ▸ "intent_ledger"))

decoded-IsKeyedOnce :
    (c : Codec)
    → ((raw : String) → HasDistinctKeys (c.decode raw))
    → (raw : Option String) → IsKeyedOnce (pairs (decoded c raw ▸ "intent_ledger"))
unfolding find entries
decoded-IsKeyedOnce c keyed none = tt
decoded-IsKeyedOnce c keyed (some raw) = by_decode (c.decode raw) (keyed raw)
  where
    by_decode :
        (o : Option LuaValue)
        → HasDistinctKeys o
        → IsKeyedOnce (pairs (decoded_or_nil o ▸ "intent_ledger"))
    by_decode none k = tt
    by_decode (some v) k = k

module _ (c : Codec) (keyed : (raw : String) → HasDistinctKeys (c.decode raw)) (id : String) where
  stored-IsKeyedOnce : (r : Redis) → IsKeyedOnce (pairs (stored c id r ▸ "intent_ledger"))
  unfolding stored
  stored-IsKeyedOnce r = decoded-IsKeyedOnce c keyed (get r (state id))

  view-eq :
      (r t : Redis)
      → get t (state id) ≡ get r (state id)
      → (i : String) → view c id t i ≡ view c id r i
  unfolding view stored
  view-eq r t e i = ap (λ raw. shown (record_of (decoded c raw) i)) e

  accepted-Move :
      (a : CasArgs) (r : Redis) → Accepts c id a r → Move (view c id r) (view c id (after c id a r))
  unfolding view
  accepted-Move a r h =
      let (edge, was, is, _, _) = intent_cas_transition c id a r h in
      let then_of = record_of (stored c id (after c id a r)) in
      let old_of = record_of (stored c id r) in
      move a.intent_id a.new_status
        (subst (λ o. Edge o a.new_status)
          (sym (shown-HasStatus (old_of a.intent_id) a.old_status was)) edge)
        (shown-HasStatus (then_of a.intent_id) (some a.new_status) is)
        (λ j other. elim (Bool-cases (is_nil (old_of j))) [
          | inl absent ↦
              shown-HasStatus (then_of j) none
                (intent_cas_adds_no_other c id a r j h (stored-IsKeyedOnce r) other absent)
              ∙ sym (shown-HasStatus (old_of j) none absent)
          | inr there ↦
              shown-SameValue (old_of j) (then_of j)
                (intent_cas_keeps_others c id a r j h other there)
        ])

  -- A state that the ledger does not own shows no intent.
  open_view : (v : LuaValue) (i : String) → is_protected v ≡ false → shown (record_of v i) ≡ none
  open_view v i h = elim (Bool-cases (is_nil (record_of v i))) [
    | inl e ↦ shown-HasStatus (record_of v i) none e
    | inr e ↦ absurd (
        false≢true
          (sym (no_ledger_entries v h) ∙ has_ledger_entries-present (v ▸ "intent_ledger") i e))
  ]

  decoded_view :
      (raw : Option String) (payload i : String)
      → (raw ≡ none) ⊎ (raw ≡ some payload)
      → is_protected (decoded_or_nil (c.decode payload)) ≡ false
      → shown (record_of (decoded c raw) i) ≡ none
  unfolding shown read_status find
  decoded_view raw payload i (inl e) h = rw e refl
  decoded_view raw payload i (inr e) h = rw e (open_view (decoded_or_nil (c.decode payload)) i h)

  get-set-cases :
      (r : Redis) (v : String) (ms : ℕ)
      → (get (set r (state id) v (some ms)) (state id) ≡ none)
        ⊎ (get (set r (state id) v (some ms)) (state id) ≡ some v)
  unfolding get set same_key
  get-set-cases r v ms = elim (Bool-cases (ltb r.clock (r.clock + ms))) [
    | inl e ↦ inr (rw (eq_refl id, e) refl)
    | inr e ↦ inl (rw (eq_refl id, e) refl)
  ]

  saved-Move :
      (a : SaveArgs) (r : Redis)
      → (base_cas c id a r).0 ≡ value 1
      → Move (view c id r) (view c id (base_cas c id a r).1)
  unfolding view stored
  saved-Move a r h =
      let (_, _, _, was, is, _, wrote) = base_cas_unmanaged c id a r h in
      rest λ i.
        ap (λ t. shown (record_of (decoded c (get t (state id))) i)) wrote
        ∙ decoded_view _ a.payload i (get-set-cases r a.payload (a.ttl * 1000)) is
        ∙ sym (open_view (stored c id r) i was)

  -- One operation is one abstract step.
  pub step-Move :
      (op : Op) (r : Redis) → StateLives id op r → Move (view c id r) (view c id (step c id op r))
  unfolding step intent_cas base_cas authorize
  step-Move (cas a) r lives =
      elim (commit-cases id a r (validate c a (get r (state id)) (get r (lock id)))) [
        | inl h ↦ accepted-Move a r h
        | inr e ↦ rest (view-eq r _ (ap (λ t. get t (state id)) e))
      ]
  step-Move (authorization a) r lives =
      rest (
        view-eq r _ (record_authorization-state id a r (may_authorize c id a r (get r (state id)))))
  step-Move (save a) r lives =
      elim (save_outcome-cases id a r (may_save c a (get r (state id)) (get r (lock id)))) [
        | inl h ↦ saved-Move a r h
        | inr e ↦ rest (view-eq r _ (ap (λ t. get t (state id)) e))
      ]
  step-Move (locking op) r lives = rest (view-eq r _ (lock_step-state id op r lives))

-- Any sequence of the scripts that write, of lock operations and of waits in which the state key does
-- not expire is, for one who sees no more than a status for each intent, a sequence of steps each of
-- which moves at most one intent, along an edge of the diagram, and leaves every other as it was.
-- Decoded ledgers have no key twice.
pub run-Moves :
    (c : Codec) (id : String) (ops : List Op) (r : Redis)
    → ((raw : String) → HasDistinctKeys (c.decode raw))
    → Lives c id ops r
    → Moves (view c id r) (view c id (run c id ops r))
unfolding run
run-Moves c id [] r keyed lives = stop
run-Moves c id (op ∷ ops) r keyed lives =
    then_move (step-Move c keyed id op r lives.0)
      (run-Moves c id ops (step c id op r) keyed lives.1)
