-- ===== src/Lifecycle/Records.antt =====
use research_paper_aep.Base.{
  Bool-cases, Option, Option-cases, String, [], ap, eq_refl, false, false≢true, if◌then◌else◌, inl,
  inr, nat_eq, none, or-eq-false, refl, some, str_eq→eq, subst, sym, true, ◌==◌, ◌∙◌, ◌∷◌, ◌≡◌, ◌⊎◌,
}
use research_paper_aep.Redis.{Redis, dispatch_auth, get, lock, same_key, state}
use research_paper_aep.Lua.Value.{
  LuaValue, bool, done, field, find, is_nil, name, nil, null, num, table, text, text_of, ◌▸◌,
}
use research_paper_aep.Lua.Equal.{SameValue, shape}
use research_paper_aep.Intents.Status.{
  IntentStatus, about_to_fire, failed_confirmed, fired_confirmed, fired_unconfirmed,
  permanently_ambiguous, status_text,
}
use research_paper_aep.Intents.Diagram.{Edge}
use research_paper_aep.Intents.Cas.Args.{CasArgs, Codec}
use research_paper_aep.Intents.Cas.Accepted.{Accepts, after, stored}
use research_paper_aep.Intents.Cas.History.{
  HasStatus, HasStatus-present, intent_cas_transition, record_of,
}
use research_paper_aep.Intents.Cas.Kept.{intent_cas_keeps_others}
use research_paper_aep.Storage.Cas.{
  SaveArgs, base_cas, has_ledger_entries, is_protected, may_save, save_outcome,
}
use research_paper_aep.Redis.Laws.{get-del_ne, get-pexpire_ne, get-set_ne}
use research_paper_aep.Locks.{
  LockOp, acquire, acquire_lock, lock_step, owns, release, release_lock, renew, renew_lock, wait,
}
use research_paper_aep.Lua.Script.{Script, raised, reject, value}
use research_paper_aep.Intents.Cas.{commit, intent_cas, validate}
use research_paper_aep.Intents.Dispatch.{
  AuthorizeArgs, authorize, may_authorize, record_authorization,
}
use research_paper_aep.Storage.Cas.Protected.{base_cas_unmanaged}
use research_paper_aep.Lifecycle.{Op, StateLives, authorization, cas, locking, save, step}

-- How one step changes one record of the ledger: not at all, or along an edge of the diagram.

parse_status : String → IntentStatus
parse_status s =
    if s == "ABOUT_TO_FIRE"
    then about_to_fire
    else if s == "FIRED_CONFIRMED"
    then fired_confirmed
    else if s == "FAILED_CONFIRMED"
    then failed_confirmed
    else if s == "FIRED_UNCONFIRMED"
    then fired_unconfirmed
    else permanently_ambiguous

parse_status-text : (s : IntentStatus) → parse_status (status_text s) ≡ s
unfolding parse_status status_text
parse_status-text about_to_fire = refl
parse_status-text fired_confirmed = refl
parse_status-text failed_confirmed = refl
parse_status-text fired_unconfirmed = refl
parse_status-text permanently_ambiguous = refl

pub same_status :
    (v : LuaValue) (s t : IntentStatus) → HasStatus v (some s) → HasStatus v (some t) → s ≡ t
same_status v s t h k =
    sym (parse_status-text s) ∙ ap (λ u. parse_status (text_of u)) (sym h ∙ k) ∙ parse_status-text t

shape-text : (v : LuaValue) (s : String) → shape v ≡ text s → v ≡ text s
shape-text nil s h = h
shape-text null s h = h
shape-text (bool b) s h = h
shape-text (num n) s h = h
shape-text (text t) s h = h
shape-text (table fs) s h = cc

pub SameValue-HasStatus :
    (v w : LuaValue) (s : IntentStatus)
    → SameValue v w
    → HasStatus v (some s)
    → HasStatus w (some s)
SameValue-HasStatus v w s same h =
    shape-text (w ▸ "status") (status_text s) (sym (same (name "status" ∷ [])) ∙ ap shape h)

pub has_ledger_entries-present :
    (v : LuaValue) (i : String) → is_nil (v ▸ i) ≡ false → has_ledger_entries v ≡ true
unfolding find
has_ledger_entries-present nil i h = cc
has_ledger_entries-present null i h = cc
has_ledger_entries-present (bool b) i h = cc
has_ledger_entries-present (num n) i h = cc
has_ledger_entries-present (text t) i h = cc
has_ledger_entries-present (table done) i h = cc
has_ledger_entries-present (table (field k v fs)) i h = refl

-- What a step did to a record that had a status
pub data Change (was is : LuaValue) (s : IntentStatus) : Type 0 where
  kept : SameValue was is → Change was is s
  moved : (t : IntentStatus) → Edge (some s) t → HasStatus is (some t) → Change was is s

unchanged :
    (c : Codec) (id i : String) (r t : Redis) (s : IntentStatus)
    → get t (state id) ≡ get r (state id)
    → Change (record_of (stored c id r) i) (record_of (stored c id t) i) s
unfolding stored
unchanged c id i r t s e = kept (λ path. rw e refl)

pub commit-cases :
    (id : String) (a : CasArgs) (r : Redis) (m : Script (Unit {0}))
    → ((commit id a r m).0 ≡ value 1) ⊎ ((commit id a r m).1 ≡ r)
unfolding commit
commit-cases id a r (value tt) = inl refl
commit-cases id a r (reject n) = inr refl
commit-cases id a r raised = inr refl

pub save_outcome-cases :
    (id : String) (a : SaveArgs) (r : Redis) (m : Script (Unit {0}))
    → ((save_outcome id a r m).0 ≡ value 1) ⊎ ((save_outcome id a r m).1 ≡ r)
unfolding save_outcome
save_outcome-cases id a r (value tt) = elim (Bool-cases (nat_eq a.ttl 0)) [
  | inl e ↦ rw e (inr refl)
  | inr e ↦ rw e (inl refl)
]
save_outcome-cases id a r (reject n) = inr refl
save_outcome-cases id a r raised = inr refl

pub record_authorization-state :
    (id : String) (a : AuthorizeArgs) (r : Redis) (m : Script (Unit {0}))
    → get (record_authorization id a r m).1 (state id) ≡ get r (state id)
unfolding record_authorization same_key
record_authorization-state id a r (value tt) =
    get-set_ne r (dispatch_auth id a.intent_id) (state id) a.authorization _ refl
record_authorization-state id a r (reject n) = refl
record_authorization-state id a r raised = refl

pub no_ledger_entries :
    (v : LuaValue) → is_protected v ≡ false → has_ledger_entries (v ▸ "intent_ledger") ≡ false
unfolding is_protected
no_ledger_entries v h = (or-eq-false _ _ h).1

pub lock_step-state :
    (id : String) (op : LockOp) (r : Redis)
    → StateLives id (locking op) r
    → get (lock_step id op r).1 (state id) ≡ get r (state id)
unfolding lock_step acquire_lock release_lock renew_lock same_key
lock_step-state id (acquire token ttl) r lives = elim (Option-cases (get r (lock id))) [
  | inl e ↦ rw (e, acquire_lock) (get-set_ne r (lock id) (state id) token _ refl)
  | inr (held, e) ↦ rw (e, acquire_lock) refl
]
lock_step-state id (release token) r lives = elim (Bool-cases (owns (get r (lock id)) token)) [
  | inl e ↦ rw e (get-del_ne r (lock id) (state id) refl)
  | inr e ↦ rw e refl
]
lock_step-state id (renew token ms) r lives = elim (Bool-cases (owns (get r (lock id)) token)) [
  | inl e ↦ rw e (get-pexpire_ne r (lock id) (state id) ms refl)
  | inr e ↦ rw e refl
]
lock_step-state id (wait ms) r lives = lives

module _ (c : Codec) (id i : String) (r : Redis) (s : IntentStatus)
    (has : HasStatus (record_of (stored c id r) i) (some s)) where
  moved-from :
      (o : Option IntentStatus) (t : IntentStatus) (after : Redis)
      → Edge o t
      → HasStatus (record_of (stored c id r) i) o
      → HasStatus (record_of (stored c id after) i) (some t)
      → Change (record_of (stored c id r) i) (record_of (stored c id after) i) s
  moved-from none t after e was is =
      absurd (false≢true (sym (HasStatus-present (record_of (stored c id r) i) s has) ∙ was))
  moved-from (some u) t after e was is =
      moved t
        (subst (λ x. Edge (some x) t) (same_status (record_of (stored c id r) i) u s was has) e) is

  accepted-Change :
      (a : CasArgs)
      → Accepts c id a r
      → Change (record_of (stored c id r) i) (record_of (stored c id (after c id a r)) i) s
  accepted-Change a h = elim (Bool-cases (a.intent_id == i)) [
    | inl e ↦
        let here = str_eq→eq a.intent_id i e in
        let (edge, was, is, _, _) = intent_cas_transition c id a r h in
        moved-from a.old_status a.new_status (after c id a r) edge
          (subst (λ j. HasStatus (record_of (stored c id r) j) a.old_status) here was)
          (subst (λ j. HasStatus (record_of (stored c id (after c id a r)) j) (some a.new_status))
            here is)
    | inr e ↦ kept (
        intent_cas_keeps_others c id a r i h
          (λ same. false≢true (sym e ∙ (rw same (eq_refl a.intent_id))))
          (HasStatus-present (record_of (stored c id r) i) s has))
  ]

  saved-never : (a : SaveArgs) → (base_cas c id a r).0 ≡ value 1 → ⊥
  saved-never a h =
      let (n, _, _, unmanaged, _, _, _) = base_cas_unmanaged c id a r h in
      false≢true (
        sym (no_ledger_entries (stored c id r) unmanaged)
        ∙ has_ledger_entries-present (stored c id r ▸ "intent_ledger") i
            (HasStatus-present (record_of (stored c id r) i) s has))

  -- A step keeps a record with a status as it was, or moves it along an edge of the diagram.
  pub step-Change :
      (op : Op)
      → StateLives id op r
      → Change (record_of (stored c id r) i) (record_of (stored c id (step c id op r)) i) s
  unfolding step intent_cas base_cas authorize
  step-Change (cas a) lives =
      elim (commit-cases id a r (validate c a (get r (state id)) (get r (lock id)))) [
        | inl h ↦ accepted-Change a h
        | inr e ↦ unchanged c id i r _ s (rw e refl)
      ]
  step-Change (authorization a) lives =
      unchanged c id i r _ s
        (record_authorization-state id a r (may_authorize c id a r (get r (state id))))
  step-Change (save a) lives =
      elim (save_outcome-cases id a r (may_save c a (get r (state id)) (get r (lock id)))) [
        | inl h ↦ absurd (saved-never a h)
        | inr e ↦ unchanged c id i r _ s (rw e refl)
      ]
  step-Change (locking op) lives = unchanged c id i r _ s (lock_step-state id op r lives)
