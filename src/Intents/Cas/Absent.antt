-- ===== src/Intents/Cas/Absent.antt =====
use research_paper_aep.Base.{
  All-map, Bool, Bool-cases, List, Option, String, [], and-true, arith, false, false≢true, inl, inr,
  length, nat_eq→eq, none, not, not-true, refl, some, subst, sym, true, ◌++◌, ◌||◌, ◌∙◌, ◌∷◌, ◌≡◌,
  ◌≢◌, ◌≤◌,
}
use research_paper_aep.Lua.Value.{
  LuaKey, LuaValue, bool, fields, index, is_nil, is_table, key_eq, name, nil, null, num, pairs,
  table, text, ◌▸◌,
}
use research_paper_aep.Lua.Equal.{deep_equal, deep_equal-shape, key_eq_ne, key_eq→eq, shape}
use research_paper_aep.Lua.Keys.{
  All-has_key, IsKeyedOnce, find-has_key, has_key, has_key-find, no_other_key,
}
use research_paper_aep.Lua.Script.{
  >>-eq-value, Script, each, each-eq-value, guard, guard-eq-value, guard-eq-value_rest, value, ◌>>◌,
}
use research_paper_aep.Intents.Cas.Args.{CasArgs, Codec}
use research_paper_aep.Intents.Cas.Creation.{creation, inspect}
use research_paper_aep.Intents.Cas.Created.{creation-Created, no_latest, scan-inspect}
use research_paper_aep.Intents.Cas.History.{
  HasStatus-present, branch-parts, is_status-eq, record_of,
}
use research_paper_aep.Intents.Cas.Update.{update}
use research_paper_aep.Intents.Cas.Accepted.{Accepts, Accepts-Accepted, after, stored}
use research_paper_aep.Intents.Cas.{by_old_status}
use research_paper_aep.Redis.{Redis}
use research_paper_aep.Intents.Status.{IntentStatus}
use research_paper_aep.Intents.Cas.Fence.{stored-after}

-- The intent script brings no record into the ledger but the one that it names. It counts the entries
-- of the two ledgers, and keeps every key of the stored one. aep_core/core/intents.py

abbrev Entries : Type 0
Entries = List (LuaKey × LuaValue)

-- A ledger that keeps the keys of another, and has as many entries as that and the record under i.
absent_kept :
    (old new : LuaValue) (i j : String) (extra : Entries)
    → IsKeyedOnce (extra ++ pairs old)
    → ((k : LuaKey) → has_key k (extra ++ pairs old) ≡ true → is_nil (index new k) ≡ false)
    → length (pairs new) ≤ length (extra ++ pairs old)
    → (has_key (name j) (extra ++ pairs old) ≡ true → is_nil (old ▸ j) ≡ false)
    → is_nil (old ▸ j) ≡ true
    → is_nil (new ▸ j) ≡ true
absent_kept old new i j extra once sub le back h = elim (Bool-cases (is_nil (new ▸ j))) [
  | inl e ↦ e
  | inr e ↦
      let there =
        no_other_key (extra ++ pairs old) (pairs new) once
          (λ k p. find-has_key k (fields new) (sub k p)) le (name j)
          (find-has_key (name j) (fields new) e) in
      absurd (false≢true (sym (back there) ∙ h))
]

inspect_parts :
    (ledger : LuaValue) (p : LuaKey × LuaValue)
    → inspect ledger p.0 p.1 ≡ value tt
    → (is_table p.1 ≡ true) × (is_nil (index ledger p.0) ≡ false)
unfolding inspect
inspect_parts ledger p h =
    let (shape, rest) = guard-eq-value_rest _ 5 _ h in
    let (_, kept) = guard-eq-value_rest _ 7 _ rest in
    ((and-true _ _ shape).0, not-true _ (and-true _ _ (guard-eq-value _ 5 kept)).0)

table_is : (v : LuaValue) → is_table v ≡ true → is_nil v ≡ false
table_is (table fs) h = refl
table_is nil h = cc
table_is null h = cc
table_is (bool b) h = cc
table_is (num n) h = cc
table_is (text t) h = cc

later_key : (a b : Bool) → (a || b) ≡ true → a ≡ false → b ≡ true
later_key a b h e = ground arith

creation_absent :
    (c : Codec) (a : CasArgs) (before new : LuaValue) (j : String)
    → creation c a before new ≡ value tt
    → is_nil (record_of new a.intent_id) ≡ false
    → IsKeyedOnce (pairs (before ▸ "intent_ledger"))
    → j ≢ a.intent_id
    → is_nil (record_of before j) ≡ true
    → is_nil (record_of new j) ≡ true
creation_absent c a before new j h there once other absent =
    let made = creation-Created c a before new h in
    let old = before ▸ "intent_ledger" in
    let inspected = All-map _ _ (inspect_parts (new ▸ "intent_ledger")) (pairs old) (
      scan-inspect (new ▸ "intent_ledger") (record_of new a.intent_id) (pairs old) no_latest
        made.scanned) in
    let back : (i : String) → has_key (name i) (pairs old) ≡ true → is_nil (old ▸ i) ≡ false = λ i.
      has_key-find (name i) (fields old)
        (All-map _ _ (λ p q e. table_is p.1 q.0) (pairs old) inspected) in
    let fresh : has_key (name a.intent_id) (pairs old) ≡ false =
      no_key (has_key (name a.intent_id) (pairs old)) (is_nil (old ▸ a.intent_id))
        (back a.intent_id) made.absent in
    absent_kept old (new ▸ "intent_ledger") a.intent_id j ((name a.intent_id, nil) ∷ [])
      (fresh, once)
      (λ k p. elim (Bool-cases (key_eq (name a.intent_id) k)) [
        | inl e ↦
            subst (λ l. is_nil (index (new ▸ "intent_ledger") l) ≡ false)
              (key_eq→eq (name a.intent_id) k e) there
        | inr e ↦
            All-has_key (λ l. is_nil (index (new ▸ "intent_ledger") l) ≡ false) k (pairs old)
              (All-map _ _ (λ q r. r.1) (pairs old) inspected) (later_key _ _ p e)
      ])
      (omega (arith, made.counted))
      (λ p. back j (later_key _ _ p (key_eq_ne a.intent_id j (λ e. other (sym e))))) absent
  where
    no_key : (b n : Bool) → (b ≡ true → n ≡ false) → n ≡ true → b ≡ false
    no_key true n f h = cc (f refl)
    no_key false n f h = refl

equal_present : (v w : LuaValue) → deep_equal v w ≡ true → is_nil w ≡ false → is_nil v ≡ false
equal_present nil w h p = absurd (nil_shape w (deep_equal-shape nil w h) p)
  where
    nil_shape : (u : LuaValue) → shape nil ≡ shape u → is_nil u ≡ false → ⊥
    nil_shape nil e q = cc
    nil_shape null e q = cc
    nil_shape (bool b) e q = cc
    nil_shape (num n) e q = cc
    nil_shape (text t) e q = cc
    nil_shape (table fs) e q = cc
equal_present null w h p = refl
equal_present (bool b) w h p = refl
equal_present (num n) w h p = refl
equal_present (text t) w h p = refl
equal_present (table fs) w h p = refl

entry_parts :
    (ledger : LuaValue) (i : String) (p : LuaKey × LuaValue)
    → (guard (not (is_nil (index ledger p.0))) 5
        >> guard (key_eq p.0 (name i) || deep_equal p.1 (index ledger p.0)) 5)
      ≡ value tt
    → (is_nil (index ledger p.0) ≡ false) × (key_eq p.0 (name i) ≡ false → is_nil p.1 ≡ false)
entry_parts ledger i p h =
    let (there, rest) = guard-eq-value_rest _ 5 _ h in
    let kept = guard-eq-value _ 5 rest in
    (not-true _ there, λ other. equal_present p.1 _ (later_key _ _ kept other) (not-true _ there))

abbrev walk : LuaValue → String → LuaKey × LuaValue → Script (Unit {0})
walk ledger i p =
    guard (not (is_nil (index ledger p.0))) 5
    >> guard (key_eq p.0 (name i) || deep_equal p.1 (index ledger p.0)) 5

update_absent :
    (a : CasArgs) (before new : LuaValue) (s : IntentStatus) (j : String)
    → update a before new s ≡ value tt
    → IsKeyedOnce (pairs (before ▸ "intent_ledger"))
    → j ≢ a.intent_id
    → is_nil (record_of before j) ≡ true
    → is_nil (record_of new j) ≡ true
unfolding update
update_absent a before new s j h once other absent =
    let old = before ▸ "intent_ledger" in
    let (_, h1) = guard-eq-value_rest _ 4 _ h in
    let (counted, h2) = guard-eq-value_rest _ 5 _ h1 in
    let same : length (pairs (new ▸ "intent_ledger")) ≡ length (pairs old) =
      nat_eq→eq _ _ counted in
    let (walked, _) =
      >>-eq-value (each (pairs old) (walk (new ▸ "intent_ledger") a.intent_id)) _ h2 in
    let entries_kept =
      All-map _ _ (entry_parts (new ▸ "intent_ledger") a.intent_id) (pairs old)
        (each-eq-value (pairs old) (walk (new ▸ "intent_ledger") a.intent_id) walked) in
    absent_kept old (new ▸ "intent_ledger") a.intent_id j [] once
      (λ k.
        All-has_key (λ l. is_nil (index (new ▸ "intent_ledger") l) ≡ false) k (pairs old)
          (All-map _ _ (λ q r. r.0) (pairs old) entries_kept))
      (omega (arith, same))
      (has_key-find (name j) (fields old) (
        All-map _ _
          (λ p q e. q.1 (
            subst (λ l. key_eq l (name a.intent_id) ≡ false) (sym (key_eq→eq p.0 (name j) e))
              (key_eq_ne j a.intent_id other)))
          (pairs old) entries_kept))
      absent

by_old_status_absent :
    (c : Codec) (a : CasArgs) (before new : LuaValue) (o : Option IntentStatus) (j : String)
    → by_old_status c a before new o ≡ value tt
    → is_nil (record_of new a.intent_id) ≡ false
    → IsKeyedOnce (pairs (before ▸ "intent_ledger"))
    → j ≢ a.intent_id
    → is_nil (record_of before j) ≡ true
    → is_nil (record_of new j) ≡ true
by_old_status_absent c a before new none j h there once =
    creation_absent c a before new j h there once
by_old_status_absent c a before new (some s) j h there once = update_absent a before new s j h once

-- An accepted script, on a ledger whose keys are distinct, brings in no record but the one it names.
pub intent_cas_adds_no_other :
    (c : Codec) (id : String) (a : CasArgs) (r : Redis) (j : String)
    → Accepts c id a r
    → IsKeyedOnce (pairs (stored c id r ▸ "intent_ledger"))
    → j ≢ a.intent_id
    → is_nil (record_of (stored c id r) j) ≡ true
    → is_nil (record_of (stored c id (after c id a r)) j) ≡ true
intent_cas_adds_no_other c id a r j h once other absent =
    let (ok, _) = Accepts-Accepted c id a r h in
    let (is, _, by_status) = branch-parts c a _ _ ok.branched in
    rw (stored-after c id a r h) (
      by_old_status_absent c a _ _ a.old_status j by_status
        (HasStatus-present _ a.new_status (is_status-eq _ a.new_status is)) once other absent)
