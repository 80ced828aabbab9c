-- ===== src/Storage/Cas/Protected.antt =====
use research_paper_aep.Base.{
  Bool-cases, Option, String, and-true, ap, false, inl, inr, nat_eq, nat_eq→eq, none, not-true,
  refl, some, true, ℕ, ◌*◌, ◌+◌, ◌∙◌, ◌≡◌,
}
use research_paper_aep.Redis.{Redis, get, lock, set, state}
use research_paper_aep.Lua.Value.{LuaValue, find, lua_eq-num, num, ◌▸◌}
use research_paper_aep.Lua.Script.{
  >>-eq-value, Script, guard-eq-value, guard-eq-value_rest, raised, reject, value,
}
use research_paper_aep.Intents.Cas.Args.{Codec, decoded_or_nil, holds_token, is_some_of, plus_one}
use research_paper_aep.Intents.Cas.Header.{member_guard}
use research_paper_aep.Intents.Cas.Accepted.{decoded, stored}
use research_paper_aep.Intents.Cas.Fence.{holds_token-true}
use research_paper_aep.Storage.Cas.{
  SaveArgs, against_stored, base_cas, is_protected, may_save, same_version, save_outcome,
  stored_text, versions_in_range,
}
use research_paper_aep.Lua.Equal.{shape}

-- What the base write path may change.

pub record Saved (c : Codec) (a : SaveArgs) (before holder : Option String) : Type 0 where
  pub held : holder ≡ some a.token
  pub ranged : versions_in_range a.incoming a.expected ≡ true
  pub named : is_some_of a.incoming (decoded_or_nil (c.decode a.payload) ▸ "version") ≡ true
  pub stored_ok : against_stored c a before ≡ value tt
  pub open_new : is_protected (decoded_or_nil (c.decode a.payload)) ≡ false

may_save-Saved :
    (c : Codec) (a : SaveArgs) (before holder : Option String)
    → may_save c a before holder ≡ value tt
    → Saved c a before holder
unfolding may_save
may_save-Saved c a before holder h =
    let (_, h1) = >>-eq-value (stored_text c before) _ h in
    let (_, h2) = >>-eq-value (member_guard c a.payload 13 12) _ h1 in
    let (held, h3) = guard-eq-value_rest (holds_token holder a.token) 3 _ h2 in
    let (ranged, h4) = guard-eq-value_rest _ 1 _ h3 in
    let (shape, h5) = guard-eq-value_rest _ 12 _ h4 in
    let (stored_ok, h6) = >>-eq-value (against_stored c a before) _ h5 in
    record {
      held = holds_token-true holder a.token held;
      ranged = ranged;
      named = (and-true _ _ shape).1;
      stored_ok = stored_ok;
      open_new = not-true _ (guard-eq-value _ 4 h6);
    }

stopped-value : (m : Script ℕ) → m ≡ raised → m ≡ value 1 → ⊥
stopped-value m s e = cc

save_outcome-value :
    (id : String) (a : SaveArgs) (r : Redis) (m : Script (Unit {0}))
    → (save_outcome id a r m).0 ≡ value 1
    → (m ≡ value tt)
      × ((save_outcome id a r m).1 ≡ set r (state id) a.payload (some (a.ttl * 1000)))
unfolding save_outcome
save_outcome-value id a r (value tt) h = elim (Bool-cases (nat_eq a.ttl 0)) [
  | inl e ↦ absurd (stopped-value raised refl (rw e at h))
  | inr e ↦ rw e (refl, refl)
]
save_outcome-value id a r (reject n) h = cc
save_outcome-value id a r raised h = cc

against_stored-open :
    (c : Codec) (a : SaveArgs) (raw : Option String)
    → against_stored c a raw ≡ value tt
    → is_protected (decoded c raw) ≡ false
unfolding against_stored find
against_stored-open c a none h = refl
against_stored-open c a (some raw) h =
    let (_, h1) = guard-eq-value_rest _ 2 _ h in
    let (_, h2) = guard-eq-value_rest _ 1 _ h1 in not-true _ (guard-eq-value _ 4 h2)

same_version-true :
    (o e : Option ℕ) (v : LuaValue)
    → same_version o (plus_one e) ≡ true
    → is_some_of o v ≡ true
    → (n : ℕ) × (e ≡ some n) × (v ≡ num (n + 1))
same_version-true none e v h p = cc
same_version-true (some m) none v h p = cc
same_version-true (some m) (some n) v h p =
    (n, refl, lua_eq-num v m p ∙ ap num (nat_eq→eq m (n + 1) h))

against_stored-next :
    (c : Codec) (a : SaveArgs) (raw : Option String)
    → against_stored c a raw ≡ value tt
    → same_version a.incoming (plus_one a.expected) ≡ true
unfolding against_stored find
against_stored-next c a none h = (and-true _ _ (guard-eq-value _ 1 h)).1
against_stored-next c a (some raw) h =
    let (_, h1) = guard-eq-value_rest _ 2 _ h in
    let (versions, _) = guard-eq-value_rest _ 1 _ h1 in (and-true _ _ versions).1

-- An accepted base write ran under the lease that its caller holds, on an execution that the intent
-- ledger does not own, wrote a state that it does not own either, and gave it the successor of the
-- version that the caller expected.
pub base_cas_unmanaged :
    (c : Codec) (id : String) (a : SaveArgs) (r : Redis)
    → (base_cas c id a r).0 ≡ value 1
    → let new = decoded_or_nil (c.decode a.payload) in
      (n : ℕ) × (a.expected ≡ some n)
      × (get r (lock id) ≡ some a.token)
      × (is_protected (stored c id r) ≡ false)
      × (is_protected new ≡ false)
      × (new ▸ "version" ≡ num (n + 1))
      × ((base_cas c id a r).1 ≡ set r (state id) a.payload (some (a.ttl * 1000)))
unfolding base_cas stored
base_cas_unmanaged c id a r h =
    let (checked, wrote) =
      save_outcome-value id a r (may_save c a (get r (state id)) (get r (lock id))) h in
    let ok = may_save-Saved c a (get r (state id)) (get r (lock id)) checked in
    let (n, e, v) =
      same_version-true a.incoming a.expected _
        (against_stored-next c a (get r (state id)) ok.stored_ok) ok.named in
    (n, e, ok.held, against_stored-open c a (get r (state id)) ok.stored_ok, ok.open_new, v, wrote)
