-- ===== src/Intents/Cas/Created.antt =====
use research_paper_aep.Base.{
  All, List, [], and-true, false, length, nat_eq→eq, none, not-true, true, ◌+◌, ◌∷◌, ◌≡◌,
}
use research_paper_aep.Lua.Value.{
  LuaKey, LuaValue, is_nil, lua_eq, lua_eq-num, lua_eq-text, num, pairs, size, text, ◌▸◌,
}
use research_paper_aep.Lua.Script.{
  >>-eq-value, >>=-eq-value, guard-eq-value, guard-eq-value_rest, value,
}
use research_paper_aep.Intents.Cas.Args.{
  CasArgs, Codec, history, is_some_of, lua_successor, next_version,
}
use research_paper_aep.Intents.Cas.Creation.{
  Latest, admits_successor, creation, creation_binding, inspect, later, scan,
}
use research_paper_aep.Intents.Cas.History.{record_of}

-- What a creation that the intent script lets through has passed.

abbrev pub no_latest : Latest
no_latest = record { attempt = 0; status = none }

pub record Created (c : Codec) (a : CasArgs) (before new : LuaValue) : Type 0 where
  pub absent : is_nil (record_of before a.intent_id) ≡ true
  pub bound : creation_binding c a new (record_of new a.intent_id) ≡ value tt
  pub not_paused : lua_eq (before ▸ "status") (text "PAUSED") ≡ false
  pub processing : new ▸ "status" ≡ text "PROCESSING"
  pub counted :
      length (pairs (new ▸ "intent_ledger")) ≡ length (pairs (before ▸ "intent_ledger")) + 1
  pub latest : Latest
  pub scanned :
      scan
        (new ▸ "intent_ledger")
        (record_of new a.intent_id)
        (pairs (before ▸ "intent_ledger"))
        no_latest
      ≡ value latest
  pub admitted : admits_successor latest.status ≡ true
  pub numbered : record_of new a.intent_id ▸ "attempt" ≡ num (lua_successor latest.attempt)
  pub prepared :
      is_some_of (next_version a.expected) (record_of new a.intent_id ▸ "prepared_state_version")
      ≡ true
  pub single : size (history (record_of new a.intent_id)) ≡ 1

pub creation-Created :
    (c : Codec) (a : CasArgs) (before new : LuaValue)
    → creation c a before new ≡ value tt
    → Created c a before new
unfolding creation
creation-Created c a before new h =
    let (absent, h1) = guard-eq-value_rest _ 5 _ h in
    let (bound, h2) = >>-eq-value (creation_binding c a new (record_of new a.intent_id)) _ h1 in
    let (not_paused, h3) = guard-eq-value_rest _ 7 _ h2 in
    let (processing, h4) = guard-eq-value_rest _ 5 _ h3 in
    let (counted, h5) = guard-eq-value_rest _ 5 _ h4 in
    let (latest, scanned, h6) =
      >>=-eq-value
        (scan (new ▸ "intent_ledger") (record_of new a.intent_id) (pairs (before ▸ "intent_ledger"))
          no_latest)
        _ h5 in
    let (_, h7) = guard-eq-value_rest _ 6 _ h6 in
    let (admitted, h8) = guard-eq-value_rest _ 6 _ h7 in
    let (numbers, h9) = guard-eq-value_rest _ 5 _ h8 in
    record {
      absent = absent;
      bound = bound;
      not_paused = not-true _ not_paused;
      processing = lua_eq-text _ _ processing;
      counted = nat_eq→eq _ _ counted;
      latest = latest;
      scanned = scanned;
      admitted = admitted;
      numbered = lua_eq-num _ _ (and-true _ _ numbers).0;
      prepared = (and-true _ _ numbers).1;
      single = nat_eq→eq _ _ (and-true _ _ (guard-eq-value _ 5 h9)).1;
    }

pub scan-inspect :
    (ledger new : LuaValue) (xs : List (LuaKey × LuaValue)) (latest : Latest) {l : Latest}
    → scan ledger new xs latest ≡ value l
    → All (λ p. inspect ledger p.0 p.1 ≡ value tt) xs
unfolding scan
scan-inspect ledger new [] latest h = tt
scan-inspect ledger new ((key, r) ∷ rest) latest h =
    let (here, there) = >>-eq-value (inspect ledger key r) _ h in
    (here, scan-inspect ledger new rest (later new r latest) there)
