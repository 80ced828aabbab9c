-- ===== src/Intents/Cas/Creation.antt =====
-- The intent script where old_status is NONE. aep_core/core/intents.py
use research_paper_aep.Base.{
  Bool, List, Option, [], if◌then◌else◌, leb, length, ltb, nat_eq, none, not, some, true, ℕ, ◌&&◌,
  ◌+◌, ◌||◌, ◌∷◌,
}
use research_paper_aep.Lua.Value.{
  LuaKey, LuaValue, index, is_nil, is_num, is_table, is_text, lua_eq, num, number_of, pairs, size,
  text, text_of, ◌▸◌,
}
use research_paper_aep.Lua.Script.{Script, guard, value, ◌>>=◌, ◌>>◌}
use research_paper_aep.Lua.Equal.{deep_equal}
use research_paper_aep.Intents.Status.{about_to_fire, fired_unconfirmed, permanently_ambiguous}
use research_paper_aep.Intents.Cas.Args.{
  CasArgs, Codec, decoded_or_nil, has_value, history, is_some_of, is_status, lua_successor,
  next_version,
}

-- The three statuses whose outcome may be an effect that no record accounts for.
unfoldable pub is_open : LuaValue → Bool
unfolding is_status
is_open r =
    is_status r about_to_fire
    || (is_status r fired_unconfirmed || is_status r permanently_ambiguous)

-- The binding rules of a creation.
unfoldable pub creation_binding : Codec → CasArgs → LuaValue → LuaValue → Script (Unit {0})
creation_binding c a candidate new = do
  guard
      (is_text (new ▸ "canonical_request_binding")
        && lua_eq (new ▸ "canonical_request_binding") (text a.binding))
      9
  let bound = decoded_or_nil (c.decode (text_of (new ▸ "canonical_request_binding")))
  guard (is_table bound) 9
  guard
      (lua_eq (bound ▸ "execution_id") (candidate ▸ "execution_id")
        && (lua_eq (bound ▸ "step_id") (new ▸ "step_id")
            && (lua_eq (bound ▸ "intent_id") (text a.intent_id)
                && (lua_eq (bound ▸ "correlation_id") (new ▸ "correlation_id")
                    && (lua_eq (bound ▸ "connector_operation") (new ▸ "connector")
                        && lua_eq (bound ▸ "request_fingerprint") (new ▸ "request_fingerprint"))))))
      9
  guard
      (is_num (bound ▸ "retention_not_after_ms")
        && leb a.retention_floor_ms (number_of (bound ▸ "retention_not_after_ms")))
      9

-- max_attempt and latest_status
pub record Latest : Type 0 where
  pub attempt : ℕ
  pub status : Option LuaValue

-- The body of the creation's loop over the stored ledger.
unfoldable pub inspect : LuaValue → LuaKey → LuaValue → Script (Unit {0})
unfolding is_open
inspect ledger key r = do
  guard
      (is_table r
        && (is_text (r ▸ "status") && (is_text (r ▸ "step_id") && is_num (r ▸ "attempt"))))
      5
  guard (not (is_open r)) 7
  guard (not (is_nil (index ledger key)) && deep_equal r (index ledger key)) 5

unfoldable pub later : LuaValue → LuaValue → Latest → Latest
later new r latest =
    if lua_eq (r ▸ "step_id") (new ▸ "step_id") && ltb latest.attempt (number_of (r ▸ "attempt"))
    then record { attempt = number_of (r ▸ "attempt"); status = some (r ▸ "status") }
    else latest

unfoldable pub scan : LuaValue → LuaValue → List (LuaKey × LuaValue) → Latest → Script Latest
unfolding inspect later
scan ledger new [] latest = value latest
scan ledger new ((key, r) ∷ rest) latest =
    inspect ledger key r >> scan ledger new rest (later new r latest)

abbrev pub admits_successor : Option LuaValue → Bool
admits_successor none = true
admits_successor (some v) = lua_eq v (text "FAILED_CONFIRMED")

-- if old_status == 'NONE' then ...
unfoldable pub creation : Codec → CasArgs → LuaValue → LuaValue → Script (Unit {0})
unfolding creation_binding scan
creation c a current candidate = do
  let old_ledger = current ▸ "intent_ledger"
  let ledger = candidate ▸ "intent_ledger"
  let new = ledger ▸ a.intent_id
  guard (is_nil (old_ledger ▸ a.intent_id)) 5
  creation_binding c a candidate new
  guard (not (lua_eq (current ▸ "status") (text "PAUSED"))) 7
  guard (lua_eq (candidate ▸ "status") (text "PROCESSING")) 5
  guard (nat_eq (length (pairs ledger)) (length (pairs old_ledger) + 1)) 5
  latest ← scan ledger new (pairs old_ledger) (record { attempt = 0; status = none })
  guard (not (has_value (new ▸ "risk_acceptance_id"))) 6
  guard (admits_successor latest.status) 6
  guard
      (lua_eq (new ▸ "attempt") (num (lua_successor latest.attempt))
        && is_some_of (next_version a.expected) (new ▸ "prepared_state_version"))
      5
  guard (is_table (history new) && nat_eq (size (history new)) 1) 5
