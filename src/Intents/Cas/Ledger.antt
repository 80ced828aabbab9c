-- ===== src/Intents/Cas/Ledger.antt =====
-- The last loop of the intent script: the rules that a ledger obeys as a whole.
use research_paper_aep.Base.{
  Bool, List, String, [], false, if◌then◌else◌, leb, nat_eq, not, ℕ, ◌&&◌, ◌==◌, ◌||◌, ◌∷◌,
}
use research_paper_aep.Lua.Value.{
  LuaKey, LuaValue, at, is_num, is_table, is_text, lua_eq, name, num, number_of, pairs, text,
  text_of, ◌▸◌,
}
use research_paper_aep.Lua.Script.{Script, guard, value, ◌>>=◌, ◌>>◌}
use research_paper_aep.Intents.Cas.Args.{CasArgs, ttl_or_zero}

-- record.status is one of two, of three
abbrev pub is_pending : LuaValue → Bool
is_pending r =
    lua_eq (r ▸ "status") (text "ABOUT_TO_FIRE") || lua_eq (r ▸ "status") (text "FIRED_UNCONFIRMED")

abbrev pub is_retained : LuaValue → Bool
is_retained r = is_pending r || lua_eq (r ▸ "status") (text "PERMANENTLY_AMBIGUOUS")

-- The key of attempts_by_step: the step and the number of the attempt, which the script joins by a
-- colon that the number cannot hold.
abbrev pub attempt_of : LuaValue → String × ℕ
attempt_of r = (text_of (r ▸ "step_id"), number_of (r ▸ "attempt"))

unfoldable pub attempt_seen : String × ℕ → List (String × ℕ) → Bool
attempt_seen p [] = false
attempt_seen p (q ∷ qs) = (p.0 == q.0 && nat_eq p.1 q.1) || attempt_seen p qs

unfoldable pub step_seen : String → List String → Bool
step_seen s [] = false
step_seen s (t ∷ ts) = s == t || step_seen s ts

abbrev pub key_is : LuaValue → LuaKey → Bool
key_is v (name s) = lua_eq v (text s)
key_is v (at n) = lua_eq v (num n)

-- The answer is retention_required.
unfoldable pub check_ledger :
    List (LuaKey × LuaValue) → List (String × ℕ) → List String → Bool → Script Bool
unfolding attempt_seen step_seen
check_ledger [] attempts pending required = value required
check_ledger ((key, r) ∷ rest) attempts pending required = do
  guard
      (is_table r
        && (key_is (r ▸ "intent_id") key && (is_text (r ▸ "step_id") && is_num (r ▸ "attempt"))))
      5
  guard (not (attempt_seen (attempt_of r) attempts)) 5
  guard (not (is_pending r && step_seen (text_of (r ▸ "step_id")) pending)) 5
  check_ledger rest (attempt_of r ∷ attempts)
      (if is_pending r then text_of (r ▸ "step_id") ∷ pending else pending)
      (required || is_retained r)

-- The last loop of the script, over the ledger to be written, and the retention floor.
unfoldable pub retention : CasArgs → LuaValue → Script (Unit {0})
unfolding check_ledger
retention a candidate = do
  required ← check_ledger (pairs (candidate ▸ "intent_ledger")) [] [] false
  guard (not required || leb a.minimum_ttl (ttl_or_zero a.ttl)) 5
