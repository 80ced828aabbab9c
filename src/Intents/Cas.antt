-- ===== src/Intents/Cas.antt =====
-- _INTENT_CAS_SCRIPT_BODY of aep_core/core/intents.py, the one script that writes the ledger. Its
-- checks stand in the functions below in the order in which the script makes them; the write is the
-- script's last line. A `reject n` is the line that returns -n, and `raised` is a Lua error.
pub mod Args
pub mod Header
pub mod Creation
pub mod Update
pub mod Ledger
pub mod Accepted
pub mod Fence
pub mod History
pub mod Created
pub mod Kept
pub mod Uniqueness
pub mod Eligibility
pub mod Absent
use research_paper_aep.Base.{Option, String, none, some, ℕ, ◌&&◌, ◌*◌}
use research_paper_aep.Lua.Value.{LuaValue, is_table, lua_eq, text, ◌▸◌}
use research_paper_aep.Lua.Script.{Script, guard, raised, reject, value, ◌>>=◌, ◌>>◌}
use research_paper_aep.Intents.Status.{IntentStatus, is_legal}
use research_paper_aep.Intents.Cas.Args.{CasArgs, Codec, is_status, ttl_or_zero}
use research_paper_aep.Redis.{Redis, get, lock, set, state}
use research_paper_aep.Intents.Cas.Header.{fence, frame, read_states}
use research_paper_aep.Intents.Cas.Creation.{creation}
use research_paper_aep.Intents.Cas.Update.{audit, unconfirmed, update}
use research_paper_aep.Intents.Cas.Ledger.{retention}

abbrev pub by_old_status :
    Codec → CasArgs → LuaValue → LuaValue → Option IntentStatus → Script (Unit {0})
by_old_status c a current candidate none = creation c a current candidate
by_old_status c a current candidate (some s) = update a current candidate s

-- The record under the intent's id, the transition table, and the two cases.
unfoldable pub branch : Codec → CasArgs → LuaValue → LuaValue → Script (Unit {0})
unfolding is_status is_legal creation update
branch c a current candidate = do
  let new = (candidate ▸ "intent_ledger") ▸ a.intent_id
  guard
      (is_table new
        && (lua_eq (new ▸ "intent_id") (text a.intent_id) && is_status new a.new_status))
      5
  guard (is_legal a.old_status a.new_status) 4
  by_old_status c a current candidate a.old_status

-- The checks between the two reads and the write.
unfoldable pub validate : Codec → CasArgs → Option String → Option String → Script (Unit {0})
validate c a stored holder = do
  (current, candidate) ← read_states c a stored holder
  fence a current candidate
  frame current candidate
  branch c a current candidate
  unconfirmed a current candidate
  audit a candidate
  retention a candidate

-- The last two lines: SET with EX, and 1; a script that returned before has written nothing.
unfoldable pub commit : String → CasArgs → Redis → Script (Unit {0}) → Script ℕ × Redis
commit id a r (value _) = (value 1, set r (state id) a.payload (some (ttl_or_zero a.ttl * 1000)))
commit id a r (reject n) = (reject n, r)
commit id a r raised = (raised, r)

-- The whole script, on the execution with the given id.
unfoldable pub intent_cas : Codec → String → CasArgs → Redis → Script ℕ × Redis
unfolding commit
intent_cas c id a r = commit id a r (validate c a (get r (state id)) (get r (lock id)))
