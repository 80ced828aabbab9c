-- ===== src/StateCodec/Scripts.antt =====
use research_paper_aep.StateCodec.Check.{
  Check, aep_json_member_check, ambiguous, good, invalid, out_of_fuel,
}
use research_paper_aep.Base.{Option, String, ap, false, refl, some, true, ℕ, ◌∙◌, ◌≡◌}
use research_paper_aep.StateCodec.{Bytes}
use research_paper_aep.StateCodec.Tree.{Json, Reader, distinct}
use research_paper_aep.StateCodec.Check.Complete.{IsTextOf, aep_json_member_check-verdict}
use research_paper_aep.Intents.Cas.Args.{CasArgs, Codec}
use research_paper_aep.Lua.Value.{LuaValue}
use research_paper_aep.Lua.Script.{reject}
use research_paper_aep.StateCodec.Check.Exact.{aep_json_member_check_exact}
use research_paper_aep.Intents.Cas.Accepted.{Accepts, Accepts-checked, intent_cas-ambiguous}
use research_paper_aep.Intents.Cas.{intent_cas}
use research_paper_aep.Redis.{Redis, get, state}

-- The check of aep_core/core/state_codec.py where the scripts of aep_core/core/intents.py call it:
-- build_lua_state_validation_script puts it in front of each of them.

-- The numbers that the scripts compare with, 2 standing for -1.
abbrev pub lua_code : Check (Unit {0}) → ℕ
lua_code (good t) = 0
lua_code ambiguous = 1
lua_code _ = 2

-- The scripts with the check in front. The bytes of a text, and what cjson and tonumber read, are
-- arguments.
unfoldable pub checked_codec : (String → Bytes) → Reader → (String → Option LuaValue) → Codec
checked_codec bytes reader decode = record {
  member_check = λ raw. lua_code (aep_json_member_check reader (bytes raw));
  decode = decode;
}

-- A text that the check accepts.
abbrev pub IsStrict : Reader → Bytes → Type 0
IsStrict reader raw =
    (v : Json) × IsTextOf reader v raw × (distinct v ≡ true) × (reader.decodes raw ≡ true)

lua_code-zero : (m : Check (Unit {0})) → lua_code m ≡ 0 → m ≡ good tt
lua_code-zero (good tt) h = refl
lua_code-zero invalid h = cc
lua_code-zero ambiguous h = cc
lua_code-zero out_of_fuel h = cc

-- The scripts run behind the check. An accepted script of an intent has started from a stored text
-- and has written a payload that are both UTF-8 and JSON with no repeated name in any object.
pub intent_cas-IsStrict :
    (bytes : String → Bytes) (reader : Reader) (decode : String → Option LuaValue) (id : String)
    (a : CasArgs) (r : Redis)
    → Accepts (checked_codec bytes reader decode) id a r
    → (raw : String) × (get r (state id) ≡ some raw)
      × IsStrict reader (bytes raw)
      × IsStrict reader (bytes a.payload)
unfolding checked_codec
intent_cas-IsStrict bytes reader decode id a r accepted =
    let (raw, e, was, is) = Accepts-checked (checked_codec bytes reader decode) id a r accepted in
    (
      raw,
      e,
      (aep_json_member_check_exact reader (bytes raw)).0 (lua_code-zero _ was),
      (aep_json_member_check_exact reader (bytes a.payload)).0 (lua_code-zero _ is),
    )

-- Where some object of the stored text has two members of one name, the script of an intent answers
-- -11 and leaves Redis as it was, whatever its arguments.
pub intent_cas_repeated_name :
    (bytes : String → Bytes) (reader : Reader) (decode : String → Option LuaValue) (id : String)
    (a : CasArgs) (r : Redis) (raw : String) (v : Json)
    → get r (state id) ≡ some raw
    → IsTextOf reader v (bytes raw)
    → distinct v ≡ false
    → intent_cas (checked_codec bytes reader decode) id a r ≡ (reject 11, r)
unfolding checked_codec
intent_cas_repeated_name bytes reader decode id a r raw v e t repeated =
    intent_cas-ambiguous (checked_codec bytes reader decode) id a r raw e
      (ap lua_code (aep_json_member_check-verdict reader v (bytes raw) t) ∙ rw repeated refl)
