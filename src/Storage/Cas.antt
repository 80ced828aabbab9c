-- ===== src/Storage/Cas.antt =====
-- _CAS_SCRIPT_BODY of aep_core/core/storage.py: the write path of Phase 1, which may neither replace
-- nor create the state of the intent ledger.
pub mod Protected
use research_paper_aep.Base.{
  Bool, Option, String, false, if◌then◌else◌, leb, ltb, nat_eq, none, not, some, true, ℕ, ◌&&◌, ◌*◌,
  ◌||◌,
}
use research_paper_aep.Redis.{Redis, get, lock, set, state}
use research_paper_aep.Lua.Value.{LuaValue, field, is_num, is_table, number_of, table, ◌▸◌}
use research_paper_aep.Lua.Script.{Script, guard, raised, reject, value, ◌>>=◌, ◌>>◌}
use research_paper_aep.Intents.Cas.Args.{
  Codec, decoded_or_nil, has_value, holds_token, is_some_of, plus_one,
}
use research_paper_aep.Intents.Cas.Header.{member_guard}

-- ARGV; the numbers are those that tonumber reads, none where it reads no natural number.
pub record SaveArgs : Type 0 where
  pub payload : String
  pub incoming : Option ℕ
  pub expected : Option ℕ
  pub token : String
  pub ttl : ℕ

-- 2 ^ 53 - 1, up to which Lua compares integers exactly
abbrev pub max_safe_version : ℕ
max_safe_version = 9007199254740991

-- the range test of the two versions
unfoldable pub versions_in_range : Option ℕ → Option ℕ → Bool
versions_in_range none expected = false
versions_in_range (some incoming) none = false
versions_in_range (some incoming) (some expected) =
    leb 1 incoming && (leb incoming max_safe_version && ltb expected max_safe_version)

-- type(value) == "table" and next(value) ~= nil
abbrev pub has_ledger_entries : LuaValue → Bool
has_ledger_entries (table (field k v fs)) = true
has_ledger_entries _ = false

-- the state belongs to the intent ledger
unfoldable pub is_protected : LuaValue → Bool
is_protected v = has_value (v ▸ "phase2_managed") || has_ledger_entries (v ▸ "intent_ledger")

-- the version is a number that Lua holds exactly
abbrev pub has_version : LuaValue → Bool
has_version v =
    is_num (v ▸ "version")
    && (leb 1 (number_of (v ▸ "version")) && leb (number_of (v ▸ "version")) max_safe_version)

abbrev pub is_zero : Option ℕ → Bool
is_zero none = false
is_zero (some n) = nat_eq n 0

abbrev pub same_version : Option ℕ → Option ℕ → Bool
same_version none o = false
same_version (some m) none = false
same_version (some m) (some n) = nat_eq m n

-- if current then ... else ... end
unfoldable pub against_stored : Codec → SaveArgs → Option String → Script (Unit {0})
unfolding is_protected
against_stored c a none =
    guard (is_zero a.expected && same_version a.incoming (plus_one a.expected)) 1
against_stored c a (some raw) = do
  let decoded_state = decoded_or_nil (c.decode raw)
  guard (is_table decoded_state && has_version decoded_state) 2
  guard
      (is_some_of a.expected (decoded_state ▸ "version")
        && same_version a.incoming (plus_one a.expected))
      1
  guard (not (is_protected decoded_state)) 4

unfoldable pub stored_text : Codec → Option String → Script (Unit {0})
stored_text c none = value tt
stored_text c (some raw) = member_guard c raw 11 10

-- The checks between the reads and the write.
unfoldable pub may_save : Codec → SaveArgs → Option String → Option String → Script (Unit {0})
unfolding stored_text versions_in_range
may_save c a stored_raw holder = do
  stored_text c stored_raw
  member_guard c a.payload 13 12
  guard (holds_token holder a.token) 3
  guard (versions_in_range a.incoming a.expected) 1
  let candidate = decoded_or_nil (c.decode a.payload)
  guard (is_table candidate && is_some_of a.incoming (candidate ▸ "version")) 12
  against_stored c a stored_raw
  guard (not (is_protected candidate)) 4

-- SET with EX 0 is an error of Redis, on which the script stops; 0 stands for every time that is not
-- positive.
unfoldable pub save_outcome : String → SaveArgs → Redis → Script (Unit {0}) → Script ℕ × Redis
save_outcome id a r (value _) =
    if nat_eq a.ttl 0
    then (raised, r)
    else (value 1, set r (state id) a.payload (some (a.ttl * 1000)))
save_outcome id a r (reject n) = (reject n, r)
save_outcome id a r raised = (raised, r)

unfoldable pub base_cas : Codec → String → SaveArgs → Redis → Script ℕ × Redis
unfolding save_outcome
base_cas c id a r = save_outcome id a r (may_save c a (get r (state id)) (get r (lock id)))
