-- ===== src/Lua/Value.antt =====
-- Lua values as cjson.decode makes them. A table is the list of its entries, in the order in which
-- pairs visits them; a JSON array is a table whose keys are 1, 2, and so on.
-- Numbers are the natural ones: versions and attempts are integers, and the times of the records,
-- seconds with six decimals in the source, count microseconds.
use research_paper_aep.Base.{
  Bool, List, String, [], ap, arith, false, if◌then◌else◌, length, nat_eq, not, str_eq→eq, suc, sym,
  true, zero, ℕ, ◌+◌, ◌==◌, ◌∷◌, ◌≡◌,
}

pub data LuaKey : Type 0 where
  name : String → LuaKey
  at : ℕ → LuaKey

mutual
  pub data LuaValue : Type 0 where
    nil null : LuaValue
    bool : Bool → LuaValue
    num : ℕ → LuaValue
    text : String → LuaValue
    table : Fields → LuaValue

  pub data Fields : Type 0 where
    done : Fields
    field : LuaKey → LuaValue → Fields → Fields

abbrev pub key_eq : LuaKey → LuaKey → Bool
key_eq (name a) (name b) = a == b
key_eq (at m) (at n) = nat_eq m n
key_eq _ _ = false

unfoldable pub find : LuaKey → Fields → LuaValue
find k done = nil
find k (field j v fs) = if key_eq j k then v else find k fs

abbrev pub fields : LuaValue → Fields
fields (table fs) = fs
fields _ = done

-- t[k]; the scripts read a field only of what they have found to be a table.
abbrev pub index : LuaValue → LuaKey → LuaValue
index v k = find k (fields v)

infixl 80 ◌▸◌
abbrev pub ◌▸◌ : LuaValue → String → LuaValue
v ▸ s = find (name s) (fields v)

-- The entries that pairs visits.
unfoldable pub entries : Fields → List (LuaKey × LuaValue)
entries done = []
entries (field k v fs) = (k, v) ∷ entries fs

abbrev pub pairs : LuaValue → List (LuaKey × LuaValue)
pairs v = entries (fields v)

abbrev pub is_table : LuaValue → Bool
is_table (table _) = true
is_table _ = false

abbrev pub is_num : LuaValue → Bool
is_num (num _) = true
is_num _ = false

abbrev pub is_text : LuaValue → Bool
is_text (text _) = true
is_text _ = false

abbrev pub is_nil : LuaValue → Bool
is_nil nil = true
is_nil _ = false

abbrev pub number_of : LuaValue → ℕ
number_of (num n) = n
number_of _ = 0

abbrev pub text_of : LuaValue → String
text_of (text s) = s
text_of _ = ""

-- a == b. Two tables made by two calls of cjson.decode are never the same object.
abbrev pub lua_eq : LuaValue → LuaValue → Bool
lua_eq nil nil = true
lua_eq null null = true
lua_eq (bool true) (bool b) = b
lua_eq (bool false) (bool b) = not b
lua_eq (num m) (num n) = nat_eq m n
lua_eq (text s) (text t) = s == t
lua_eq _ _ = false

pub lua_eq-text : (v : LuaValue) (s : String) → lua_eq v (text s) ≡ true → v ≡ text s
lua_eq-text nil s h = ground arith
lua_eq-text null s h = ground arith
lua_eq-text (bool true) s h = ground arith
lua_eq-text (bool false) s h = ground arith
lua_eq-text (num n) s h = ground arith
lua_eq-text (table fs) s h = ground arith
lua_eq-text (text t) s h = ground (arith, str_eq→eq t s h)

pub lua_eq-num : (v : LuaValue) (n : ℕ) → lua_eq v (num n) ≡ true → v ≡ num n
lua_eq-num nil n h = ground arith
lua_eq-num null n h = ground arith
lua_eq-num (bool true) n h = ground arith
lua_eq-num (bool false) n h = ground arith
lua_eq-num (num m) n h = ground arith
lua_eq-num (table fs) n h = ground arith
lua_eq-num (text t) n h = ground arith

-- #t: the border that counting from 1 finds. A table of n entries has at most n keys to count.
unfoldable pub border : ℕ → ℕ → Fields → ℕ
border zero n fs = n
border (suc k) n fs =
    let rest = border k (n + 1) fs in if is_nil (find (at (n + 1)) fs) then n else rest

abbrev pub size : LuaValue → ℕ
size v = border (length (pairs v)) 0 (fields v)

pub lua_eq-from_text : (s : String) (v : LuaValue) → lua_eq (text s) v ≡ true → v ≡ text s
lua_eq-from_text s nil h = cc
lua_eq-from_text s null h = cc
lua_eq-from_text s (bool b) h = cc
lua_eq-from_text s (num n) h = cc
lua_eq-from_text s (table fs) h = cc
lua_eq-from_text s (text t) h = sym (ap text (str_eq→eq s t h))
