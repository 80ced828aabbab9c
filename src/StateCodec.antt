-- ===== src/StateCodec.antt =====
-- The strict check of raw JSON texts that every script of the protocol begins with:
-- LUA_STATE_JSON_VALIDATOR of aep_core/core/state_codec.py. A Lua string is its list of bytes, and
-- the position of a scan is the list of the bytes from it on.
pub mod Utf8
pub mod Token
pub mod Tree
pub mod Check
pub mod Scripts
pub mod Encode
use research_paper_aep.Base.{Bool, List, [], false, leb, nat_eq, true, ℕ, ◌&&◌, ◌∷◌}

abbrev pub Bytes : Type 0
Bytes = List ℕ

abbrev pub within : ℕ → ℕ → ℕ → Bool
within lo hi b = leb lo b && leb b hi

-- Lua compares strings by their bytes.
abbrev pub bytes_eq : Bytes → Bytes → Bool
bytes_eq [] [] = true
bytes_eq (x ∷ xs) (y ∷ ys) = nat_eq x y && bytes_eq xs ys
bytes_eq _ _ = false
