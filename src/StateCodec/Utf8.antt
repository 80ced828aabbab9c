-- ===== src/StateCodec/Utf8.antt =====
-- aep_utf8_check of aep_core/core/state_codec.py: the scan that accepts only UTF-8 bytes.
pub mod Exact
use research_paper_aep.Base.{
  Bool, Option, [], false, if◌then◌else◌, leb, length, nat_eq, none, some, suc, true, zero, ℕ, ◌+◌,
  ◌∷◌,
}
use research_paper_aep.StateCodec.{Bytes, within}

-- continuation, and the tests of the bytes after the first: absent bytes fail.
abbrev pub continuation : ℕ → Bool
continuation b = within 128 191 b

-- One round of the loop: the bytes after the sequence that stands first, or none for return false.
abbrev pub one_more : Bool → Bytes → Option Bytes
one_more ok rest = if ok then some rest else none

abbrev pub two : (ℕ → Bool) → Bytes → Option Bytes
two ok [] = none
two ok (b ∷ rest) = one_more (ok b) rest

abbrev pub three : (ℕ → Bool) → Bytes → Option Bytes
three ok [] = none
three ok (b ∷ rest) = if ok b then two continuation rest else none

abbrev pub four : (ℕ → Bool) → Bytes → Option Bytes
four ok [] = none
four ok (b ∷ rest) = if ok b then three continuation rest else none

unfoldable pub sequence : ℕ → Bytes → Option Bytes
sequence lead rest =
    if leb lead 127
    then some rest
    else if within 194 223 lead
    then two continuation rest
    else if nat_eq lead 224
    then three (within 160 191) rest
    else if within 225 236 lead
    then three continuation rest
    else if nat_eq lead 237
    then three (within 128 159) rest
    else if within 238 239 lead
    then three continuation rest
    else if nat_eq lead 240
    then four (within 144 191) rest
    else if within 241 243 lead
    then four continuation rest
    else if nat_eq lead 244
    then four (within 128 143) rest
    else none

-- The loop, on a bound for its rounds.
unfoldable pub utf8_loop : ℕ → Bytes → Bool
unfolding sequence
utf8_loop zero raw = false
utf8_loop (suc rounds) [] = true
utf8_loop (suc rounds) (lead ∷ rest) = elim (sequence lead rest) [
  | none ↦ false
  | some left ↦ utf8_loop rounds left
]

-- Each round takes a byte at least.
unfoldable pub aep_utf8_check : Bytes → Bool
unfolding utf8_loop
aep_utf8_check raw = utf8_loop (length raw + 1) raw
