-- ===== src/StateCodec/Token.antt =====
-- The tokens that aep_json_member_check of aep_core/core/state_codec.py reads: white space, strings
-- and numbers. A reader takes the bytes from the position on and answers those after the token.
pub mod Strings
pub mod Numbers
use research_paper_aep.Base.{
  Bool, Option, [], false, if◌then◌else◌, length, ltb, nat_eq, none, some, suc, true, zero, ℕ, ◌&&◌,
  ◌+◌, ◌-◌, ◌||◌, ◌∷◌,
}
use research_paper_aep.StateCodec.{Bytes, within}

abbrev pub is_space : ℕ → Bool
is_space b = (nat_eq b 32 || nat_eq b 9) || (nat_eq b 10 || nat_eq b 13)

unfoldable pub skip_whitespace : Bytes → Bytes
skip_whitespace [] = []
skip_whitespace (b ∷ rest) = if is_space b then skip_whitespace rest else b ∷ rest

-- string.sub(raw, start_position, position - 1): what stands before the rest.
unfoldable pub take : ℕ → Bytes → Bytes
take zero ts = []
take (suc n) [] = []
take (suc n) (b ∷ ts) = b ∷ take n ts

unfoldable pub token : Bytes → Bytes → Bytes
unfolding take
token start rest = take (length start - length rest) start

abbrev pub is_hex : ℕ → Bool
is_hex b = within 48 57 b || (within 65 70 b || within 97 102 b)

abbrev pub is_digit : ℕ → Bool
is_digit b = within 48 57 b

-- The characters that may follow a backslash, but u.
abbrev pub is_escape : ℕ → Bool
is_escape b =
    (nat_eq b 34 || (nat_eq b 92 || (nat_eq b 47 || nat_eq b 98)))
    || (nat_eq b 102 || (nat_eq b 110 || (nat_eq b 114 || nat_eq b 116)))

unfoldable pub unicode_escape : Bytes → Option Bytes
unicode_escape (a ∷ b ∷ c ∷ d ∷ rest) =
    if is_hex a && (is_hex b && (is_hex c && is_hex d)) then some rest else none
unicode_escape _ = none

unfoldable pub escape : Bytes → Option Bytes
unfolding unicode_escape
escape [] = none
escape (b ∷ rest) =
    if nat_eq b 117 then unicode_escape rest else if is_escape b then some rest else none

-- One round of the loop of parse_string at a byte that is no quote.
unfoldable pub string_round : ℕ → Bytes → Option Bytes
unfolding escape
string_round b rest = if nat_eq b 92 then escape rest else if ltb b 32 then none else some rest

unfoldable pub string_loop : ℕ → Bytes → Option Bytes
unfolding string_round
string_loop zero ts = none
string_loop (suc rounds) [] = none
string_loop (suc rounds) (b ∷ rest) = elim (nat_eq b 34) [
  | true ↦ some rest
  | false ↦ elim (string_round b rest) [ none ↦ none | some left ↦ string_loop rounds left ]
]

-- parse_string without the name: each round takes a byte at least.
unfoldable pub parse_string : Bytes → Option Bytes
unfolding string_loop
parse_string [] = none
parse_string (b ∷ rest) = if nat_eq b 34 then string_loop (length rest + 1) rest else none

-- parse_string with the name. cjson.decode of a string token is an argument; it may fail.
unfoldable pub parse_name : (Bytes → Option Bytes) → Bytes → Option (Bytes × Bytes)
unfolding parse_string token
parse_name decode_name ts = elim (parse_string ts) [
  | none ↦ none
  | some rest ↦ elim (decode_name (token ts rest)) [ none ↦ none | some s ↦ some (s, rest) ]
]

-- repeat position = position + 1 until not is_digit(byte_at(position)), at a digit.
unfoldable pub skip_digits : Bytes → Bytes
skip_digits [] = []
skip_digits (b ∷ rest) = if is_digit b then skip_digits rest else b ∷ rest

abbrev pub starts_digit : Bytes → Bool
starts_digit [] = false
starts_digit (b ∷ rest) = is_digit b

unfoldable pub some_digits : Bytes → Option Bytes
unfolding skip_digits
some_digits [] = none
some_digits (b ∷ rest) = if is_digit b then some (skip_digits rest) else none

unfoldable pub minus : Bytes → Bytes
minus [] = []
minus (b ∷ rest) = if nat_eq b 45 then rest else b ∷ rest

unfoldable pub integer : Bytes → Option Bytes
unfolding skip_digits
integer [] = none
integer (b ∷ rest) =
    if nat_eq b 48
    then (if starts_digit rest then none else some rest)
    else if within 49 57 b
    then some (skip_digits rest)
    else none

unfoldable pub fraction : Bytes → Option Bytes
unfolding some_digits
fraction [] = some []
fraction (b ∷ rest) = if nat_eq b 46 then some_digits rest else some (b ∷ rest)

unfoldable pub exponent_sign : Bytes → Bytes
exponent_sign [] = []
exponent_sign (b ∷ rest) = if nat_eq b 43 || nat_eq b 45 then rest else b ∷ rest

unfoldable pub exponent : Bytes → Option Bytes
unfolding some_digits exponent_sign
exponent [] = some []
exponent (b ∷ rest) =
    if nat_eq b 69 || nat_eq b 101 then some_digits (exponent_sign rest) else some (b ∷ rest)

abbrev pub and_then : {A B : Type 0} → Option A → (A → Option B) → Option B
and_then none f = none
and_then (some a) f = f a

-- parse_number. The last test, that tonumber reads a finite number, is an argument.
unfoldable pub parse_number : (Bytes → Bool) → Bytes → Option Bytes
unfolding minus integer fraction exponent token
parse_number finite ts = and_then (integer (minus ts)) λ whole.
    and_then (fraction whole)
      λ part. and_then (exponent part) λ rest. if finite (token ts rest) then some rest else none
