-- ===== src/StateCodec/Encode.antt =====
-- encode_state of aep_core/core/state_codec.py: json.dumps with sort_keys, compact separators and
-- ensure_ascii=False, then the test that the text has a UTF-8 encoding. A Python text is the list of
-- its code points.
pub mod Emits
pub mod Strings
pub mod Tree
pub mod Names
pub mod Legal
pub mod Accepted
use research_paper_aep.Base.{
  Bool, List, Option, [], false, if◌then◌else◌, leb, ltb, nat_eq, none, some, suc, true, zero, ℕ,
  ◌%◌, ◌&&◌, ◌+◌, ◌/◌, ◌||◌, ◌∷◌,
}
use research_paper_aep.StateCodec.Token.Numbers.{Number, print_number}

abbrev pub Text : Type 0
Text = List ℕ

-- What is given to json.dumps. negative_int n is -(n + 1). A finite float is given by the number that
-- its repr writes; nonfinite is a float that is not finite, and unsupported a value of a type that
-- json.dumps does not know.
mutual
  pub data PyValue : Type 0 where
    none_value nonfinite unsupported : PyValue
    bool_value : Bool → PyValue
    int_value negative_int : ℕ → PyValue
    float_value : Number → PyValue
    str_value : Text → PyValue
    list_value : PyList → PyValue
    dict_value : PyDict → PyValue

  pub data PyList : Type 0 where
    no_items : PyList
    item : PyValue → PyList → PyList

  pub data PyDict : Type 0 where
    no_entries : PyDict
    entry : Text → PyValue → PyDict → PyDict

-- The decimal digits of n before further ones; the fuel counts the divisions by ten.
unfoldable pub decimal_onto : ℕ → ℕ → Text → Text
decimal_onto zero n k = k
decimal_onto (suc fuel) n k =
    let front = decimal_onto fuel (n / 10) ((48 + n % 10) ∷ k) in
    if ltb n 10 then (48 + n) ∷ k else front

unfoldable pub write_int : ℕ → Text → Text
unfolding decimal_onto
write_int n k = decimal_onto (suc n) n k

-- The short escapes of json.dumps, by the character after the backslash.
unfoldable pub short_escape : ℕ → Option ℕ
short_escape c =
    if nat_eq c 34 || nat_eq c 92
    then some c
    else if nat_eq c 10
    then some 110
    else if nat_eq c 13
    then some 114
    else if nat_eq c 9
    then some 116
    else if nat_eq c 12
    then some 102
    else if nat_eq c 8
    then some 98
    else none

unfoldable pub hex_digit : ℕ → ℕ
hex_digit d = if ltb d 10 then 48 + d else 87 + d

unfoldable pub write_char : ℕ → Text → Text
unfolding short_escape hex_digit
write_char c k = elim (short_escape c) [
  | some e ↦ 92 ∷ e ∷ k
  | none ↦
      if ltb c 32 then 92 ∷ 117 ∷ 48 ∷ 48 ∷ hex_digit (c / 16) ∷ hex_digit (c % 16) ∷ k else c ∷ k
]

unfoldable pub write_chars : Text → Text → Text
unfolding write_char
write_chars [] k = 34 ∷ k
write_chars (c ∷ t) k = write_char c (write_chars t k)

unfoldable pub write_string : Text → Text → Text
unfolding write_chars
write_string t k = 34 ∷ write_chars t k

-- The order of Python on texts.
unfoldable pub text_lt : Text → Text → Bool
text_lt [] [] = false
text_lt [] (y ∷ ys) = true
text_lt (x ∷ xs) [] = false
text_lt (x ∷ xs) (y ∷ ys) = ltb x y || (nat_eq x y && text_lt xs ys)

unfoldable pub insert_entry : Text → PyValue → PyDict → PyDict
unfolding text_lt
insert_entry s v no_entries = entry s v no_entries
insert_entry s v (entry t w d) =
    if text_lt s t then entry s v (entry t w d) else entry t w (insert_entry s v d)

-- sort_keys: the entries of every mapping in the order of their keys.
unfoldable mutual
  unfolding insert_entry

  pub sorted_value : PyValue → PyValue
  sorted_value (list_value xs) = list_value (sorted_list xs)
  sorted_value (dict_value d) = dict_value (sorted_dict d)
  sorted_value v = v

  pub sorted_list : PyList → PyList
  sorted_list no_items = no_items
  sorted_list (item v xs) = item (sorted_value v) (sorted_list xs)

  pub sorted_dict : PyDict → PyDict
  sorted_dict no_entries = no_entries
  sorted_dict (entry s v d) = insert_entry s (sorted_value v) (sorted_dict d)

-- The messages of the two StateSerializationErrors.
pub data Refusal : Type 0 where
  not_finite_or_unicode not_serializable : Refusal

abbrev pub either : Option Refusal → Option Refusal → Option Refusal
either (some e) other = some e
either none other = other

-- What json.dumps raises first, if anything.
unfoldable mutual
  pub refusal : PyValue → Option Refusal
  refusal nonfinite = some not_finite_or_unicode
  refusal unsupported = some not_serializable
  refusal (list_value xs) = refusal_list xs
  refusal (dict_value d) = refusal_dict d
  refusal v = none

  pub refusal_list : PyList → Option Refusal
  refusal_list no_items = none
  refusal_list (item v xs) = either (refusal v) (refusal_list xs)

  pub refusal_dict : PyDict → Option Refusal
  refusal_dict no_entries = none
  refusal_dict (entry s v d) = either (refusal v) (refusal_dict d)

abbrev write_bool : Bool → Text → Text
write_bool true k = 116 ∷ 114 ∷ 117 ∷ 101 ∷ k
write_bool false k = 102 ∷ 97 ∷ 108 ∷ 115 ∷ 101 ∷ k

-- The text of a value that raises nothing.
unfoldable mutual
  unfolding write_int write_string

  pub write : PyValue → Text → Text
  write none_value k = 110 ∷ 117 ∷ 108 ∷ 108 ∷ k
  write (bool_value b) k = write_bool b k
  write (int_value n) k = write_int n k
  write (negative_int n) k = 45 ∷ write_int (n + 1) k
  write (float_value n) k = print_number n k
  write (str_value t) k = write_string t k
  write (list_value no_items) k = 91 ∷ 93 ∷ k
  write (list_value (item v xs)) k = 91 ∷ write v (write_items xs k)
  write (dict_value no_entries) k = 123 ∷ 125 ∷ k
  write (dict_value (entry s v d)) k = 123 ∷ write_string s (58 ∷ write v (write_entries d k))
  write nonfinite k = k
  write unsupported k = k

  pub write_items : PyList → Text → Text
  write_items no_items k = 93 ∷ k
  write_items (item v xs) k = 44 ∷ write v (write_items xs k)

  pub write_entries : PyDict → Text → Text
  write_entries no_entries k = 125 ∷ k
  write_entries (entry s v d) k = 44 ∷ write_string s (58 ∷ write v (write_entries d k))

-- encoded.encode("utf-8", errors="strict") fails at a surrogate.
abbrev pub is_scalar : ℕ → Bool
is_scalar c = ltb c 0xD800 || (leb 0xE000 c && ltb c 0x110000)

unfoldable pub all_scalar : Text → Bool
all_scalar [] = true
all_scalar (c ∷ t) = is_scalar c && all_scalar t

pub data Encoded : Type 0 where
  encoded : Text → Encoded
  refused : Refusal → Encoded

unfoldable pub encode_state : PyValue → Encoded
unfolding sorted_value refusal write all_scalar
encode_state v = elim (refusal (sorted_value v)) [
  | some e ↦ refused e
  | none ↦
      if all_scalar (write (sorted_value v) [])
      then encoded (write (sorted_value v) [])
      else refused not_finite_or_unicode
]
