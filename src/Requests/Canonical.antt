-- ===== src/Requests/Canonical.antt =====
pub mod Parts
pub mod Accepted
use research_paper_aep.Base.{
  Bool, List, Option, [], false, leb, length, none, not, some, true, ℕ, ◌&&◌, ◌+◌, ◌||◌, ◌∷◌,
}
use research_paper_aep.StateCodec.{Bytes, bytes_eq}
use research_paper_aep.StateCodec.Encode.{
  Encoded, PyDict, PyList, PyValue, Text, all_scalar, bool_value, dict_value, encode_state, encoded,
  entry, float_value, int_value, item, list_value, negative_int, no_entries, no_items, none_value,
  nonfinite, refused, str_value, unsupported,
}
use research_paper_aep.StateCodec.Utf8.Exact.{encode_all}
use research_paper_aep.Requests.Names.{among, validate_safe_field_name}

-- _canonical_value and canonical_json_bytes of aep_core/core/request_binding.py, with _require_nfc.
-- The NFC normalization of unicodedata is an argument. none stands for the CanonicalizationError, and
-- for the UnsafeRequestError of a name. A tuple is a list here, and every key a text.

abbrev pub max_safe_integer : ℕ
max_safe_integer = 9007199254740991

abbrev pub max_canonical_bytes : ℕ
max_canonical_bytes = 1048576

abbrev pub max_canonical_depth : ℕ
max_canonical_depth = 128

abbrev pub guarded {ℓ} : {A : Type ℓ} → Bool → Option A → Option A
guarded true o = o
guarded false o = none

abbrev pub lifted {ℓ κ} : {A : Type ℓ} {B : Type κ} → (A → B) → Option A → Option B
lifted f (some a) = some (f a)
lifted f none = none

abbrev pub both {ℓ κ μ} :
    {A : Type ℓ} {B : Type κ} {C : Type μ} → (A → B → C) → Option A → Option B → Option C
both f (some a) (some b) = some (f a b)
both f (some a) none = none
both f none b = none

-- _require_nfc returns its argument.
unfoldable pub require_nfc : (Text → Text) → Text → Bool
require_nfc nfc t = all_scalar t && (bytes_eq (nfc t) t && leb (length (encode_all t)) 8192)

-- The tests on a key, after the earlier keys.
unfoldable pub require_key : (Text → Text) → Bool → List Text → Text → Bool
unfolding require_nfc
require_key nfc safe_names seen s =
    require_nfc nfc s && (not (among seen s) && (not safe_names || validate_safe_field_name s))

unfoldable mutual
  unfolding require_nfc require_key

  pub canonical_value : (Text → Text) → Bool → ℕ → PyValue → Option PyValue
  canonical_value nfc safe d none_value = guarded (leb d max_canonical_depth) (some none_value)
  canonical_value nfc safe d (bool_value b) =
      guarded (leb d max_canonical_depth) (some (bool_value b))
  canonical_value nfc safe d (int_value n) =
      guarded (leb d max_canonical_depth && leb n max_safe_integer) (some (int_value n))
  canonical_value nfc safe d (negative_int n) =
      guarded (leb d max_canonical_depth && leb (n + 1) max_safe_integer) (some (negative_int n))
  canonical_value nfc safe d (str_value t) =
      guarded (leb d max_canonical_depth && require_nfc nfc t) (some (str_value t))
  canonical_value nfc safe d (list_value xs) =
      guarded (leb d max_canonical_depth) (lifted list_value (canonical_list nfc safe (d + 1) xs))
  canonical_value nfc safe d (dict_value e) =
      guarded (leb d max_canonical_depth) (lifted dict_value (canonical_dict nfc safe (d + 1) [] e))
  canonical_value nfc safe d (float_value n) = none
  canonical_value nfc safe d nonfinite = none
  canonical_value nfc safe d unsupported = none

  pub canonical_list : (Text → Text) → Bool → ℕ → PyList → Option PyList
  canonical_list nfc safe d no_items = some no_items
  canonical_list nfc safe d (item v xs) =
      both item (canonical_value nfc safe d v) (canonical_list nfc safe d xs)

  -- The list holds the keys of the result so far.
  pub canonical_dict : (Text → Text) → Bool → ℕ → List Text → PyDict → Option PyDict
  canonical_dict nfc safe d seen no_entries = some no_entries
  canonical_dict nfc safe d seen (entry s v e) =
      guarded (require_key nfc safe seen s)
        (both (entry s) (canonical_value nfc safe d v) (canonical_dict nfc safe d (s ∷ seen) e))

-- The bytes of a text, within the limit.
abbrev pub limited : Text → Option Bytes
limited t = guarded (leb (length (encode_all t)) max_canonical_bytes) (some (encode_all t))

abbrev pub limited_bytes : Encoded → Option Bytes
limited_bytes (encoded t) = limited t
limited_bytes (refused e) = none

abbrev pub dumped : Option PyValue → Option Bytes
dumped none = none
dumped (some w) = limited_bytes (encode_state w)

-- json.dumps has the arguments that encode_state gives it.
unfoldable pub canonical_json_bytes : (Text → Text) → PyValue → Option Bytes
unfolding canonical_value encode_state encode_all
canonical_json_bytes nfc v = dumped (canonical_value nfc false 0 v)
