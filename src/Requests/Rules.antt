-- ===== src/Requests/Rules.antt =====
pub mod Safe
use research_paper_aep.Base.{
  Bool, List, Option, [], false, if◌then◌else◌, leb, ltb, nat_eq, not, some, suc, true, ℕ, ◌&&◌,
  ◌||◌, ◌∷◌,
}
use research_paper_aep.StateCodec.{bytes_eq}
use research_paper_aep.StateCodec.Encode.{
  PyDict, PyList, PyValue, Text, bool_value, dict_value, entry, int_value, item, list_value,
  negative_int, no_entries, no_items, none_value, str_value,
}
use research_paper_aep.Requests.Names.{among, is_empty, safe_id, validate_safe_field_name}

-- SafeValueRule of aep_core/core/request_binding.py, the tests of __post_init__, and
-- _validate_safe_value. The types of the members are the declared ones. false stands for the
-- UnsafeRequestError.

pub data SafeValueKind : Type 0 where
  null_kind boolean_kind integer_kind string_kind array_kind object_kind one_of_kind : SafeValueKind

-- negsuc n is -(n + 1).
pub data ℤ : Type 0 where
  pos negsuc : ℕ → ℤ

-- kind, allowed_strings, minimum_integer, maximum_integer, array_item, maximum_items, whether
-- object_fields is given, object_fields, variants
mutual
  pub data SafeValueRule : Type 0 where
    rule :
        SafeValueKind
        → List Text
        → Option ℤ
        → Option ℤ
        → ArrayItem
        → ℕ
        → Bool
        → ObjectFields
        → Variants
        → SafeValueRule

  pub data ArrayItem : Type 0 where
    no_item : ArrayItem
    array_item : SafeValueRule → ArrayItem

  pub data ObjectFields : Type 0 where
    no_fields : ObjectFields
    object_field : Text → SafeValueRule → ObjectFields → ObjectFields

  pub data Variants : Type 0 where
    no_variants : Variants
    variant : SafeValueRule → Variants → Variants

abbrev pub int_lt : ℤ → ℤ → Bool
int_lt (pos a) (pos b) = ltb a b
int_lt (pos a) (negsuc b) = false
int_lt (negsuc a) (pos b) = true
int_lt (negsuc a) (negsuc b) = ltb b a

-- a < b where both are given
abbrev pub under : Option ℤ → Option ℤ → Bool
under (some a) (some b) = int_lt a b
under _ _ = false

abbrev pub all_safe_ids : List Text → Bool
all_safe_ids [] = true
all_safe_ids (t ∷ ts) = safe_id t && all_safe_ids ts

abbrev pub field_names : ObjectFields → Bool
field_names no_fields = true
field_names (object_field s r fs) = validate_safe_field_name s && field_names fs

abbrev pub count_variants : Variants → ℕ
count_variants no_variants = 0
count_variants (variant r rs) = suc (count_variants rs)

abbrev pub has_item : ArrayItem → Bool
has_item no_item = false
has_item (array_item r) = true

-- The last four tests, on what the kind needs.
unfoldable pub kind_is_given : SafeValueKind → List Text → ArrayItem → Bool → Variants → Bool
kind_is_given string_kind strings slot given rs = not (is_empty strings)
kind_is_given array_kind strings slot given rs = has_item slot
kind_is_given object_kind strings slot given rs = given
kind_is_given one_of_kind strings slot given rs =
    leb 2 (count_variants rs) && leb (count_variants rs) 8
kind_is_given _ strings slot given rs = true

unfoldable pub rule_post_init : SafeValueRule → Bool
unfolding kind_is_given
rule_post_init (rule kind strings low high slot most given members rs) =
    all_safe_ids strings
    && (leb most 256
        && (not (under high low)
            && (field_names members && kind_is_given kind strings slot given rs)))

-- The rule and the rules in it have gone through __post_init__.
unfoldable mutual
  unfolding rule_post_init

  pub built : SafeValueRule → Bool
  built (rule kind strings low high slot most given members rs) =
      rule_post_init (rule kind strings low high slot most given members rs)
      && (built_item slot && (built_fields members && built_variants rs))

  pub built_item : ArrayItem → Bool
  built_item no_item = true
  built_item (array_item r) = built r

  pub built_fields : ObjectFields → Bool
  built_fields no_fields = true
  built_fields (object_field s r fs) = built r && built_fields fs

  pub built_variants : Variants → Bool
  built_variants no_variants = true
  built_variants (variant r rs) = built r && built_variants rs

abbrev pub is_none : PyValue → Bool
is_none none_value = true
is_none _ = false

abbrev pub is_bool : PyValue → Bool
is_bool (bool_value b) = true
is_bool _ = false

abbrev pub in_range : Option ℤ → Option ℤ → ℤ → Bool
in_range low high n = not (under (some n) low) && not (under high (some n))

abbrev pub is_int_within : Option ℤ → Option ℤ → PyValue → Bool
is_int_within low high (int_value n) = in_range low high (pos n)
is_int_within low high (negative_int n) = in_range low high (negsuc n)
is_int_within low high _ = false

abbrev pub is_text_of : List Text → PyValue → Bool
is_text_of strings (str_value t) = among strings t
is_text_of strings _ = false

abbrev pub count_items : PyList → ℕ
count_items no_items = 0
count_items (item v xs) = suc (count_items xs)

abbrev pub all_items : (PyValue → Bool) → PyList → Bool
all_items test no_items = true
all_items test (item v xs) = test v && all_items test xs

abbrev pub all_entries : (Text → PyValue → Bool) → PyDict → Bool
all_entries test no_entries = true
all_entries test (entry s v d) = test s v && all_entries test d

abbrev pub is_list_of : (PyValue → Bool) → ℕ → PyValue → Bool
is_list_of test most (list_value xs) = leb (count_items xs) most && all_items test xs
is_list_of test most _ = false

abbrev pub has_field : ObjectFields → Text → Bool
has_field no_fields t = false
has_field (object_field s r fs) t = bytes_eq s t || has_field fs t

abbrev pub has_key : PyDict → Text → Bool
has_key no_entries t = false
has_key (entry s v d) t = bytes_eq s t || has_key d t

abbrev pub all_present : ObjectFields → PyDict → Bool
all_present no_fields d = true
all_present (object_field s r fs) d = has_key d s && all_present fs d

-- set(value) == set(rule.object_fields)
abbrev pub same_names : ObjectFields → PyDict → Bool
same_names fs d = all_entries (λ s v. has_field fs s) d && all_present fs d

abbrev pub is_dict_of : (Text → PyValue → Bool) → ObjectFields → PyValue → Bool
is_dict_of test fs (dict_value d) = same_names fs d && all_entries test d
is_dict_of test fs _ = false

-- An array rule without an slot is the failed assertion, which __post_init__ excludes.
unfoldable mutual
  pub validate_safe_value : SafeValueRule → PyValue → Bool
  validate_safe_value (rule one_of_kind _ _ _ _ _ _ _ rs) v = nat_eq (matches rs v) 1
  validate_safe_value (rule null_kind _ _ _ _ _ _ _ _) v = is_none v
  validate_safe_value (rule boolean_kind _ _ _ _ _ _ _ _) v = is_bool v
  validate_safe_value (rule integer_kind _ low high _ _ _ _ _) v = is_int_within low high v
  validate_safe_value (rule string_kind strings _ _ _ _ _ _ _) v = is_text_of strings v
  validate_safe_value (rule array_kind _ _ _ slot most _ _ _) v =
      is_list_of (validate_item slot) most v
  validate_safe_value (rule object_kind _ _ _ _ _ _ members _) v =
      is_dict_of (validate_member members) members v

  -- matches
  pub matches : Variants → PyValue → ℕ
  matches no_variants v = 0
  matches (variant r rs) v =
      let others = matches rs v in if validate_safe_value r v then suc others else others

  pub validate_item : ArrayItem → PyValue → Bool
  validate_item no_item v = false
  validate_item (array_item r) v = validate_safe_value r v

  -- rule.object_fields[name]
  pub validate_member : ObjectFields → Text → PyValue → Bool
  validate_member no_fields t v = false
  validate_member (object_field s r fs) t v =
      let others = validate_member fs t v in
      if bytes_eq s t then validate_safe_value r v else others
