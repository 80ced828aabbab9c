-- ===== src/Requests/Rules/Safe.antt =====
use research_paper_aep.Base.{
  Bool, Bool-cases, List, Option, [], and-true, arith, false≢true, inl, inr, leb, leb→le, nat_eq→eq,
  subst, suc, true, ℕ, ◌∷◌, ◌≡◌, ◌≤◌,
}
use research_paper_aep.StateCodec.{bytes_eq}
use research_paper_aep.StateCodec.Encode.{
  PyDict, PyList, PyValue, Text, bool_value, dict_value, entry, float_value, int_value, item,
  list_value, negative_int, no_entries, no_items, none_value, nonfinite, str_value, unsupported,
}
use research_paper_aep.StateCodec.Encode.Names.{bytes_eq→eq}
use research_paper_aep.Requests.Names.{among, safe_id, validate_safe_field_name}
use research_paper_aep.Requests.Rules.{
  ArrayItem, ObjectFields, SafeValueKind, SafeValueRule, Variants, all_entries, all_items,
  all_safe_ids, array_item, array_kind, boolean_kind, built, built_fields, built_item,
  built_variants, count_items, field_names, has_field, integer_kind, is_bool, is_dict_of,
  is_int_within, is_list_of, is_none, is_text_of, matches, no_fields, no_item, no_variants,
  null_kind, object_field, object_kind, one_of_kind, rule, rule_post_init, string_kind,
  validate_item, validate_member, validate_safe_value, variant, ℤ,
}

-- What a rule lets through into the persisted state: no text that is not a safe identifier, no name
-- that is not a safe field name, no float.

unfoldable mutual
  pub Safe : PyValue → Type 0
  Safe (str_value t) = safe_id t ≡ true
  Safe (list_value xs) = (count_items xs ≤ 256) × SafeItems xs
  Safe (dict_value d) = SafeEntries d
  Safe (float_value n) = ⊥
  Safe nonfinite = ⊥
  Safe unsupported = ⊥
  Safe v = Unit

  pub SafeItems : PyList → Type 0
  SafeItems no_items = Unit
  SafeItems (item v xs) = Safe v × SafeItems xs

  pub SafeEntries : PyDict → Type 0
  SafeEntries no_entries = Unit
  SafeEntries (entry s v d) = (validate_safe_field_name s ≡ true) × Safe v × SafeEntries d

is_none-Safe : (v : PyValue) → is_none v ≡ true → Safe v
unfolding Safe
is_none-Safe none_value h = tt
is_none-Safe v h = absurd (false≢true h)

is_bool-Safe : (v : PyValue) → is_bool v ≡ true → Safe v
unfolding Safe
is_bool-Safe (bool_value b) h = tt
is_bool-Safe v h = absurd (false≢true h)

is_int_within-Safe : (low high : Option ℤ) (v : PyValue) → is_int_within low high v ≡ true → Safe v
unfolding Safe
is_int_within-Safe low high (int_value n) h = tt
is_int_within-Safe low high (negative_int n) h = tt
is_int_within-Safe low high v h = absurd (false≢true h)

among-safe_id :
    (strings : List Text) (t : Text)
    → all_safe_ids strings ≡ true
    → among strings t ≡ true
    → safe_id t ≡ true
among-safe_id [] t a h = absurd (false≢true h)
among-safe_id (s ∷ ss) t a h =
    let (ok, rest) = and-true _ _ a in
    elim (Bool-cases (bytes_eq s t)) [
      | inl e ↦ subst (λ u. safe_id u ≡ true) (bytes_eq→eq s t e) ok
      | inr e ↦ among-safe_id ss t rest (rw e at h)
    ]

is_text_of-Safe :
    (strings : List Text) (v : PyValue)
    → all_safe_ids strings ≡ true
    → is_text_of strings v ≡ true
    → Safe v
unfolding Safe
is_text_of-Safe strings (str_value t) a h = among-safe_id strings t a h
is_text_of-Safe strings v a h = absurd (false≢true h)

all_items-Safe :
    (test : PyValue → Bool)
    → ((v : PyValue) → test v ≡ true → Safe v)
    → (xs : PyList) → all_items test xs ≡ true
    → SafeItems xs
unfolding Safe
all_items-Safe test f no_items h = tt
all_items-Safe test f (item v xs) h =
    let (here, later) = and-true _ _ h in (f v here, all_items-Safe test f xs later)

le_trans : {a b c : ℕ} → a ≤ b → b ≤ c → a ≤ c
le_trans p q = omega (arith, p, q)

is_list_of-Safe :
    (test : PyValue → Bool) (most : ℕ) (v : PyValue)
    → leb most 256 ≡ true
    → ((u : PyValue) → test u ≡ true → Safe u)
    → is_list_of test most v ≡ true
    → Safe v
unfolding Safe
is_list_of-Safe test most (list_value xs) bound f h = (
  le_trans (leb→le (count_items xs) most (and-true _ _ h).0) (leb→le most 256 bound),
  all_items-Safe test f xs (and-true _ _ h).1,
)
is_list_of-Safe test most v bound f h = absurd (false≢true h)

has_field-name :
    (fs : ObjectFields) (s : Text)
    → field_names fs ≡ true
    → has_field fs s ≡ true
    → validate_safe_field_name s ≡ true
has_field-name no_fields s n h = absurd (false≢true h)
has_field-name (object_field t r fs) s n h =
    let (ok, rest) = and-true _ _ n in
    elim (Bool-cases (bytes_eq t s)) [
      | inl e ↦ subst (λ u. validate_safe_field_name u ≡ true) (bytes_eq→eq t s e) ok
      | inr e ↦ has_field-name fs s rest (rw e at h)
    ]

all_entries-Safe :
    (test : Text → PyValue → Bool) (fs : ObjectFields)
    → field_names fs ≡ true
    → ((s : Text) (v : PyValue) → test s v ≡ true → Safe v)
    → (d : PyDict) → all_entries (λ s v. has_field fs s) d ≡ true
    → all_entries test d ≡ true
    → SafeEntries d
unfolding Safe
all_entries-Safe test fs n f no_entries k h = tt
all_entries-Safe test fs n f (entry s v d) k h =
    let (known, names) = and-true _ _ k in
    let (here, later) = and-true _ _ h in
    (has_field-name fs s n known, f s v here, all_entries-Safe test fs n f d names later)

is_dict_of-Safe :
    (test : Text → PyValue → Bool) (fs : ObjectFields) (v : PyValue)
    → field_names fs ≡ true
    → ((s : Text) (u : PyValue) → test s u ≡ true → Safe u)
    → is_dict_of test fs v ≡ true
    → Safe v
unfolding Safe
is_dict_of-Safe test fs (dict_value d) n f h =
    let (same, each) = and-true _ _ h in all_entries-Safe test fs n f d (and-true _ _ same).0 each
is_dict_of-Safe test fs v n f h = absurd (false≢true h)

-- What the construction has tested, in parts.
record Tested (strings : List Text) (slot : ArrayItem) (most : ℕ) (members : ObjectFields)
    (rs : Variants) : Type 0 where
  ids : all_safe_ids strings ≡ true
  size : leb most 256 ≡ true
  names : field_names members ≡ true
  of_item : built_item slot ≡ true
  of_members : built_fields members ≡ true
  of_variants : built_variants rs ≡ true

built-Tested :
    (kind : SafeValueKind) (strings : List Text) (low high : Option ℤ) (slot : ArrayItem) (most : ℕ)
    (given : Bool) (members : ObjectFields) (rs : Variants)
    → built (rule kind strings low high slot most given members rs) ≡ true
    → Tested strings slot most members rs
unfolding built rule_post_init
built-Tested kind strings low high slot most given members rs h =
    let (init, parts) = and-true _ _ h in
    let (of_item, further) = and-true _ _ parts in
    let (of_members, of_variants) = and-true _ _ further in
    let (ids, one) = and-true _ _ init in
    let (size, two) = and-true _ _ one in
    let (order, three) = and-true _ _ two in
    record {
      ids = ids;
      size = size;
      names = (and-true _ _ three).0;
      of_item = of_item;
      of_members = of_members;
      of_variants = of_variants;
    }

mutual
  unfolding built validate_safe_value

  validate_safe_value-Safe :
      (r : SafeValueRule) (v : PyValue) → built r ≡ true → validate_safe_value r v ≡ true → Safe v
  validate_safe_value-Safe (rule null_kind _ _ _ _ _ _ _ _) v b h = is_none-Safe v h
  validate_safe_value-Safe (rule boolean_kind _ _ _ _ _ _ _ _) v b h = is_bool-Safe v h
  validate_safe_value-Safe (rule integer_kind _ low high _ _ _ _ _) v b h =
      is_int_within-Safe low high v h
  validate_safe_value-Safe (rule string_kind ss l u slot m g fs rs) v b h =
      is_text_of-Safe ss v (built-Tested string_kind ss l u slot m g fs rs b).ids h
  validate_safe_value-Safe (rule array_kind ss l u slot m g fs rs) v b h =
      let t = built-Tested array_kind ss l u slot m g fs rs b in
      is_list_of-Safe (validate_item slot) m v t.size (validate_item-Safe slot t.of_item) h
  validate_safe_value-Safe (rule object_kind ss l u slot m g fs rs) v b h =
      let t = built-Tested object_kind ss l u slot m g fs rs b in
      is_dict_of-Safe (validate_member fs) fs v t.names (validate_member-Safe fs t.of_members) h
  validate_safe_value-Safe (rule one_of_kind ss l u slot m g fs rs) v b h =
      let t = built-Tested one_of_kind ss l u slot m g fs rs b in
      matches-Safe rs v 0 t.of_variants (nat_eq→eq _ _ h)

  validate_item-Safe :
      (slot : ArrayItem)
      → built_item slot ≡ true
      → (v : PyValue) → validate_item slot v ≡ true
      → Safe v
  validate_item-Safe no_item b v h = absurd (false≢true h)
  validate_item-Safe (array_item r) b v h = validate_safe_value-Safe r v b h

  validate_member-Safe :
      (fs : ObjectFields)
      → built_fields fs ≡ true
      → (s : Text) (v : PyValue) → validate_member fs s v ≡ true
      → Safe v
  validate_member-Safe no_fields b s v h = absurd (false≢true h)
  validate_member-Safe (object_field t r fs) b s v h =
      let (one, rest) = and-true _ _ b in
      elim (Bool-cases (bytes_eq t s)) [
        | inl e ↦ validate_safe_value-Safe r v one (rw e at h)
        | inr e ↦ validate_member-Safe fs rest s v (rw e at h)
      ]

  matches-Safe :
      (rs : Variants) (v : PyValue) (n : ℕ)
      → built_variants rs ≡ true
      → matches rs v ≡ suc n
      → Safe v
  matches-Safe no_variants v n b h = absurd (omega (arith, h))
  matches-Safe (variant r rs) v n b h =
      let (one, rest) = and-true _ _ b in
      elim (Bool-cases (validate_safe_value r v)) [
        | inl e ↦ validate_safe_value-Safe r v one e
        | inr e ↦ matches-Safe rs v n rest (rw e at h)
      ]

-- A value that passes the check against a rule, every part of which was accepted when it was built,
-- holds safe identifiers as its only texts, safe field names with no sensitive word as its only
-- names, lists of 256 items at most, and no float and no other object, at any depth.
pub validate_safe_value_sound :
    (r : SafeValueRule) (v : PyValue) → built r ≡ true → validate_safe_value r v ≡ true → Safe v
validate_safe_value_sound = validate_safe_value-Safe
