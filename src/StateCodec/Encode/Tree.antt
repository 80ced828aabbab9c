-- ===== src/StateCodec/Encode/Tree.antt =====
use research_paper_aep.Base.{
  All, Bool, Bool-cases, List, [], ap, append_assoc, arith, false, if◌then◌else◌, inl, inr, ltb,
  nat_eq, refl, some, suc, sym, true, zero, ℕ, ◌%◌, ◌++◌, ◌+◌, ◌/◌, ◌<◌, ◌∙◌, ◌∷◌, ◌≡◌, ◌⊎◌,
}
use research_paper_aep.StateCodec.{Bytes, within}
use research_paper_aep.StateCodec.Token.Numbers.{
  IsDigit, IsNumber, IsWhole, Number, no_power, print_decimals, print_number, print_power,
  print_sign,
}
use research_paper_aep.StateCodec.Encode.{
  PyDict, PyList, PyValue, Text, bool_value, decimal_onto, dict_value, entry, float_value,
  int_value, item, list_value, negative_int, no_entries, no_items, none_value, nonfinite, str_value,
  unsupported, write, write_entries, write_int, write_items, write_string,
}
use research_paper_aep.StateCodec.Tree.{
  Elements, Json, Members, Reader, array, empty_array, empty_object, false_word, last_element,
  last_member, next_element, next_member, null_word, number, object, print_elements, print_members,
  print_value, text, true_word, word,
}
use research_paper_aep.StateCodec.Utf8.Exact.{IsScalar, encode_all}
use research_paper_aep.StateCodec.Encode.Emits.{
  Emits, Emits-after, Emits-append, Emits-ascii, Emits-nothing, Emits-number,
}
use research_paper_aep.StateCodec.Encode.Strings.{Emits-eq, Emits-string, chars_of}

-- The tree of JSON whose text encode_state of aep_core/core/state_codec.py writes.

-- The digits of a natural number, whatever stands after them.
decimal_shape :
    (fuel n : ℕ)
    → n < fuel
    → (lead : ℕ) × (ds : List ℕ) × ((k : Text) → decimal_onto fuel n k ≡ lead ∷ ds ++ k)
      × IsWhole lead ds
      × (0 < n → within 49 57 lead ≡ true)
unfolding decimal_onto
decimal_shape zero n h = absurd (omega arith)
decimal_shape (suc fuel) n h = elim (Bool-cases (ltb n 10)) [
  | inl e ↦ (
    48 + n,
    [],
    λ k. rw (decimal_onto, e) refl,
    digit_alone (Bool-cases (nat_eq n 0)) e,
    λ p. ground arith,
  )
  | inr e ↦
      let (lead, ds, w, whole, high) = decimal_shape fuel (n / 10) (ground arith) in
      let top = high (ground arith) in
      (
        lead,
        ds ++ (48 + n % 10) ∷ [],
        λ k.
            rw (decimal_onto, e)
              (w ((48 + n % 10) ∷ k)
                ∙ sym (ap (λ xs. lead ∷ xs) (append_assoc ds ((48 + n % 10) ∷ []) k))),
        inr (top, all_append ds _ (whole_digits lead ds top whole) (ground arith, tt)),
        λ p. top,
      )
]
  where
    digit_alone :
        ((nat_eq n 0 ≡ true) ⊎ (nat_eq n 0 ≡ false)) → ltb n 10 ≡ true → IsWhole (48 + n) []
    digit_alone (inl z) e = inl (ground arith, refl)
    digit_alone (inr z) e = inr (ground arith, tt)

    all_append : (xs ys : List ℕ) → All IsDigit xs → All IsDigit ys → All IsDigit (xs ++ ys)
    all_append [] ys p q = q
    all_append (x ∷ xs) ys p q = (p.0, all_append xs ys p.1 q)

    whole_digits :
        (lead : ℕ) (ds : List ℕ) → within 49 57 lead ≡ true → IsWhole lead ds → All IsDigit ds
    whole_digits lead ds t (inl w) = absurd (ground arith)
    whole_digits lead ds t (inr w) = w.1

-- An integer as a number of JSON.
pub int_number : Bool → ℕ → Number
int_number negative n =
    let shape = decimal_shape (suc n) n (omega arith) in
    record {
      negative = negative;
      lead = shape.0;
      digits = shape.1;
      decimals = [];
      power_of_ten = no_power;
    }

-- The tree of a value. The keys of a mapping stay as they are.
unfoldable mutual
  pub tree : PyValue → Json
  tree none_value = word null_word
  tree (bool_value b) = word (if b then true_word else false_word)
  tree (int_value n) = number (int_number false n)
  tree (negative_int n) = number (int_number true (n + 1))
  tree (float_value n) = number n
  tree (str_value t) = text (chars_of t)
  tree (list_value no_items) = empty_array []
  tree (list_value (item v xs)) = array [] (elements (tree v) xs)
  tree (dict_value no_entries) = empty_object []
  tree (dict_value (entry s v d)) = object [] (members s (tree v) d)
  tree nonfinite = word null_word
  tree unsupported = word null_word

  pub elements : Json → PyList → Elements
  elements j no_items = last_element j []
  elements j (item w xs) = next_element j [] [] (elements (tree w) xs)

  pub members : Text → Json → PyDict → Members
  members s j no_entries = last_member (chars_of s) (encode_all s) [] [] j []
  members s j (entry t w d) =
      next_member (chars_of s) (encode_all s) [] [] j [] [] (members t (tree w) d)

-- cjson.decode reads the token that is written for a key as the UTF-8 bytes of the key.
abbrev pub IsNameOf : Reader → Text → Type 0
IsNameOf r s =
    All IsScalar s × (r.decode_name (encode_all (write_string s [])) ≡ some (encode_all s))

-- What makes a value a state: texts without surrogates, keys that cjson.decode reads back, and numbers
-- that tonumber finds finite.
unfoldable mutual
  pub IsState : Reader → PyValue → Type 0
  IsState r (int_value n) = r.finite (write_int n []) ≡ true
  IsState r (negative_int n) = r.finite (45 ∷ write_int (n + 1) []) ≡ true
  IsState r (float_value n) = IsNumber n × (r.finite (print_number n []) ≡ true)
  IsState r (str_value t) = All IsScalar t
  IsState r (list_value xs) = IsStateList r xs
  IsState r (dict_value d) = IsStateDict r d
  IsState r nonfinite = ⊥
  IsState r unsupported = ⊥
  IsState r v = Unit

  pub IsStateList : Reader → PyList → Type 0
  IsStateList r no_items = Unit
  IsStateList r (item v xs) = IsState r v × IsStateList r xs

  pub IsStateDict : Reader → PyDict → Type 0
  IsStateDict r no_entries = Unit
  IsStateDict r (entry s v d) = IsNameOf r s × IsState r v × IsStateDict r d

pub int_printed :
    (negative : Bool) (n : ℕ) (k : Bytes)
    → print_number (int_number negative n) k ≡ print_sign negative (write_int n k)
unfolding print_number int_number write_int print_decimals print_power
int_printed negative n k =
    ap (print_sign negative) (sym ((decimal_shape (suc n) n (omega arith)).2 k))

pub int_number-IsNumber : (negative : Bool) (n : ℕ) → IsNumber (int_number negative n)
unfolding int_number
int_number-IsNumber negative n = record {
  whole = (decimal_shape (suc n) n (omega arith)).3;
  part = tt;
  scale = tt;
}

Emits-int :
    (negative : Bool) (n : ℕ)
    → Emits (λ k. print_sign negative (write_int n k)) (print_number (int_number negative n))
Emits-int negative n =
    Emits-eq (λ k. sym (int_printed negative n k)) (λ k. refl)
      (Emits-number _ (int_number-IsNumber negative n))

Emits-natural : (n : ℕ) → Emits (write_int n) (print_number (int_number false n))
unfolding print_sign
Emits-natural n = Emits-int false n

Emits-negative : (n : ℕ) → Emits (λ k. 45 ∷ write_int n k) (print_number (int_number true n))
unfolding print_sign
Emits-negative n = Emits-int true n

module _ (r : Reader) where
  mutual
    unfolding write tree print_value IsState

    pub Emits-value : (v : PyValue) → IsState r v → Emits (write v) (print_value (tree v))
    Emits-value none_value h =
        Emits-append (110 ∷ 117 ∷ 108 ∷ 108 ∷ [])
          (omega arith, (omega arith, (omega arith, (omega arith, tt))))
    Emits-value (bool_value true) h =
        Emits-append (116 ∷ 114 ∷ 117 ∷ 101 ∷ [])
          (omega arith, (omega arith, (omega arith, (omega arith, tt))))
    Emits-value (bool_value false) h =
        Emits-append (102 ∷ 97 ∷ 108 ∷ 115 ∷ 101 ∷ [])
          (omega arith, (omega arith, (omega arith, (omega arith, (omega arith, tt)))))
    Emits-value (int_value n) h = Emits-natural n
    Emits-value (negative_int n) h = Emits-negative (n + 1)
    Emits-value (float_value n) h = Emits-number n h.0
    Emits-value (str_value t) h = Emits-string t h
    Emits-value (list_value no_items) h =
        Emits-ascii 91 (omega arith) (Emits-ascii 93 (omega arith) Emits-nothing)
    Emits-value (list_value (item v xs)) h =
        Emits-ascii 91 (omega arith) (Emits-elements (write v) (tree v) xs (Emits-value v h.0) h.1)
    Emits-value (dict_value no_entries) h =
        Emits-ascii 123 (omega arith) (Emits-ascii 125 (omega arith) Emits-nothing)
    Emits-value (dict_value (entry s v d)) h =
        Emits-ascii 123 (omega arith)
          (Emits-members s (write v) (tree v) d h.0.0 (Emits-value v h.1) h.2)
    Emits-value nonfinite h = absurd h
    Emits-value unsupported h = absurd h

    Emits-elements :
        (f : Text → Text) (j : Json) (xs : PyList)
        → Emits f (print_value j)
        → IsStateList r xs
        → Emits (λ k. f (write_items xs k)) (print_elements (elements j xs))
    Emits-elements f j no_items h hs = Emits-after h (Emits-ascii 93 (omega arith) Emits-nothing)
    Emits-elements f j (item w xs) h hs = Emits-after h (
        Emits-ascii 44 (omega arith)
          (Emits-elements (write w) (tree w) xs (Emits-value w hs.0) hs.1))

    Emits-members :
        (s : Text) (f : Text → Text) (j : Json) (d : PyDict)
        → All IsScalar s
        → Emits f (print_value j)
        → IsStateDict r d
        → Emits (λ k. write_string s (58 ∷ f (write_entries d k))) (print_members (members s j d))
    Emits-members s f j no_entries p h hs =
        Emits-after (Emits-string s p) (
          Emits-ascii 58 (omega arith)
            (Emits-after h (Emits-ascii 125 (omega arith) Emits-nothing)))
    Emits-members s f j (entry t w d) p h hs = Emits-after (Emits-string s p) (
        Emits-ascii 58 (omega arith) (
          Emits-after h (
            Emits-ascii 44 (omega arith)
              (Emits-members t (write w) (tree w) d hs.0.0 (Emits-value w hs.1) hs.2))))
