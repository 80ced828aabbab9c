-- ===== src/StateCodec/Encode/Legal.antt =====
use research_paper_aep.Base.{
  All, Bool-cases, List, [], ap, arith, false, false≢true, inl, inr, max, or-eq-false, refl, some,
  suc, sym, true, ℕ, ◌+◌, ◌∙◌, ◌∷◌, ◌≡◌,
}
use research_paper_aep.StateCodec.{Bytes, bytes_eq}
use research_paper_aep.StateCodec.Token.Strings.{print_string}
use research_paper_aep.StateCodec.Token.Numbers.{print_sign}
use research_paper_aep.StateCodec.Tree.{
  IsElements, IsJson, IsMembers, Json, Reader, depth, depth_elements, depth_members, distinct,
  distinct_elements, distinct_members, has_name,
}
use research_paper_aep.StateCodec.Encode.{
  PyDict, PyList, PyValue, Text, bool_value, dict_value, entry, float_value, int_value, item,
  list_value, negative_int, no_entries, no_items, none_value, nonfinite, str_value, unsupported,
}
use research_paper_aep.StateCodec.Utf8.Exact.{IsScalar, encode_all}
use research_paper_aep.StateCodec.Encode.Strings.{Emits-string, chars_of, chars_of-IsChar}
use research_paper_aep.StateCodec.Encode.Tree.{
  IsNameOf, IsState, IsStateDict, IsStateList, elements, int_number-IsNumber, int_printed, members,
  tree,
}
use research_paper_aep.StateCodec.Encode.Names.{
  IsKeyed, IsKeyedDict, IsKeyedList, bytes_eq→eq, encode_all-injective, has_text, same_text,
  text_sym,
}

-- The trees that encode_state of aep_core/core/state_codec.py writes are legal, with distinct names.

-- How deep a value nests.
unfoldable mutual
  pub nesting : PyValue → ℕ
  nesting (list_value no_items) = 0
  nesting (list_value (item v xs)) = suc (max (nesting v) (nesting_list xs))
  nesting (dict_value no_entries) = 0
  nesting (dict_value (entry s v d)) = suc (max (nesting v) (nesting_dict d))
  nesting _ = 0

  pub nesting_list : PyList → ℕ
  nesting_list no_items = 0
  nesting_list (item v xs) = max (nesting v) (nesting_list xs)

  pub nesting_dict : PyDict → ℕ
  nesting_dict no_entries = 0
  nesting_dict (entry s v d) = max (nesting v) (nesting_dict d)

mutual
  unfolding tree depth nesting

  pub depth-tree : (v : PyValue) → depth (tree v) ≡ nesting v
  depth-tree (list_value no_items) = refl
  depth-tree (list_value (item v xs)) =
      ap suc (depth-elements (tree v) xs ∙ ap (λ n. max n (nesting_list xs)) (depth-tree v))
  depth-tree (dict_value no_entries) = refl
  depth-tree (dict_value (entry s v d)) =
      ap suc (depth-members s (tree v) d ∙ ap (λ n. max n (nesting_dict d)) (depth-tree v))
  depth-tree _ = refl

  depth-elements :
      (j : Json) (xs : PyList) → depth_elements (elements j xs) ≡ max (depth j) (nesting_list xs)
  depth-elements j no_items = omega arith
  depth-elements j (item w xs) =
      ap (max (depth j))
        (depth-elements (tree w) xs ∙ ap (λ n. max n (nesting_list xs)) (depth-tree w))

  depth-members :
      (s : Text) (j : Json) (d : PyDict)
      → depth_members (members s j d) ≡ max (depth j) (nesting_dict d)
  depth-members s j no_entries = omega arith
  depth-members s j (entry t w d) =
      ap (max (depth j))
        (depth-members t (tree w) d ∙ ap (λ n. max n (nesting_dict d)) (depth-tree w))

module _ (r : Reader) where
  named :
      (s : Text) → IsNameOf r s → r.decode_name (print_string (chars_of s) []) ≡ some (encode_all s)
  unfolding encode_all
  named s h = let e = (Emits-string s h.0).same [] in sym (ap r.decode_name e) ∙ h.1

  mutual
    unfolding tree IsJson IsState print_sign encode_all

    pub tree-IsJson : (v : PyValue) → IsState r v → IsJson r (tree v)
    tree-IsJson none_value h = tt
    tree-IsJson (bool_value b) h = tt
    tree-IsJson (int_value n) h =
        (int_number-IsNumber false n, ap r.finite (int_printed false n []) ∙ h)
    tree-IsJson (negative_int n) h =
        (int_number-IsNumber true (n + 1), ap r.finite (int_printed true (n + 1) []) ∙ h)
    tree-IsJson (float_value n) h = h
    tree-IsJson (str_value t) h = chars_of-IsChar t
    tree-IsJson (list_value no_items) h = tt
    tree-IsJson (list_value (item v xs)) h =
        (tt, elements-IsElements (tree v) xs (tree-IsJson v h.0) h.1)
    tree-IsJson (dict_value no_entries) h = tt
    tree-IsJson (dict_value (entry s v d)) h =
        (tt, members-IsMembers s (tree v) d h.0 (tree-IsJson v h.1) h.2)
    tree-IsJson nonfinite h = absurd h
    tree-IsJson unsupported h = absurd h

    elements-IsElements :
        (j : Json) (xs : PyList) → IsJson r j → IsStateList r xs → IsElements r (elements j xs)
    elements-IsElements j no_items h hs = (h, tt)
    elements-IsElements j (item w xs) h hs =
        (h, tt, tt, elements-IsElements (tree w) xs (tree-IsJson w hs.0) hs.1)

    members-IsMembers :
        (s : Text) (j : Json) (d : PyDict)
        → IsNameOf r s
        → IsJson r j
        → IsStateDict r d
        → IsMembers r (members s j d)
    members-IsMembers s j no_entries p h hs = (chars_of-IsChar s, named s p, tt, tt, h, tt)
    members-IsMembers s j (entry t w d) p h hs = (
      chars_of-IsChar s,
      named s p,
      tt,
      tt,
      h,
      tt,
      tt,
      members-IsMembers t (tree w) d hs.0 (tree-IsJson w hs.1) hs.2,
    )

module _ (r : Reader) where
  -- A name that is written already, and the keys to come.
  other_name :
      (t s : Text) (names : List Bytes)
      → All IsScalar t
      → All IsScalar s
      → bytes_eq t s ≡ false
      → has_name (encode_all t) names ≡ false
      → has_name (encode_all t) (encode_all s ∷ names) ≡ false
  other_name t s names p q ne h = elim (Bool-cases (bytes_eq (encode_all t) (encode_all s))) [
    | inl e ↦
        absurd
          (false≢true (sym ne ∙ same_text t s (encode_all-injective t s p q (bytes_eq→eq _ _ e))))
    | inr e ↦ rw e h
  ]

  abbrev AllNew : List Bytes → PyDict → Type 0
  AllNew names no_entries = Unit
  AllNew names (entry s v d) = (has_name (encode_all s) names ≡ false) × AllNew names d

  AllNew-cons :
      (s : Text) (names : List Bytes) (d : PyDict)
      → All IsScalar s
      → IsStateDict r d
      → has_text s d ≡ false
      → AllNew names d
      → AllNew (encode_all s ∷ names) d
  unfolding IsState
  AllNew-cons s names no_entries p hs h new = tt
  AllNew-cons s names (entry t v d) p hs h new =
      let (ne, rest) = or-eq-false _ _ h in
      (
        other_name t s names hs.0.0 p (text_sym s t ne) new.0,
        AllNew-cons s names d p hs.2 rest new.1,
      )

  AllNew-nil : (d : PyDict) → AllNew [] d
  AllNew-nil no_entries = tt
  AllNew-nil (entry s v d) = (refl, AllNew-nil d)

  mutual
    unfolding tree IsState IsKeyed distinct

    pub distinct-tree : (v : PyValue) → IsState r v → IsKeyed v → distinct (tree v) ≡ true
    distinct-tree (list_value (item v xs)) h k =
        distinct-elements (tree v) xs (distinct-tree v h.0 k.0) h.1 k.1
    distinct-tree (list_value no_items) h k = refl
    distinct-tree (dict_value no_entries) h k = refl
    distinct-tree (dict_value (entry s v d)) h k =
        distinct-members [] s (tree v) d refl (distinct-tree v h.1 k.1) h.0.0 h.2 k.0 (AllNew-nil d)
          k.2
    distinct-tree none_value h k = refl
    distinct-tree (bool_value b) h k = refl
    distinct-tree (int_value n) h k = refl
    distinct-tree (negative_int n) h k = refl
    distinct-tree (float_value n) h k = refl
    distinct-tree (str_value t) h k = refl
    distinct-tree nonfinite h k = refl
    distinct-tree unsupported h k = refl

    distinct-elements :
        (j : Json) (xs : PyList)
        → distinct j ≡ true
        → IsStateList r xs
        → IsKeyedList xs
        → distinct_elements (elements j xs) ≡ true
    distinct-elements j no_items e h k = e
    distinct-elements j (item w xs) e h k =
        rw e (distinct-elements (tree w) xs (distinct-tree w h.0 k.0) h.1 k.1)

    distinct-members :
        (names : List Bytes) (s : Text) (j : Json) (d : PyDict)
        → has_name (encode_all s) names ≡ false
        → distinct j ≡ true
        → All IsScalar s
        → IsStateDict r d
        → has_text s d ≡ false
        → AllNew names d
        → IsKeyedDict d
        → distinct_members names (members s j d) ≡ true
    distinct-members names s j no_entries fresh e p h once new k = rw (fresh, e) refl
    distinct-members names s j (entry t w d) fresh e p h once new k =
        let later = AllNew-cons s names (entry t w d) p h once new in
        rw (fresh, e)
          (distinct-members (encode_all s ∷ names) t (tree w) d later.0 (distinct-tree w h.1 k.1)
            h.0.0 h.2 k.0 later.1 k.2)
