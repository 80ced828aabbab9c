-- ===== src/StateCodec/Encode/Accepted.antt =====
use research_paper_aep.Base.{
  All, Bool-cases, [], and-true, ap, arith, inl, inr, ltb, max, none, refl, suc, true, ℕ, ◌∙◌, ◌∷◌,
  ◌≡◌, ◌≤◌,
}
use research_paper_aep.StateCodec.Tree.{Reader}
use research_paper_aep.StateCodec.Encode.{
  PyDict, PyList, PyValue, Text, all_scalar, bool_value, dict_value, encode_state, encoded, entry,
  float_value, insert_entry, int_value, is_scalar, item, list_value, negative_int, no_entries,
  no_items, none_value, nonfinite, refusal, refusal_dict, refusal_list, sorted_dict, sorted_list,
  sorted_value, str_value, text_lt, unsupported, write,
}
use research_paper_aep.StateCodec.Utf8.Exact.{IsScalar, aep_utf8_check_exact, encode_all}
use research_paper_aep.StateCodec.Encode.Tree.{
  Emits-value, IsNameOf, IsState, IsStateDict, IsStateList, tree,
}
use research_paper_aep.StateCodec.Encode.Names.{IsKeyed, sorted_value-IsKeyed}
use research_paper_aep.StateCodec.Encode.Legal.{
  depth-tree, distinct-tree, nesting, nesting_dict, nesting_list, tree-IsJson,
}
use research_paper_aep.StateCodec.Check.{aep_json_member_check, finished, max_depth, scalar}
use research_paper_aep.StateCodec.Check.Complete.{IsTextOf, aep_json_member_check-verdict, verdict}

-- What encode_state of aep_core/core/state_codec.py writes passes aep_json_member_check of the same file.

nesting-insert_entry :
    (s : Text) (v : PyValue) (d : PyDict)
    → (nesting (dict_value (insert_entry s v d)) ≡ suc (max (nesting v) (nesting_dict d)))
      × (nesting_dict (insert_entry s v d) ≡ max (nesting v) (nesting_dict d))
unfolding insert_entry nesting
nesting-insert_entry s v no_entries = (refl, refl)
nesting-insert_entry s v (entry t w d) = elim (Bool-cases (text_lt s t)) [
  | inl e ↦ rw e (refl, refl)
  | inr e ↦
      let deeper = (nesting-insert_entry s v d).1 in
      let whole : max (nesting w) (nesting_dict (insert_entry s v d))
          ≡ max (nesting v) (max (nesting w) (nesting_dict d)) =
        omega (arith, deeper) in
      rw e (ap suc whole, whole)
]

mutual
  unfolding sorted_value nesting

  nesting-sorted_value : (v : PyValue) → nesting (sorted_value v) ≡ nesting v
  nesting-sorted_value (list_value no_items) = refl
  nesting-sorted_value (list_value (item v xs)) =
      ap suc (omega (arith, nesting-sorted_value v, nesting-sorted_list xs))
  nesting-sorted_value (dict_value no_entries) = refl
  nesting-sorted_value (dict_value (entry s v d)) =
      (nesting-insert_entry s (sorted_value v) (sorted_dict d)).0
      ∙ ap suc (omega (arith, nesting-sorted_value v, nesting-sorted_dict d))
  nesting-sorted_value _ = refl

  nesting-sorted_list : (xs : PyList) → nesting_list (sorted_list xs) ≡ nesting_list xs
  nesting-sorted_list no_items = refl
  nesting-sorted_list (item v xs) = omega (arith, nesting-sorted_value v, nesting-sorted_list xs)

  nesting-sorted_dict : (d : PyDict) → nesting_dict (sorted_dict d) ≡ nesting_dict d
  nesting-sorted_dict no_entries = refl
  nesting-sorted_dict (entry s v d) =
      (nesting-insert_entry s (sorted_value v) (sorted_dict d)).1
      ∙ omega (arith, nesting-sorted_value v, nesting-sorted_dict d)

module _ (r : Reader) where
  insert_entry-IsStateDict :
      (s : Text) (v : PyValue) (d : PyDict)
      → IsNameOf r s
      → IsState r v
      → IsStateDict r d
      → IsStateDict r (insert_entry s v d)
  unfolding insert_entry IsState
  insert_entry-IsStateDict s v no_entries p h hs = (p, h, tt)
  insert_entry-IsStateDict s v (entry t w d) p h hs = elim (Bool-cases (text_lt s t)) [
    | inl e ↦ rw e (p, h, hs)
    | inr e ↦ rw e (hs.0, hs.1, insert_entry-IsStateDict s v d p h hs.2)
  ]

  mutual
    unfolding sorted_value IsState

    sorted_value-IsState : (v : PyValue) → IsState r v → IsState r (sorted_value v)
    sorted_value-IsState (list_value xs) h = sorted_list-IsStateList xs h
    sorted_value-IsState (dict_value d) h = sorted_dict-IsStateDict d h
    sorted_value-IsState _ h = h

    sorted_list-IsStateList : (xs : PyList) → IsStateList r xs → IsStateList r (sorted_list xs)
    sorted_list-IsStateList no_items h = tt
    sorted_list-IsStateList (item v xs) h =
        (sorted_value-IsState v h.0, sorted_list-IsStateList xs h.1)

    sorted_dict-IsStateDict : (d : PyDict) → IsStateDict r d → IsStateDict r (sorted_dict d)
    sorted_dict-IsStateDict no_entries h = tt
    sorted_dict-IsStateDict (entry s v d) h =
        insert_entry-IsStateDict s (sorted_value v) (sorted_dict d) h.0 (sorted_value-IsState v h.1)
          (sorted_dict-IsStateDict d h.2)

  mutual
    unfolding refusal IsState

    refusal-none : (v : PyValue) → IsState r v → refusal v ≡ none
    refusal-none (list_value xs) h = refusal_list-none xs h
    refusal-none (dict_value d) h = refusal_dict-none d h
    refusal-none nonfinite h = absurd h
    refusal-none unsupported h = absurd h
    refusal-none none_value h = refl
    refusal-none (bool_value b) h = refl
    refusal-none (int_value n) h = refl
    refusal-none (negative_int n) h = refl
    refusal-none (float_value n) h = refl
    refusal-none (str_value t) h = refl

    refusal_list-none : (xs : PyList) → IsStateList r xs → refusal_list xs ≡ none
    refusal_list-none no_items h = refl
    refusal_list-none (item v xs) h = rw (refusal-none v h.0) (refusal_list-none xs h.1)

    refusal_dict-none : (d : PyDict) → IsStateDict r d → refusal_dict d ≡ none
    refusal_dict-none no_entries h = refl
    refusal_dict-none (entry s v d) h = rw (refusal-none v h.1) (refusal_dict-none d h.2)

pub all_scalar-true : (t : Text) → all_scalar t ≡ true → All IsScalar t
unfolding all_scalar
all_scalar-true [] h = tt
all_scalar-true (c ∷ t) h =
    let (here, there) = and-true _ _ h in (scalar_of c here, all_scalar-true t there)
  where
    scalar_of : (d : ℕ) → is_scalar d ≡ true → IsScalar d
    scalar_of d e = elim (Bool-cases (ltb d 0xD800)) [
      | inl low ↦ inl (ground arith)
      | inr high ↦ inr (ground arith)
    ]

written-IsTextOf :
    (r : Reader) (w : PyValue)
    → IsState r w
    → nesting w ≤ max_depth
    → all_scalar (write w []) ≡ true
    → IsTextOf r (tree w) (encode_all (write w []))
written-IsTextOf r w state shallow scalar = record {
  encoded =
      (aep_utf8_check_exact (encode_all (write w []))).1
        (write w [], all_scalar-true (write w []) scalar, refl);
  before = [];
  behind = [];
  before-IsSpace = tt;
  behind-IsSpace = tt;
  legal = tree-IsJson r w state;
  within_depth = rw (depth-tree w) shallow;
  whole = unfold encode_all in (Emits-value r w state).same [];
}

-- For every value that nests at most 128 deep and is made of lists, mappings whose keys are distinct
-- texts that cjson reads back, texts without surrogates, and numbers that Lua finds finite: encode_state
-- returns a text, aep_json_member_check never answers 1 to the UTF-8 bytes of that text, and it answers
-- 0 if cjson.decode reads them.
pub encode_state_accepted :
    (r : Reader) (v : PyValue)
    → IsState r v
    → IsKeyed v
    → nesting v ≤ max_depth
    → (t : Text) × (encode_state v ≡ encoded t)
      × (aep_json_member_check r (encode_all t) ≡ finished (r.decodes (encode_all t)))
unfolding encode_state
encode_state_accepted r v state keyed shallow =
    let w = sorted_value v in
    let whole = sorted_value-IsState r v state in
    let scalar : all_scalar (write w []) ≡ true =
      unfold all_scalar in (Emits-value r w whole).scalar [] in
    let read = written-IsTextOf r w whole (rw (nesting-sorted_value v) shallow) scalar in
    (
      write w [],
      rw (encode_state, refusal-none r w whole, scalar) refl,
      aep_json_member_check-verdict r (tree w) (encode_all (write w [])) read
          ∙ ap (λ b. verdict b (r.decodes (encode_all (write w []))))
              (distinct-tree r w whole (sorted_value-IsKeyed v keyed)),
    )
