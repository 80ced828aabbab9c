-- ===== src/Requests/Canonical/Accepted.antt =====
use research_paper_aep.Base.{
  Bool, List, [], and-true, ap, arith, false, leb, leb→le, max, refl, some, suc, sym, true, ℕ, ◌&&◌,
  ◌+◌, ◌∙◌, ◌∷◌, ◌≡◌, ◌≤◌,
}
use research_paper_aep.StateCodec.Encode.{
  PyDict, PyList, PyValue, Text, bool_value, dict_value, encode_state, encoded, entry, float_value,
  int_value, item, list_value, negative_int, no_entries, no_items, none_value, nonfinite, str_value,
  unsupported, write_int, write_string,
}
use research_paper_aep.StateCodec.Utf8.Exact.{encode_all}
use research_paper_aep.StateCodec.Tree.{Reader}
use research_paper_aep.StateCodec.Encode.Tree.{IsState, IsStateDict, IsStateList}
use research_paper_aep.StateCodec.Encode.Names.{IsKeyed, IsKeyedDict, IsKeyedList, same_text}
use research_paper_aep.StateCodec.Encode.Legal.{nesting, nesting_dict, nesting_list}
use research_paper_aep.StateCodec.Encode.Accepted.{encode_state_accepted}
use research_paper_aep.Requests.Canonical.{
  both, canonical_dict, canonical_json_bytes, canonical_list, canonical_value, dumped, lifted,
  limited, limited_bytes, max_canonical_depth, max_safe_integer, require_key, require_nfc,
}
use research_paper_aep.StateCodec.Check.{aep_json_member_check, finished}
use research_paper_aep.Requests.Canonical.Parts.{
  both-some, canonical_dict-seen, guarded-some, kept, lifted-some, require_key-parts,
  require_nfc-IsScalar,
}

-- What canonical_json_bytes of aep_core/core/request_binding.py writes passes aep_json_member_check of
-- aep_core/core/state_codec.py.

-- cjson.decode reads every key of the value back from the token that is written for it.
unfoldable mutual
  pub NamesRead : Reader → PyValue → Type 0
  NamesRead r (list_value xs) = NamesReadList r xs
  NamesRead r (dict_value e) = NamesReadDict r e
  NamesRead r v = Unit

  pub NamesReadList : Reader → PyList → Type 0
  NamesReadList r no_items = Unit
  NamesReadList r (item v xs) = NamesRead r v × NamesReadList r xs

  pub NamesReadDict : Reader → PyDict → Type 0
  NamesReadDict r no_entries = Unit
  NamesReadDict r (entry s v e) =
      (r.decode_name (encode_all (write_string s [])) ≡ some (encode_all s))
      × NamesRead r v
      × NamesReadDict r e

-- What an accepted value is.
record Accepts (r : Reader) (d : ℕ) (v w : PyValue) : Type 0 where
  same : w ≡ v
  state : IsState r v
  keyed : IsKeyed v
  shallow : d + nesting v ≤ max_canonical_depth

abbrev Entered : ℕ → PyList → Type 0
Entered d no_items = Unit
Entered d (item v xs) = d ≤ max_canonical_depth

abbrev EnteredDict : ℕ → PyDict → Type 0
EnteredDict d no_entries = Unit
EnteredDict d (entry s v e) = d ≤ max_canonical_depth

within_limit :
    (d n : ℕ)
    → d + 1 ≤ max_canonical_depth
    → d + 1 + n ≤ max (d + 1) max_canonical_depth
    → d + suc n ≤ max_canonical_depth
within_limit d n p q = omega (arith, p, q)

at_depth : (d : ℕ) → leb d max_canonical_depth ≡ true → d + 0 ≤ max_canonical_depth
at_depth d h = ground arith

enter : (d n : ℕ) → d + n ≤ max_canonical_depth → d ≤ max_canonical_depth
enter d n p = omega (arith, p)

record AcceptsList (r : Reader) (d : ℕ) (xs ys : PyList) : Type 0 where
  same : ys ≡ xs
  state : IsStateList r xs
  keyed : IsKeyedList xs
  entered : Entered d xs
  shallow : d + nesting_list xs ≤ max d max_canonical_depth

record AcceptsDict (r : Reader) (d : ℕ) (e f : PyDict) : Type 0 where
  same : f ≡ e
  state : IsStateDict r e
  keyed : IsKeyedDict e
  entered : EnteredDict d e
  shallow : d + nesting_dict e ≤ max d max_canonical_depth

module _ (r : Reader)
    (finite : (n : ℕ)
      → n ≤ max_safe_integer
      → (r.finite (write_int n []) ≡ true) × (r.finite (45 ∷ write_int n []) ≡ true))
    (nfc : Text → Text) where
  mutual
    unfolding NamesRead canonical_value IsState IsKeyed nesting

    canonical_value-Accepts :
        (safe : Bool) (d : ℕ) (v w : PyValue)
        → NamesRead r v
        → canonical_value nfc safe d v ≡ some w
        → Accepts r d v w
    canonical_value-Accepts safe d none_value w k h =
        let (deep, same) = kept (leb d max_canonical_depth) none_value w h in
        record { same = same; state = tt; keyed = tt; shallow = at_depth d deep }
    canonical_value-Accepts safe d (bool_value b) w k h =
        let (deep, same) = kept (leb d max_canonical_depth) (bool_value b) w h in
        record { same = same; state = tt; keyed = tt; shallow = at_depth d deep }
    canonical_value-Accepts safe d (int_value n) w k h =
        let (tests, same) =
          kept (leb d max_canonical_depth && leb n max_safe_integer) (int_value n) w h in
        let deep : leb d max_canonical_depth ≡ true = (and-true _ _ tests).0 in
        let small = (and-true _ _ tests).1 in
        record {
          same = same;
          state = (finite n (leb→le _ _ small)).0;
          keyed = tt;
          shallow = at_depth d deep;
        }
    canonical_value-Accepts safe d (negative_int n) w k h =
        let (tests, same) =
          kept (leb d max_canonical_depth && leb (n + 1) max_safe_integer) (negative_int n) w h in
        let deep : leb d max_canonical_depth ≡ true = (and-true _ _ tests).0 in
        let small = (and-true _ _ tests).1 in
        record {
          same = same;
          state = (finite (n + 1) (leb→le _ _ small)).1;
          keyed = tt;
          shallow = at_depth d deep;
        }
    canonical_value-Accepts safe d (str_value t) w k h =
        let (tests, same) =
          kept (leb d max_canonical_depth && require_nfc nfc t) (str_value t) w h in
        let deep : leb d max_canonical_depth ≡ true = (and-true _ _ tests).0 in
        let normal = (and-true _ _ tests).1 in
        record {
          same = same;
          state = require_nfc-IsScalar nfc t normal;
          keyed = tt;
          shallow = at_depth d deep;
        }
    canonical_value-Accepts safe d (list_value no_items) w k h =
        let (deep, same) = kept (leb d max_canonical_depth) (list_value no_items) w h in
        record { same = same; state = tt; keyed = tt; shallow = at_depth d deep }
    canonical_value-Accepts safe d (list_value (item v xs)) w k h =
        let inner = canonical_list nfc safe (d + 1) (item v xs) in
        let (deep, rest) = guarded-some (leb d max_canonical_depth) (lifted list_value inner) w h in
        let (ys, inside, whole) = lifted-some list_value inner w rest in
        let a = canonical_list-Accepts safe (d + 1) (item v xs) ys k inside in
        record {
          same = sym whole ∙ ap list_value a.same;
          state = a.state;
          keyed = a.keyed;
          shallow = within_limit d _ a.entered a.shallow;
        }
    canonical_value-Accepts safe d (dict_value no_entries) w k h =
        let (deep, same) = kept (leb d max_canonical_depth) (dict_value no_entries) w h in
        record { same = same; state = tt; keyed = tt; shallow = at_depth d deep }
    canonical_value-Accepts safe d (dict_value (entry s v e)) w k h =
        let inner = canonical_dict nfc safe (d + 1) [] (entry s v e) in
        let (deep, rest) = guarded-some (leb d max_canonical_depth) (lifted dict_value inner) w h in
        let (f, inside, whole) = lifted-some dict_value inner w rest in
        let a = canonical_dict-Accepts safe (d + 1) [] (entry s v e) f k inside in
        record {
          same = sym whole ∙ ap dict_value a.same;
          state = a.state;
          keyed = a.keyed;
          shallow = within_limit d _ a.entered a.shallow;
        }
    canonical_value-Accepts safe d (float_value n) w k h = cc
    canonical_value-Accepts safe d nonfinite w k h = cc
    canonical_value-Accepts safe d unsupported w k h = cc

    canonical_list-Accepts :
        (safe : Bool) (d : ℕ) (xs ys : PyList)
        → NamesReadList r xs
        → canonical_list nfc safe d xs ≡ some ys
        → AcceptsList r d xs ys
    canonical_list-Accepts safe d no_items ys k h = record {
      same = cc;
      state = tt;
      keyed = tt;
      entered = tt;
      shallow = omega arith;
    }
    canonical_list-Accepts safe d (item v xs) ys k h =
        let (w, zs, here, later, whole) =
          both-some item (canonical_value nfc safe d v) (canonical_list nfc safe d xs) ys h in
        let a = canonical_value-Accepts safe d v w k.0 here in
        let b = canonical_list-Accepts safe d xs zs k.1 later in
        record {
          same = sym whole ∙ ap (λ u. item u zs) a.same ∙ ap (item v) b.same;
          state = (a.state, b.state);
          keyed = (a.keyed, b.keyed);
          entered = enter d (nesting v) a.shallow;
          shallow = omega (arith, a.shallow, b.shallow);
        }

    canonical_dict-Accepts :
        (safe : Bool) (d : ℕ) (seen : List Text) (e f : PyDict)
        → NamesReadDict r e
        → canonical_dict nfc safe d seen e ≡ some f
        → AcceptsDict r d e f
    canonical_dict-Accepts safe d seen no_entries f k h = record {
      same = cc;
      state = tt;
      keyed = tt;
      entered = tt;
      shallow = omega arith;
    }
    canonical_dict-Accepts safe d seen (entry s v e) f k h =
        let value = canonical_value nfc safe d v in
        let others = canonical_dict nfc safe d (s ∷ seen) e in
        let (key, rest) =
          guarded-some (require_key nfc safe seen s) (both (entry s) value others) f h in
        let (w, g, here, later, whole) = both-some (entry s) value others f rest in
        let a = canonical_value-Accepts safe d v w k.1 here in
        let b = canonical_dict-Accepts safe d (s ∷ seen) e g k.2 later in
        let scalar = require_nfc-IsScalar nfc s (require_key-parts nfc safe seen s key).0 in
        record {
          same = sym whole ∙ ap (λ u. entry s u g) a.same ∙ ap (entry s v) b.same;
          state = ((scalar, k.0), a.state, b.state);
          keyed = (
            canonical_dict-seen nfc safe d (s ∷ seen) s e g later (rw (same_text s s refl) refl),
            a.keyed,
            b.keyed,
          );
          entered = enter d (nesting v) a.shallow;
          shallow = omega (arith, a.shallow, b.shallow);
        }

  -- After _canonical_value has accepted a value, where the reader decodes the written keys of the value and
  -- finds the integers below 2^53 finite: canonical_json_bytes refuses the value only if its text has more
  -- than 1,048,576 bytes, and otherwise returns the bytes of the text that encode_state writes for the
  -- same value. aep_json_member_check never answers 1 to them, and answers 0 if cjson.decode reads
  -- them.
  pub canonical_json_bytes_accepted :
      (v w : PyValue)
      → NamesRead r v
      → canonical_value nfc false 0 v ≡ some w
      → (t : Text) × (encode_state v ≡ encoded t)
        × (canonical_json_bytes nfc v ≡ limited t)
        × (aep_json_member_check r (encode_all t) ≡ finished (r.decodes (encode_all t)))
  unfolding canonical_json_bytes
  canonical_json_bytes_accepted v w k h =
      let a = canonical_value-Accepts false 0 v w k h in
      let (t, written, checked) =
        encode_state_accepted r v a.state a.keyed (omega (arith, a.shallow)) in
      (t, written, ap dumped (h ∙ ap some a.same) ∙ ap limited_bytes written, checked)
