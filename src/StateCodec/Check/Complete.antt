-- ===== src/StateCodec/Check/Complete.antt =====
use research_paper_aep.StateCodec.Check.{
  Check, aep_json_member_check, ambiguous, at_end, finished, max_depth, parse_elements,
  parse_members, parse_value, ◌>>=◌, ◌>>◌,
}
use research_paper_aep.Base.{
  Bool, List, [], ap, arith, false, if◌then◌else◌, length, length-append, refl, suc, true, zero, ℕ,
  ◌&&◌, ◌*◌, ◌++◌, ◌+◌, ◌<◌, ◌∙◌, ◌∷◌, ◌≡◌, ◌≤◌,
}
use research_paper_aep.StateCodec.{Bytes}
use research_paper_aep.StateCodec.Token.{skip_whitespace}
use research_paper_aep.StateCodec.Token.Numbers.{stops}
use research_paper_aep.StateCodec.Tree.{
  Elements, IsElements, IsJson, IsMembers, IsSpace, Json, Members, Reader, array, depth,
  depth_elements, depth_members, distinct, distinct_elements, distinct_members, empty_array,
  empty_object, has_name, last_element, last_member, next_element, next_member, number, object,
  print_elements, print_members, print_value, text, word,
}
use research_paper_aep.StateCodec.Check.Reads.{
  close_or-Begins, close_or_member, print_elements-Begins, print_value-Begins, skipped_member,
  skipped_to, skipped_value, stops_after, unspaced,
}
use research_paper_aep.StateCodec.Check.Found.{length-skip_whitespace}
use research_paper_aep.StateCodec.Tree.Lengths.{length-print_string, length-print_value}
use research_paper_aep.StateCodec.Check.Sound.{skip_whitespace_twice}
use research_paper_aep.StateCodec.Utf8.{aep_utf8_check}
use research_paper_aep.StateCodec.Check.Rounds.{
  answer, closed, comma, elements_round, if-eq, if-not-eq, if_last, member_read, number_read,
  opened-eq, parse_value-eq, text_read, word_read,
}

-- What aep_json_member_check of aep_core/core/state_codec.py answers to the text of a tree: that it is
-- good where its names are distinct, and ambiguous where they are not.

module _ (r : Reader) where
  mutual
    unfolding print_value IsJson distinct depth

    parse_value-print :
        (v : Json) (f d : ℕ) (ts k : Bytes)
        → IsJson r v
        → d + depth v ≤ max_depth
        → stops k ≡ true
        → skip_whitespace ts ≡ print_value v k
        → 2 * length ts < f
        → parse_value r f d ts ≡ answer (distinct v) k
    parse_value-print v zero d ts k j h st e b = absurd (omega arith)
    parse_value-print (word w) (suc f) d ts k j h st e b =
        parse_value-eq r f d 0 ts _ h e ∙ word_read r _ _ w k
    parse_value-print (number n) (suc f) d ts k j h st e b =
        parse_value-eq r f d 0 ts _ h e ∙ number_read r _ _ n k j.0 j.1 st
    parse_value-print (text cs) (suc f) d ts k j h st e b =
        parse_value-eq r f d 0 ts _ h e ∙ text_read r _ _ cs k j
    parse_value-print (empty_array w) (suc f) d ts k j h st e b =
        parse_value-eq r f d 0 ts _ h e
        ∙ opened-eq d 0 93 _ (w ++ 93 ∷ k) (93 ∷ k) h (skipped_to w 93 k j refl)
    parse_value-print (array w es) (suc f) d ts k j h st e b =
        let begins = print_elements-Begins r es k j.1 in
        parse_value-eq r f d _ ts _ h e
        ∙ opened-eq d _ 93 _ (w ++ print_elements es k) _ h (skipped_value w _ j.0 begins)
        ∙ close_or-Begins (λ us. parse_elements r f d us) _ begins
        ∙ parse_elements-print es f d _ k j.1 h (unspaced _ begins) (
            omega (
              arith,
              ap length e,
              length-skip_whitespace ts,
              length-append w (print_elements es k),
            ))
    parse_value-print (empty_object w) (suc f) d ts k j h st e b =
        parse_value-eq r f d 0 ts _ h e
        ∙ opened-eq d 0 125 _ (w ++ 125 ∷ k) (125 ∷ k) h (skipped_to w 125 k j refl)
    parse_value-print (object w ms) (suc f) d ts k j h st e b =
        parse_value-eq r f d _ ts _ h e
        ∙ opened-eq d _ 125 _ (w ++ print_members ms k) _ h (skipped_member w ms k j.0)
        ∙ close_or_member (λ us. parse_members r f d [] us) ms k
        ∙ parse_members-print ms f d [] k j.1 h (
            omega
              (arith, ap length e, length-skip_whitespace ts, length-append w (print_members ms k)))

    parse_elements-print :
        (es : Elements) (f d : ℕ) (ts k : Bytes)
        → IsElements r es
        → d + suc (depth_elements es) ≤ max_depth
        → skip_whitespace ts ≡ print_elements es k
        → 2 * length ts + 1 < f
        → parse_elements r f d ts ≡ answer (distinct_elements es) k
    parse_elements-print es zero d ts k j h e b = absurd (omega arith)
    parse_elements-print (last_element v w) (suc f) d ts k j h e b =
        elements_round r f d ts _ _ (
          parse_value-print v f (d + 1) ts (w ++ 93 ∷ k) j.0 (omega arith)
            (stops_after w 93 k j.1 refl) e (omega arith))
        ∙ if_last (distinct v) _ k (closed 93 (parse_elements r f d) w k j.1 refl)
    parse_elements-print (next_element v w w' es) (suc f) d ts k j h e b =
        let on = w' ++ print_elements es k in
        let begins = print_elements-Begins r es k j.3 in
        elements_round r f d ts _ _ (
          parse_value-print v f (d + 1) ts (w ++ (44 ∷ on)) j.0 (omega arith)
            (stops_after w 44 on j.1 refl) e (omega arith))
        ∙ if-eq (distinct v) _ k (distinct_elements es) (
            comma 93 (parse_elements r f d) w on j.1 refl
            ∙ parse_elements-print es f d _ k j.3 (omega arith)
                (skip_whitespace_twice on ∙ skipped_value w' _ j.2 begins)
                (omega (
                  arith,
                  ap length e,
                  length-skip_whitespace ts,
                  length-skip_whitespace on,
                  length-print_value v (w ++ (44 ∷ on)),
                  length-append w (44 ∷ on),
                )))

    parse_members-print :
        (ms : Members) (f d : ℕ) (seen : List Bytes) (k : Bytes)
        → IsMembers r ms
        → d + suc (depth_members ms) ≤ max_depth
        → 2 * length (print_members ms k) + 1 < f
        → parse_members r f d seen (print_members ms k) ≡ answer (distinct_members seen ms) k
    parse_members-print ms zero d seen k j h b = absurd (omega arith)
    parse_members-print (last_member cs s w w' v u) (suc f) d seen k j h b =
        let on = u ++ 125 ∷ k in
        let value = w' ++ print_value v on in
        member_read r f d seen cs s w value on _ j.0 j.1 j.2 (
          parse_value-print v f (d + 1) value on j.4 (omega arith) (stops_after u 125 k j.5 refl)
            (skipped_value w' _ j.3 (print_value-Begins r v on j.4))
            (omega
              (arith, length-print_string cs (w ++ (58 ∷ value)), length-append w (58 ∷ value))))
        ∙ if-not-eq (has_name s seen) _ k (distinct v)
            (if_last (distinct v) _ k (closed 125 (parse_members r f d (s ∷ seen)) u k j.5 refl))
    parse_members-print (next_member cs s w w' v u u' ms) (suc f) d seen k j h b =
        let more = u' ++ print_members ms k in
        let on = u ++ (44 ∷ more) in
        let value = w' ++ print_value v on in
        let short : 2 * length value + 1 < f =
          omega (arith, length-print_string cs (w ++ (58 ∷ value)), length-append w (58 ∷ value)) in
        member_read r f d seen cs s w value on _ j.0 j.1 j.2 (
          parse_value-print v f (d + 1) value on j.4 (omega arith) (stops_after u 44 more j.5 refl)
            (skipped_value w' _ j.3 (print_value-Begins r v on j.4)) (omega arith))
        ∙ if-not-eq (has_name s seen) _ k (distinct v && distinct_members (s ∷ seen) ms) (
            if-eq (distinct v) _ k (distinct_members (s ∷ seen) ms) (
              comma 125 (parse_members r f d (s ∷ seen)) u more j.5 refl
              ∙ ap (parse_members r f d (s ∷ seen)) (skipped_member u' ms k j.6)
              ∙ parse_members-print ms f d (s ∷ seen) k j.7 (omega arith) (
                  omega (
                    arith,
                    length-append w' (print_value v on),
                    length-print_value v on,
                    length-append u (44 ∷ more),
                    length-append u' (print_members ms k),
                  ))))

-- What the check reads: UTF-8 with one value of JSON, nested at most max_depth deep, between white
-- space.
pub record IsTextOf (r : Reader) (v : Json) (raw : Bytes) : Type 0 where
  pub encoded : aep_utf8_check raw ≡ true
  pub before : Bytes
  pub behind : Bytes
  pub before-IsSpace : IsSpace before
  pub behind-IsSpace : IsSpace behind
  pub legal : IsJson r v
  pub within_depth : depth v ≤ max_depth
  pub whole : raw ≡ before ++ print_value v behind

stops_space : (w : Bytes) → IsSpace w → stops w ≡ true
stops_space [] p = refl
stops_space (b ∷ w) p = ground arith

pub skip_all : (w : Bytes) → IsSpace w → skip_whitespace w ≡ []
unfolding skip_whitespace
skip_all [] p = refl
skip_all (b ∷ w) p = rw p.0 (skip_all w p.1)

value_read :
    (r : Reader) (v : Json) (raw : Bytes) (t : IsTextOf r v raw)
    → parse_value r (2 * length raw + 1) 0 (skip_whitespace raw) ≡ answer (distinct v) t.behind
value_read r v raw t =
    let begins = print_value-Begins r v t.behind t.legal in
    let found = ap skip_whitespace t.whole ∙ skipped_value t.before _ t.before-IsSpace begins in
    parse_value-print r v _ 0 _ t.behind t.legal (omega (arith, t.within_depth))
      (stops_space t.behind t.behind-IsSpace) (skip_whitespace_twice raw ∙ found)
      (omega (arith, length-skip_whitespace raw))

-- 0 or -1 by the last call, of cjson.decode, and 1 where a name is repeated.
abbrev pub verdict : Bool → Bool → Check (Unit {0})
verdict names_differ decodes = if names_differ then finished decodes else ambiguous

check_ends :
    (names_differ decodes : Bool) (w : Bytes)
    → IsSpace w
    → (answer names_differ w >>= λ left. at_end (skip_whitespace left) >> finished decodes)
      ≡ verdict names_differ decodes
check_ends true decodes w p = rw (skip_all w p) refl
check_ends false decodes w p = refl

-- To one value of JSON in UTF-8, nested at most 128 deep and between white space, each of whose
-- names and numbers cjson.decode and tonumber read, the check answers 1 where some object of it
-- has two members of one name, and otherwise 0 or -1 as cjson.decode reads the whole or does not.
pub aep_json_member_check-verdict :
    (r : Reader) (v : Json) (raw : Bytes)
    → IsTextOf r v raw
    → aep_json_member_check r raw ≡ verdict (distinct v) (r.decodes raw)
unfolding aep_json_member_check
aep_json_member_check-verdict r v raw t =
    rw (t.encoded, value_read r v raw t)
      (check_ends (distinct v) (r.decodes raw) t.behind t.behind-IsSpace)
