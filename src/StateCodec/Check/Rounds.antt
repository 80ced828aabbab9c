-- ===== src/StateCodec/Check/Rounds.antt =====
use research_paper_aep.StateCodec.Check.{
  Check, ambiguous, by_first_byte, close_or, close_or_comma, good, max_depth, opened,
  parse_elements, parse_members, parse_value, required, scalar, strip, ◌>>=◌, ◌>>◌,
}
use research_paper_aep.Base.{
  All, Bool, List, [], ap, arith, false, if◌then◌else◌, ltb, nat_eq, nat_eq_refl, not, refl, some,
  suc, sym, true, ℕ, ◌&&◌, ◌++◌, ◌+◌, ◌∙◌, ◌∷◌, ◌≡◌, ◌≤◌,
}
use research_paper_aep.StateCodec.{Bytes}
use research_paper_aep.StateCodec.Token.{is_space, parse_name, parse_number, skip_whitespace}
use research_paper_aep.StateCodec.Token.Strings.{
  Char, IsChar, parse_name-print_string, parse_string-print_string, print_string,
}
use research_paper_aep.StateCodec.Token.Numbers.{IsNumber, Number, print_number, stops}
use research_paper_aep.StateCodec.Token.Numbers.Complete.{parse_number-print_number}
use research_paper_aep.StateCodec.Tree.{
  IsSpace, Reader, Word, false_word, has_name, null_word, print_word, true_word,
}
use research_paper_aep.StateCodec.Check.Reads.{print_number_byte, scalar_number, skipped_to}

-- The rounds of the readers of aep_core/core/state_codec.py on printed values, one at a time.

abbrev pub answer : Bool → Bytes → Check Bytes
answer b k = if b then good k else ambiguous

pub answer-bind :
    (b : Bool) (k : Bytes) (f : Bytes → Check Bytes)
    → (answer b k >>= f) ≡ (if b then f k else ambiguous)
answer-bind true k f = refl
answer-bind false k f = refl

pub shallow : (d n : ℕ) → d + n ≤ max_depth → ltb max_depth d ≡ false
shallow d n h = ground arith

pub opened-eq :
    (d n close : ℕ) (loop : Bytes → Check Bytes) (ts us : Bytes)
    → d + n ≤ max_depth
    → skip_whitespace ts ≡ us
    → opened d close loop ts ≡ close_or close loop us
unfolding opened
opened-eq d n close loop ts us h e = rw (opened, shallow d n h, e) refl

pub parse_value-eq :
    (r : Reader) (f d n : ℕ) (ts us : Bytes)
    → d + n ≤ max_depth
    → skip_whitespace ts ≡ us
    → parse_value r (suc f) d ts
      ≡ by_first_byte r
          (opened d 125 (λ k. parse_members r f d [] k))
          (opened d 93 (λ k. parse_elements r f d k))
          us
unfolding parse_value
parse_value-eq r f d n ts us h e = rw (parse_value, shallow d n h, e) refl

-- The end of a round, after a value.
pub closed :
    (close : ℕ) (again : Bytes → Check Bytes) (w k : Bytes)
    → IsSpace w
    → is_space close ≡ false
    → close_or_comma close again (skip_whitespace (w ++ close ∷ k)) ≡ good k
closed close again w k p e = rw (skipped_to w close k p e, nat_eq_refl close) refl

pub comma :
    (close : ℕ) (again : Bytes → Check Bytes) (w k : Bytes)
    → IsSpace w
    → nat_eq 44 close ≡ false
    → close_or_comma close again (skip_whitespace (w ++ 44 ∷ k)) ≡ again (skip_whitespace k)
comma close again w k p e = rw (skipped_to w 44 k p refl, e) refl

pub if-eq :
    (b : Bool) (m : Check Bytes) (n : Bytes) (c : Bool)
    → m ≡ answer c n
    → (if b then m else ambiguous) ≡ answer (b && c) n
if-eq true m n c e = e
if-eq false m n c e = refl

pub if-not-eq :
    (b : Bool) (m : Check Bytes) (n : Bytes) (c : Bool)
    → m ≡ answer c n
    → (if b then ambiguous else m) ≡ answer (not b && c) n
if-not-eq true m n c e = refl
if-not-eq false m n c e = e

pub if_last :
    (b : Bool) (m : Check Bytes) (n : Bytes)
    → m ≡ good n
    → (if b then m else ambiguous) ≡ answer b n
if_last true m n e = e
if_last false m n e = refl

module _ (r : Reader) where
  pub word_read :
      (braces brackets : Bytes → Check Bytes) (w : Word) (k : Bytes)
      → by_first_byte r braces brackets (print_word w ++ k) ≡ good k
  unfolding scalar strip
  word_read braces brackets true_word k = refl
  word_read braces brackets false_word k = refl
  word_read braces brackets null_word k = refl

  pub text_read :
      (braces brackets : Bytes → Check Bytes) (cs : List Char) (k : Bytes)
      → All IsChar cs
      → by_first_byte r braces brackets (print_string cs k) ≡ good k
  unfolding scalar print_string
  text_read braces brackets cs k p = ap required (parse_string-print_string cs k p)

  pub number_read :
      (braces brackets : Bytes → Check Bytes) (n : Number) (k : Bytes)
      → IsNumber n
      → r.finite (print_number n []) ≡ true
      → stops k ≡ true
      → by_first_byte r braces brackets (print_number n k) ≡ good k
  number_read braces brackets n k ok f st =
      let (c, t, q, p) = print_number_byte n k ok in
      ap (by_first_byte r braces brackets) q
      ∙ scalar_number r braces brackets c t p
      ∙ ap (λ ks. required (parse_number r.finite ks)) (sym q)
      ∙ ap required (parse_number-print_number r.finite n k ok f st)

  pub elements_round :
      (f d : ℕ) (ts left : Bytes) (good_names : Bool)
      → parse_value r f (d + 1) ts ≡ answer good_names left
      → parse_elements r (suc f) d ts ≡ (
          if good_names
          then close_or_comma 93 (λ k. parse_elements r f d k) (skip_whitespace left)
          else ambiguous)
  unfolding parse_value
  elements_round f d ts left good_names e = rw (parse_elements, e) (answer-bind good_names left _)

  members_round :
      (f d : ℕ) (seen : List Bytes) (s : Bytes) (ts named value left : Bytes) (good_names : Bool)
      → parse_name r.decode_name ts ≡ some (s, named)
      → skip_whitespace named ≡ 58 ∷ value
      → parse_value r f (d + 1) value ≡ answer good_names left
      → parse_members r (suc f) d seen ts ≡ (
          if has_name s seen
          then ambiguous
          else (if good_names
              then close_or_comma 125 (λ k. parse_members r f d (s ∷ seen) k) (skip_whitespace left)
              else ambiguous))
  unfolding parse_value
  members_round f d seen s ts named value left good_names p q e =
      rw (parse_members, p, q, e) (split (has_name s seen))
    where
      split :
          (b : Bool)
          → ((if b then ambiguous else good tt)
              >> (answer good_names left >>= λ left'.
                  close_or_comma 125
                    (λ k. parse_members r f d (s ∷ seen) k)
                    (skip_whitespace left')))
            ≡ (if b
                then ambiguous
                else (if good_names
                    then close_or_comma 125
                        (λ k. parse_members r f d (s ∷ seen) k)
                        (skip_whitespace left)
                    else ambiguous))
      split true = refl
      split false = answer-bind good_names left _

  pub member_read :
      (f d : ℕ) (seen : List Bytes) (cs : List Char) (s : Bytes) (w value left : Bytes)
      (good_names : Bool)
      → All IsChar cs
      → r.decode_name (print_string cs []) ≡ some s
      → IsSpace w
      → parse_value r f (d + 1) value ≡ answer good_names left
      → parse_members r (suc f) d seen (print_string cs (w ++ (58 ∷ value))) ≡ (
          if has_name s seen
          then ambiguous
          else (if good_names
              then close_or_comma 125 (λ k. parse_members r f d (s ∷ seen) k) (skip_whitespace left)
              else ambiguous))
  member_read f d seen cs s w value left good_names chars name p e =
      members_round f d seen s _ (w ++ (58 ∷ value)) value left good_names
        (parse_name-print_string r.decode_name cs _ s chars name) (skipped_to w 58 value p refl) e
