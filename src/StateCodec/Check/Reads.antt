-- ===== src/StateCodec/Check/Reads.antt =====
use research_paper_aep.StateCodec.Check.{
  Check, by_first_byte, close_or, number_or_none, required, scalar, strip,
}
use research_paper_aep.Base.{
  Bool, [], arith, false, inl, inr, nat_eq, refl, true, ℕ, ◌++◌, ◌||◌, ◌∙◌, ◌∷◌, ◌≡◌,
}
use research_paper_aep.StateCodec.{Bytes}
use research_paper_aep.StateCodec.Token.{is_digit, is_space, parse_number, skip_whitespace}
use research_paper_aep.StateCodec.Token.Strings.{print_string}
use research_paper_aep.StateCodec.Token.Numbers.{
  IsNumber, IsWhole, Number, print_number, print_sign, stops,
}
use research_paper_aep.StateCodec.Tree.{
  Elements, IsElements, IsJson, IsSpace, Json, Members, Reader, array, empty_array, empty_object,
  false_word, last_element, last_member, next_element, next_member, null_word, number, object,
  print_elements, print_members, print_value, text, true_word, word,
}

-- How the readers of aep_core/core/state_codec.py meet printed trees: white space, first bytes, and
-- what stands after a value.

pub skip_whitespace-append :
    (w us : Bytes) → IsSpace w → skip_whitespace (w ++ us) ≡ skip_whitespace us
unfolding skip_whitespace
skip_whitespace-append [] us p = refl
skip_whitespace-append (b ∷ w) us p = rw p.0 (skip_whitespace-append w us p.1)

skip_whitespace_dark : (b : ℕ) (k : Bytes) → is_space b ≡ false → skip_whitespace (b ∷ k) ≡ b ∷ k
unfolding skip_whitespace
skip_whitespace_dark b k e = rw e refl

pub skipped_to :
    (w : Bytes) (b : ℕ) (k : Bytes)
    → IsSpace w
    → is_space b ≡ false
    → skip_whitespace (w ++ b ∷ k) ≡ b ∷ k
skipped_to w b k p e = skip_whitespace-append w (b ∷ k) p ∙ skip_whitespace_dark b k e

-- A number does not go on into the space or the mark after a value.
pub stops_after :
    (w : Bytes) (b : ℕ) (k : Bytes) → IsSpace w → stops (b ∷ k) ≡ true → stops (w ++ b ∷ k) ≡ true
stops_after [] b k p e = e
stops_after (c ∷ w) b k p e = ground arith

-- The first byte of a value.
pub record Begins (ts : Bytes) : Type 0 where
  pub byte : ℕ
  pub after : Bytes
  pub whole : ts ≡ byte ∷ after
  pub dark : is_space byte ≡ false
  pub not_closing : nat_eq byte 93 ≡ false

number_byte :
    (s : Bool) (lead : ℕ) (digits k : Bytes)
    → IsWhole lead digits
    → (b : ℕ) × (t : Bytes) × (print_sign s (lead ∷ k) ≡ b ∷ t)
      × ((nat_eq b 45 || is_digit b) ≡ true)
unfolding print_sign
number_byte true lead digits k w = (45, lead ∷ k, refl, refl)
number_byte false lead digits k (inl w) = (lead, k, refl, ground arith)
number_byte false lead digits k (inr w) = (lead, k, refl, ground arith)

pub print_number_byte :
    (n : Number) (k : Bytes)
    → IsNumber n
    → (b : ℕ) × (t : Bytes) × (print_number n k ≡ b ∷ t) × ((nat_eq b 45 || is_digit b) ≡ true)
unfolding print_number
print_number_byte n k ok = number_byte n.negative n.lead n.digits _ ok.whole

pub print_value-Begins : (r : Reader) (v : Json) (k : Bytes) → IsJson r v → Begins (print_value v k)
unfolding print_value IsJson print_string
print_value-Begins r (word true_word) k j = record {
  byte = 116;
  after = _;
  whole = refl;
  dark = refl;
  not_closing = refl;
}
print_value-Begins r (word false_word) k j = record {
  byte = 102;
  after = _;
  whole = refl;
  dark = refl;
  not_closing = refl;
}
print_value-Begins r (word null_word) k j = record {
  byte = 110;
  after = _;
  whole = refl;
  dark = refl;
  not_closing = refl;
}
print_value-Begins r (number n) k j =
    let (b, t, e, p) = print_number_byte n k j.0 in
    record { byte = b; after = t; whole = e; dark = ground arith; not_closing = ground arith }
print_value-Begins r (text cs) k j = record {
  byte = 34;
  after = _;
  whole = refl;
  dark = refl;
  not_closing = refl;
}
print_value-Begins r (empty_array w) k j = record {
  byte = 91;
  after = _;
  whole = refl;
  dark = refl;
  not_closing = refl;
}
print_value-Begins r (array w es) k j = record {
  byte = 91;
  after = _;
  whole = refl;
  dark = refl;
  not_closing = refl;
}
print_value-Begins r (empty_object w) k j = record {
  byte = 123;
  after = _;
  whole = refl;
  dark = refl;
  not_closing = refl;
}
print_value-Begins r (object w ms) k j = record {
  byte = 123;
  after = _;
  whole = refl;
  dark = refl;
  not_closing = refl;
}

pub print_elements-Begins :
    (r : Reader) (es : Elements) (k : Bytes) → IsElements r es → Begins (print_elements es k)
unfolding print_value IsJson
print_elements-Begins r (last_element v w) k j = print_value-Begins r v _ j.0
print_elements-Begins r (next_element v w w' es) k j = print_value-Begins r v _ j.0

pub unspaced : (ts : Bytes) → Begins ts → skip_whitespace ts ≡ ts
unfolding skip_whitespace
unspaced [] p = refl
unspaced (b ∷ k) p = let e : is_space b ≡ false = ground (arith, p.whole, p.dark) in rw e refl

pub skipped_value : (w ts : Bytes) → IsSpace w → Begins ts → skip_whitespace (w ++ ts) ≡ ts
skipped_value w ts p b = skip_whitespace-append w ts p ∙ unspaced ts b

pub close_or-Begins :
    (loop : Bytes → Check Bytes) (ts : Bytes) → Begins ts → close_or 93 loop ts ≡ loop ts
close_or-Begins loop [] p = cc (p.whole)
close_or-Begins loop (b ∷ k) p =
    let e : nat_eq b 93 ≡ false = ground (arith, p.whole, p.not_closing) in rw e refl

pub scalar_number :
    (r : Reader) (braces brackets : Bytes → Check Bytes) (b : ℕ) (k : Bytes)
    → (nat_eq b 45 || is_digit b) ≡ true
    → by_first_byte r braces brackets (b ∷ k) ≡ required (parse_number r.finite (b ∷ k))
unfolding scalar strip number_or_none
scalar_number r braces brackets b k e = ground arith

-- The first byte of a member is a quote.
pub skipped_member :
    (w : Bytes) (ms : Members) (k : Bytes)
    → IsSpace w
    → skip_whitespace (w ++ print_members ms k) ≡ print_members ms k
unfolding print_value print_string
skipped_member w (last_member cs s x x' v u) k p = skipped_to w 34 _ p refl
skipped_member w (next_member cs s x x' v u u' ms) k p = skipped_to w 34 _ p refl

pub close_or_member :
    (loop : Bytes → Check Bytes) (ms : Members) (k : Bytes)
    → close_or 125 loop (print_members ms k) ≡ loop (print_members ms k)
unfolding print_value print_string
close_or_member loop (last_member cs s x x' v u) k = refl
close_or_member loop (next_member cs s x x' v u u' ms) k = refl
