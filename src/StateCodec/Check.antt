-- ===== src/StateCodec/Check.antt =====
-- aep_json_member_check of aep_core/core/state_codec.py: the recursive descent over the raw bytes.
pub mod Found
pub mod Sound
pub mod Reads
pub mod Rounds
pub mod Complete
pub mod Exact
use research_paper_aep.Base.{
  Bool, List, Option, [], if◌then◌else◌, length, ltb, nat_eq, none, some, suc, zero, ℕ, ◌*◌, ◌+◌,
  ◌||◌, ◌∷◌,
}
use research_paper_aep.StateCodec.{Bytes}
use research_paper_aep.StateCodec.Utf8.{aep_utf8_check}
use research_paper_aep.StateCodec.Token.{
  is_digit, parse_name, parse_number, parse_string, skip_whitespace,
}
use research_paper_aep.StateCodec.Tree.{
  Reader, depth, false_word, has_name, null_word, print_word, true_word,
}

-- What a reader answers: the bytes that are left, for its 0; invalid for its -1; ambiguous for 1.
pub data Check {ℓ} (A : Type ℓ) : Type ℓ where
  good : A → Check A
  invalid ambiguous out_of_fuel : Check A

infixl 5 ◌>>=◌ ◌>>◌
abbrev pub ◌>>=◌ {ℓ κ} : {A : Type ℓ} {B : Type κ} → Check A → (A → Check B) → Check B
good a >>= f = f a
invalid >>= f = invalid
ambiguous >>= f = ambiguous
out_of_fuel >>= f = out_of_fuel

abbrev pub ◌>>◌ {ℓ} : {B : Type ℓ} → Check (Unit {0}) → Check B → Check B
m >> k = m >>= λ _. k

-- if not ok then return -1 end
abbrev pub required {ℓ} : {A : Type ℓ} → Option A → Check A
required none = invalid
required (some a) = good a

-- if seen[name] then return 1 end
abbrev pub unseen : Bytes → List Bytes → Check (Unit {0})
unseen s seen = if has_name s seen then ambiguous else good tt

-- if byte_at(position) ~= b then return -1 end
abbrev pub expect : ℕ → Bytes → Option Bytes
expect b [] = none
expect b (c ∷ k) = if nat_eq c b then some k else none

-- string.sub(raw, position, ...) == a word
unfoldable pub strip : Bytes → Bytes → Option Bytes
strip [] ts = some ts
strip (b ∷ bs) [] = none
strip (b ∷ bs) (c ∷ ts) = if nat_eq c b then strip bs ts else none

unfoldable pub number_or_none : Reader → Bytes → Check Bytes
number_or_none r [] = invalid
number_or_none r (b ∷ k) =
    if nat_eq b 45 || is_digit b then required (parse_number r.finite (b ∷ k)) else invalid

abbrev pub or_else : Option Bytes → Check Bytes → Check Bytes
or_else none other = other
or_else (some k) other = good k

-- The branches of parse_value but the first two. The words differ in their first bytes, which the
-- source compares before it compares the words.
unfoldable pub scalar : Reader → ℕ → Bytes → Check Bytes
unfolding strip number_or_none
scalar r b k =
    if nat_eq b 34
    then required (parse_string (b ∷ k))
    else or_else (strip (print_word true_word) (b ∷ k)) (
        or_else (strip (print_word false_word) (b ∷ k))
          (or_else (strip (print_word null_word) (b ∷ k)) (number_or_none r (b ∷ k))))

-- local max_depth
abbrev pub max_depth : ℕ
max_depth = 128

-- parse_object and parse_array up to their loops, after the bracket.
abbrev pub close_or : ℕ → (Bytes → Check Bytes) → Bytes → Check Bytes
close_or close loop [] = invalid
close_or close loop (b ∷ k) = if nat_eq b close then good k else loop (b ∷ k)

unfoldable pub opened : ℕ → ℕ → (Bytes → Check Bytes) → Bytes → Check Bytes
opened depth close loop ts =
    if ltb max_depth depth then invalid else close_or close loop (skip_whitespace ts)

-- The end of a round of either loop: the closing bracket, or a comma and the next round.
abbrev pub close_or_comma : ℕ → (Bytes → Check Bytes) → Bytes → Check Bytes
close_or_comma close again [] = invalid
close_or_comma close again (b ∷ k) =
    if nat_eq b close then good k else if nat_eq b 44 then again (skip_whitespace k) else invalid

-- The two brackets, and what else may begin a value.
abbrev pub by_first_byte :
    Reader → (Bytes → Check Bytes) → (Bytes → Check Bytes) → Bytes → Check Bytes
by_first_byte r braces brackets [] = invalid
by_first_byte r braces brackets (b ∷ k) =
    if nat_eq b 123 then braces k else if nat_eq b 91 then brackets k else scalar r b k

-- The loops end at the end of the bytes: no name and no value begins there.
unfoldable mutual
  unfolding opened scalar

  pub parse_value : Reader → ℕ → ℕ → Bytes → Check Bytes
  parse_value r zero d ts = out_of_fuel
  parse_value r (suc f) d ts =
      if ltb max_depth d
      then invalid
      else by_first_byte r (opened d 125 (λ k. parse_members r f d [] k))
          (opened d 93 (λ k. parse_elements r f d k)) (skip_whitespace ts)

  -- The loop of parse_object.
  pub parse_members : Reader → ℕ → ℕ → List Bytes → Bytes → Check Bytes
  parse_members r zero d seen ts = out_of_fuel
  parse_members r (suc f) d seen ts = do
    (s, named) ← required (parse_name r.decode_name ts)
    unseen s seen
    value ← required (expect 58 (skip_whitespace named))
    left ← parse_value r f (d + 1) value
    close_or_comma 125 (λ k. parse_members r f d (s ∷ seen) k) (skip_whitespace left)

  -- The loop of parse_array.
  pub parse_elements : Reader → ℕ → ℕ → Bytes → Check Bytes
  parse_elements r zero d ts = out_of_fuel
  parse_elements r (suc f) d ts = do
    left ← parse_value r f (d + 1) ts
    close_or_comma 93 (λ k. parse_elements r f d k) (skip_whitespace left)

abbrev pub at_end : Bytes → Check (Unit {0})
at_end [] = good tt
at_end (b ∷ k) = invalid

-- if not ok then return -1 end; return 0
abbrev pub finished : Bool → Check (Unit {0})
finished ok = if ok then good tt else invalid

-- The fuel is twice the bytes and one; the calls never run out of it.
unfoldable pub aep_json_member_check : Reader → Bytes → Check (Unit {0})
aep_json_member_check r raw =
    if aep_utf8_check raw
    then (do
      left ← parse_value r (2 * length raw + 1) 0 (skip_whitespace raw)
      at_end (skip_whitespace left)
      finished (r.decodes raw))
    else invalid
