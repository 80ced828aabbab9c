-- ===== src/StateCodec/Check/Found.antt =====
use research_paper_aep.Base.{
  Bool, Bool-cases, List, Option, [], ap, arith, false, if◌then◌else◌, inl, inr, length, nat_eq,
  none, refl, some, true, ℕ, ◌++◌, ◌+◌, ◌||◌, ◌∷◌, ◌≡◌, ◌≤◌,
}
use research_paper_aep.StateCodec.{Bytes}
use research_paper_aep.StateCodec.Token.{
  is_digit, is_space, parse_number, parse_string, skip_whitespace,
}
use research_paper_aep.StateCodec.Token.Strings.{parse_string_sound}
use research_paper_aep.StateCodec.Tree.{
  IsJson, IsSpace, Json, Reader, Word, depth, distinct, false_word, has_name, null_word, number,
  print_value, print_word, text, true_word, word,
}
use research_paper_aep.StateCodec.Check.{
  Check, ambiguous, expect, good, invalid, max_depth, number_or_none, or_else, required, scalar,
  strip, unseen, ◌>>=◌,
}
use research_paper_aep.StateCodec.Token.Numbers.{parse_number_sound}

-- What the parts of aep_json_member_check of aep_core/core/state_codec.py find, where they go on:
-- a legal tree, and never an empty fuel.

pub skipped : (ts : Bytes) → (w : Bytes) × IsSpace w × (ts ≡ w ++ skip_whitespace ts)
unfolding skip_whitespace
skipped [] = ([], tt, refl)
skipped (b ∷ ts) = elim (Bool-cases (is_space b)) [
  | inl e ↦ let (w, p, q) = skipped ts in (b ∷ w, (e, p), rw e (ap (λ ks. b ∷ ks) q))
  | inr e ↦ ([], tt, rw e refl)
]

pub length-skip_whitespace : (ts : Bytes) → length (skip_whitespace ts) ≤ length ts
unfolding skip_whitespace
length-skip_whitespace [] = omega arith
length-skip_whitespace (b ∷ ts) = ground (arith, length-skip_whitespace ts)

-- The answer is not out_of_fuel, and what is left has the property.
pub data Ensures {A : Type 0} (P : A → Type 0) : Check A → Type 0 where
  holds : {a : A} → P a → Ensures P (good a)
  is_invalid : Ensures P invalid
  is_ambiguous : Ensures P ambiguous

pub Ensures-bind :
    {A B : Type 0} {P : A → Type 0} {Q : B → Type 0} {m : Check A} {f : A → Check B}
    → Ensures P m
    → ((a : A) → P a → Ensures Q (f a))
    → Ensures Q (m >>= f)
Ensures-bind (holds p) q = q _ p
Ensures-bind is_invalid q = is_invalid
Ensures-bind is_ambiguous q = is_ambiguous

pub Ensures-map :
    {A : Type 0} {P Q : A → Type 0} {m : Check A}
    → Ensures P m
    → ((a : A) → P a → Q a)
    → Ensures Q m
Ensures-map (holds p) q = holds (q _ p)
Ensures-map is_invalid q = is_invalid
Ensures-map is_ambiguous q = is_ambiguous

pub Ensures-if :
    {A : Type 0} {P : A → Type 0} (b : Bool) {m n : Check A}
    → (b ≡ true → Ensures P m)
    → (b ≡ false → Ensures P n)
    → Ensures P (if b then m else n)
Ensures-if true p q = p refl
Ensures-if false p q = q refl

pub Ensures-required : {A : Type 0} (o : Option A) → Ensures (λ a. o ≡ some a) (required o)
Ensures-required none = is_invalid
Ensures-required (some a) = holds refl

pub Ensures-unseen :
    (s : Bytes) (seen : List Bytes) → Ensures (λ _. has_name s seen ≡ false) (unseen s seen)
Ensures-unseen s seen = Ensures-if (has_name s seen) (λ _. is_ambiguous) (λ e. holds e)

pub expect_sound : (b : ℕ) (ts k : Bytes) → expect b ts ≡ some k → ts ≡ b ∷ k
expect_sound b [] k h = cc
expect_sound b (c ∷ ts) k h = ground arith

strip_sound : (bs ts k : Bytes) → strip bs ts ≡ some k → ts ≡ bs ++ k
unfolding strip
strip_sound [] ts k h = ground arith
strip_sound (b ∷ bs) [] k h = cc
strip_sound (b ∷ bs) (c ∷ ts) k h = ground (arith, strip_sound bs ts k)

Ensures-or_else :
    {P : Bytes → Type 0} (o : Option Bytes) {m : Check Bytes}
    → ((k : Bytes) → o ≡ some k → P k)
    → Ensures P m
    → Ensures P (or_else o m)
Ensures-or_else none p q = q
Ensures-or_else (some k) p q = holds (p k refl)

-- What a reader of values has found: a legal tree with distinct names whose bytes stood there.
abbrev pub IsFound : Reader → ℕ → Bytes → Bytes → Type 0
IsFound r d ts k =
    (v : Json) × IsJson r v
    × (distinct v ≡ true)
    × (d + depth v ≤ max_depth)
    × (ts ≡ print_value v k)

module _ (r : Reader) (d : ℕ) (h : d ≤ max_depth) where
  IsFound-word : (w : Word) (ts k : Bytes) → strip (print_word w) ts ≡ some k → IsFound r d ts k
  unfolding print_value IsJson distinct depth
  IsFound-word w ts k e = (word w, tt, refl, omega arith, strip_sound (print_word w) ts k e)

  IsFound-text : (ts : Bytes) → Ensures (IsFound r d ts) (required (parse_string ts))
  unfolding print_value IsJson distinct depth
  IsFound-text ts =
      Ensures-map (Ensures-required (parse_string ts))
        λ k e. let (cs, p, q) = parse_string_sound ts k e in (text cs, p, refl, omega arith, q)

  IsFound-number : (ts : Bytes) → Ensures (IsFound r d ts) (number_or_none r ts)
  unfolding print_value IsJson distinct depth number_or_none
  IsFound-number [] = is_invalid
  IsFound-number (b ∷ ts) =
      Ensures-if (nat_eq b 45 || is_digit b)
        (λ _. Ensures-map (Ensures-required (parse_number r.finite (b ∷ ts))) λ k e.
          let (n, p, q, t) = parse_number_sound r.finite (b ∷ ts) k e in
          (number n, (p, q), refl, omega arith, t))
        (λ _. is_invalid)

  pub scalar-Ensures : (b : ℕ) (ts : Bytes) → Ensures (IsFound r d (b ∷ ts)) (scalar r b ts)
  unfolding scalar
  scalar-Ensures b ts =
      Ensures-if (nat_eq b 34) (λ _. IsFound-text (b ∷ ts))
        (λ _. Ensures-or_else _ (IsFound-word true_word (b ∷ ts)) (
          Ensures-or_else _ (IsFound-word false_word (b ∷ ts))
            (Ensures-or_else _ (IsFound-word null_word (b ∷ ts)) (IsFound-number (b ∷ ts)))))
