-- ===== src/StateCodec/Token/Numbers/Complete.antt =====
use research_paper_aep.Base.{
  All, Bool, List, [], ap, arith, false, inl, inr, refl, some, true, ℕ, ◌++◌, ◌∙◌, ◌∷◌, ◌≡◌,
}
use research_paper_aep.StateCodec.{Bytes}
use research_paper_aep.StateCodec.Token.{
  exponent, exponent_sign, fraction, integer, minus, parse_number, skip_digits, some_digits,
  starts_digit, token,
}
use research_paper_aep.StateCodec.Token.Numbers.{
  IsDigit, IsNumber, IsPower, IsWhole, Number, Power, no_power, power, print_decimals, print_number,
  print_power, print_sign, stops, token-print_number,
}

-- parse_number of aep_core/core/state_codec.py reads what is printed, where nothing goes on with it.

skip_digits_complete :
    (ds : List ℕ) (k : Bytes) → All IsDigit ds → starts_digit k ≡ false → skip_digits (ds ++ k) ≡ k
unfolding skip_digits
skip_digits_complete [] [] ps h = refl
skip_digits_complete [] (b ∷ k) ps h = rw h refl
skip_digits_complete (d ∷ ds) k ps h = rw ps.0 (skip_digits_complete ds k ps.1 h)

stops_digits : (k : Bytes) → stops k ≡ true → starts_digit k ≡ false
stops_digits [] h = refl
stops_digits (b ∷ k) h = ground arith

exponent_complete :
    (p : Power) (k : Bytes) → IsPower p → stops k ≡ true → exponent (print_power p k) ≡ some k
unfolding exponent print_power exponent_sign some_digits
exponent_complete no_power [] p h = refl
exponent_complete no_power (b ∷ k) p h = ground arith
exponent_complete (power mark [] d ds) k p h =
    ground (arith, skip_digits_complete ds k p.2 (stops_digits k h))
exponent_complete (power mark (sign ∷ []) d ds) k p h =
    ground (arith, skip_digits_complete ds k p.2 (stops_digits k h))
exponent_complete (power mark (_ ∷ _ ∷ _) d ds) k p h = absurd p

-- What follows the digits of a number: no digit and, after the whole part, no point.
power_digits :
    (p : Power) (k : Bytes) → IsPower p → stops k ≡ true → starts_digit (print_power p k) ≡ false
unfolding print_power
power_digits no_power k p h = stops_digits k h
power_digits (power mark [] d ds) k p h = ground arith
power_digits (power mark (sign ∷ []) d ds) k p h = ground arith
power_digits (power mark (_ ∷ _ ∷ _) d ds) k p h = absurd p

no_point :
    (p : Power) (k : Bytes)
    → IsPower p
    → stops k ≡ true
    → fraction (print_power p k) ≡ some (print_power p k)
unfolding print_power fraction
no_point no_power [] p h = refl
no_point no_power (b ∷ k) p h = ground arith
no_point (power mark [] d ds) k p h = ground arith
no_point (power mark (sign ∷ []) d ds) k p h = ground arith
no_point (power mark (_ ∷ _ ∷ _) d ds) k p h = absurd p

fraction_complete :
    (ds : List ℕ) (k : Bytes)
    → All IsDigit ds
    → starts_digit k ≡ false
    → fraction k ≡ some k
    → fraction (print_decimals ds k) ≡ some k
unfolding print_decimals
fraction_complete [] k ps h g = g
fraction_complete (d ∷ ds) k ps h g =
    unfold fraction some_digits in rw ps.0 (ap some (skip_digits_complete ds k ps.1 h))

decimals_digits :
    (ds : List ℕ) (k : Bytes) → starts_digit k ≡ false → starts_digit (print_decimals ds k) ≡ false
unfolding print_decimals
decimals_digits [] k h = h
decimals_digits (d ∷ ds) k h = refl

integer_complete :
    (lead : ℕ) (digits : List ℕ) (k : Bytes)
    → IsWhole lead digits
    → starts_digit k ≡ false
    → integer (lead ∷ digits ++ k) ≡ some k
unfolding integer
integer_complete lead [] k (inl h) e = ground arith
integer_complete lead (d ∷ ds) k (inl h) e = cc (h.1)
integer_complete lead digits k (inr h) e = ground (arith, skip_digits_complete digits k h.1 e)

minus_complete :
    (s : Bool) (lead : ℕ) (digits : List ℕ) (k : Bytes)
    → IsWhole lead digits
    → minus (print_sign s (lead ∷ k)) ≡ lead ∷ k
unfolding minus print_sign
minus_complete true lead digits k w = refl
minus_complete false lead digits k (inl w) = ground arith
minus_complete false lead digits k (inr w) = ground arith

minus-print_number :
    (n : Number) (k : Bytes)
    → IsNumber n
    → minus (print_number n k)
      ≡ n.lead ∷ n.digits ++ print_decimals n.decimals (print_power n.power_of_ten k)
unfolding print_number
minus-print_number n k ok = minus_complete n.negative n.lead n.digits _ ok.whole

stages :
    (finite : Bytes → Bool) (ts whole part rest : Bytes)
    → integer (minus ts) ≡ some whole
    → fraction whole ≡ some part
    → exponent part ≡ some rest
    → finite (token ts rest) ≡ true
    → parse_number finite ts ≡ some rest
unfolding parse_number
stages finite ts whole part rest p q r t = rw (parse_number, p, q, r, t) refl

pub parse_number-print_number :
    (finite : Bytes → Bool) (n : Number) (k : Bytes)
    → IsNumber n
    → finite (print_number n []) ≡ true
    → stops k ≡ true
    → parse_number finite (print_number n k) ≡ some k
parse_number-print_number finite n k ok f h =
    let after = print_power n.power_of_ten k in
    let digit_free = power_digits n.power_of_ten k ok.scale h in
    let i =
      integer_complete n.lead n.digits (print_decimals n.decimals after) ok.whole
        (decimals_digits n.decimals after digit_free) in
    let r =
      fraction_complete n.decimals after ok.part digit_free
        (no_point n.power_of_ten k ok.scale h) in
    let e = exponent_complete n.power_of_ten k ok.scale h in
    stages finite (print_number n k) _ _ _ (ap integer (minus-print_number n k ok) ∙ i) r e
      (ap finite (token-print_number n k) ∙ f)
