-- ===== src/StateCodec/Token/Numbers.antt =====
pub mod Complete
use research_paper_aep.Base.{
  All, Bool, Bool-cases, List, Option, [], ap, append_assoc, arith, false, if◌then◌else◌, inl, inr,
  nat_eq, nat_eq→eq, none, not, refl, some, sym, true, ℕ, ◌++◌, ◌||◌, ◌∙◌, ◌∷◌, ◌≡◌, ◌⊎◌,
}
use research_paper_aep.StateCodec.{Bytes, within}
use research_paper_aep.StateCodec.Token.{
  and_then, exponent, exponent_sign, fraction, integer, is_digit, minus, parse_number, skip_digits,
  some_digits, token,
}
use research_paper_aep.StateCodec.Token.Strings.{token-append}

-- The numbers that parse_number of aep_core/core/state_codec.py accepts, as printed values.

pub data Power : Type 0 where
  no_power : Power
  power : ℕ → List ℕ → ℕ → List ℕ → Power

pub record Number : Type 0 where
  pub negative : Bool
  pub lead : ℕ
  pub digits : List ℕ
  pub decimals : List ℕ
  pub power_of_ten : Power

abbrev pub IsDigit : ℕ → Type 0
IsDigit b = is_digit b ≡ true

abbrev pub IsWhole : ℕ → List ℕ → Type 0
IsWhole lead digits =
    ((lead ≡ 48) × (digits ≡ [])) ⊎ ((within 49 57 lead ≡ true) × All IsDigit digits)

-- The mark is e or E, and the sign is absent, + or -.
abbrev pub IsPower : Power → Type 0
IsPower no_power = Unit
IsPower (power mark [] d ds) = ((mark ≡ 69) ⊎ (mark ≡ 101)) × IsDigit d × All IsDigit ds
IsPower (power mark (sign ∷ []) d ds) =
    ((mark ≡ 69) ⊎ (mark ≡ 101)) × IsDigit d × All IsDigit ds × ((sign ≡ 43) ⊎ (sign ≡ 45))
IsPower (power mark (_ ∷ _ ∷ _) d ds) = ⊥

pub record IsNumber (n : Number) : Type 0 where
  pub whole : IsWhole n.lead n.digits
  pub part : All IsDigit n.decimals
  pub scale : IsPower n.power_of_ten

unfoldable pub print_power : Power → Bytes → Bytes
print_power no_power k = k
print_power (power mark sign d ds) k = mark ∷ sign ++ d ∷ ds ++ k

unfoldable pub print_decimals : List ℕ → Bytes → Bytes
print_decimals [] k = k
print_decimals (d ∷ ds) k = 46 ∷ d ∷ ds ++ k

unfoldable pub print_sign : Bool → Bytes → Bytes
print_sign true k = 45 ∷ k
print_sign false k = k

unfoldable pub print_number : Number → Bytes → Bytes
unfolding print_power print_decimals print_sign
print_number n k =
    print_sign n.negative
      (n.lead ∷ n.digits ++ print_decimals n.decimals (print_power n.power_of_ten k))

-- What stands after a number does not go on with it.
abbrev pub stops : Bytes → Bool
stops [] = true
stops (b ∷ k) = not (is_digit b || (nat_eq b 46 || (nat_eq b 69 || nat_eq b 101)))

skip_digits_sound : (ts : Bytes) → (ds : List ℕ) × All IsDigit ds × (ts ≡ ds ++ skip_digits ts)
unfolding skip_digits
skip_digits_sound [] = ([], tt, refl)
skip_digits_sound (b ∷ ts) = elim (Bool-cases (is_digit b)) [
  | inl e ↦ let (ds, ps, q) = skip_digits_sound ts in (b ∷ ds, (e, ps), rw e (ap (λ ks. b ∷ ks) q))
  | inr e ↦ ([], tt, rw e refl)
]

integer_sound :
    (ts rest : Bytes)
    → integer ts ≡ some rest
    → (lead : ℕ) × (digits : List ℕ) × IsWhole lead digits × (ts ≡ lead ∷ digits ++ rest)
unfolding integer
integer_sound [] rest h = cc
integer_sound (b ∷ ts) rest h = elim (Bool-cases (nat_eq b 48)) [
  | inl e ↦ (b, [], inl (nat_eq→eq b 48 e, refl), ground arith)
  | inr e ↦
      let (ds, ps, q) = skip_digits_sound ts in (b, ds, inr (ground arith, ps), ground (arith, q))
]

some_digits_sound :
    (ts rest : Bytes)
    → some_digits ts ≡ some rest
    → (d : ℕ) × (ds : List ℕ) × IsDigit d × All IsDigit ds × (ts ≡ d ∷ ds ++ rest)
unfolding some_digits
some_digits_sound [] rest h = cc
some_digits_sound (b ∷ ts) rest h =
    let (ds, ps, q) = skip_digits_sound ts in (b, ds, ground arith, ps, ground (arith, q))

fraction_sound :
    (ts rest : Bytes)
    → fraction ts ≡ some rest
    → (ds : List ℕ) × All IsDigit ds × (ts ≡ print_decimals ds rest)
unfolding fraction print_decimals
fraction_sound [] rest h = ([], tt, ground arith)
fraction_sound (b ∷ ts) rest h = elim (Bool-cases (nat_eq b 46)) [
  | inl e ↦
      let (d, ds, p, ps, q) = some_digits_sound ts rest (ground arith) in
      (d ∷ ds, (p, ps), ground (arith, q))
  | inr e ↦ ([], tt, ground arith)
]

exponent_sign_sound :
    (mark d : ℕ) (ts ds rest : List ℕ)
    → (mark ≡ 69) ⊎ (mark ≡ 101)
    → IsDigit d
    → All IsDigit ds
    → exponent_sign ts ≡ d ∷ ds ++ rest
    → (p : Power) × IsPower p × (mark ∷ ts ≡ print_power p rest)
unfolding exponent_sign print_power
exponent_sign_sound mark d [] ds rest m p ps h = cc
exponent_sign_sound mark d (b ∷ ts) ds rest m p ps h =
    elim (Bool-cases (nat_eq b 43 || nat_eq b 45)) [
      | inl e ↦ (power mark (b ∷ []) d ds, (m, p, ps, ground arith), ground arith)
      | inr e ↦ (power mark [] d ds, (m, p, ps), ground arith)
    ]

exponent_sound :
    (ts rest : Bytes)
    → exponent ts ≡ some rest
    → (p : Power) × IsPower p × (ts ≡ print_power p rest)
unfolding exponent print_power
exponent_sound [] rest h = (no_power, tt, ground arith)
exponent_sound (b ∷ ts) rest h = elim (Bool-cases (nat_eq b 69 || nat_eq b 101)) [
  | inl e ↦
      let (d, ds, p, ps, q) = some_digits_sound (exponent_sign ts) rest (ground arith) in
      exponent_sign_sound b d ts ds rest (ground arith) p ps q
  | inr e ↦ (no_power, tt, ground arith)
]

minus_sound : (ts : Bytes) → (s : Bool) × (ts ≡ print_sign s (minus ts))
unfolding minus print_sign
minus_sound [] = (false, refl)
minus_sound (b ∷ ts) = elim (Bool-cases (nat_eq b 45)) [
  | inl e ↦ (true, ground arith)
  | inr e ↦ (false, ground arith)
]

print_power-append : (p : Power) (k : Bytes) → print_power p k ≡ print_power p [] ++ k
unfolding print_power
print_power-append no_power k = refl
print_power-append (power mark sign d ds) k = simp append_assoc

print_decimals-append :
    (ds : List ℕ) (j k : Bytes) → print_decimals ds (j ++ k) ≡ print_decimals ds j ++ k
unfolding print_decimals
print_decimals-append [] j k = refl
print_decimals-append (d ∷ ds) j k = simp append_assoc

print_sign-append : (s : Bool) (j k : Bytes) → print_sign s (j ++ k) ≡ print_sign s j ++ k
unfolding print_sign
print_sign-append true j k = refl
print_sign-append false j k = refl

pub print_number-append : (n : Number) (k : Bytes) → print_number n k ≡ print_number n [] ++ k
unfolding print_number
print_number-append n k =
    ap (λ ks. print_sign n.negative (n.lead ∷ n.digits ++ print_decimals n.decimals ks))
      (print_power-append n.power_of_ten k)
    ∙ ap (λ ks. print_sign n.negative (n.lead ∷ n.digits ++ ks))
        (print_decimals-append n.decimals _ k)
    ∙ ap (λ ks. print_sign n.negative (n.lead ∷ ks)) (sym (append_assoc n.digits _ k))
    ∙ print_sign-append n.negative _ k

pub token-print_number : (n : Number) (k : Bytes) → token (print_number n k) k ≡ print_number n []
token-print_number n k =
    ap (λ ts. token ts k) (print_number-append n k) ∙ token-append (print_number n []) k

assembled :
    (n : Number) (ts whole_on part_on power_on rest : Bytes)
    → ts ≡ print_sign n.negative whole_on
    → whole_on ≡ n.lead ∷ n.digits ++ part_on
    → part_on ≡ print_decimals n.decimals power_on
    → power_on ≡ print_power n.power_of_ten rest
    → ts ≡ print_number n rest
unfolding print_number
assembled n ts whole_on part_on power_on rest p q r t =
    p
    ∙ ap (print_sign n.negative)
        (q ∙ ap (λ k. n.lead ∷ n.digits ++ k) (r ∙ ap (print_decimals n.decimals) t))

tested :
    (b : Bool) (left rest : Bytes)
    → (if b then some left else none) ≡ some rest
    → (b ≡ true) × (left ≡ rest)
tested true left rest h = (refl, ground arith)
tested false left rest h = cc

bind_some :
    {A B : Type 0} (m : Option A) (f : A → Option B) {b : B}
    → and_then m f ≡ some b
    → (a : A) × (m ≡ some a) × (f a ≡ some b)
bind_some none f h = cc
bind_some (some a) f h = (a, refl, h)

module _ (finite : Bytes → Bool) where
  pub parse_number_sound :
      (ts rest : Bytes)
      → parse_number finite ts ≡ some rest
      → (n : Number) × IsNumber n × (finite (print_number n []) ≡ true) × (ts ≡ print_number n rest)
  unfolding parse_number
  parse_number_sound ts rest h =
      let (whole, p, h') = bind_some (integer (minus ts)) _ h in
      let (part, q, h'') = bind_some (fraction whole) _ h' in
      let (left, r, t) = bind_some (exponent part) _ h'' in
      let (s, ps) = minus_sound ts in
      let (lead, digits, pi, qi) = integer_sound (minus ts) whole p in
      let (decimals, pf, qf) = fraction_sound whole part q in
      let (e, pe, qe) = exponent_sound part left r in
      let n : Number = record {
        negative = s;
        lead = lead;
        digits = digits;
        decimals = decimals;
        power_of_ten = e;
      } in
      let (ok, same) = tested (finite (token ts left)) left rest t in
      let printed =
        assembled n ts (minus ts) whole part rest ps qi qf (qe ∙ ap (print_power e) same) in
      (
        n,
        record { whole = pi; part = pf; scale = pe },
        sym (
              ap finite
                (ap (token ts) same ∙ ap (λ ks. token ks rest) printed ∙ token-print_number n rest))
            ∙ ok,
        printed,
      )
