-- ===== src/StateCodec/Encode/Emits.antt =====
use research_paper_aep.Base.{
  All, Bool, List, [], ap, arith, false, inl, inr, ltb, refl, true, ℕ, ◌++◌, ◌<◌, ◌∙◌, ◌∷◌, ◌≡◌,
}
use research_paper_aep.StateCodec.{Bytes}
use research_paper_aep.StateCodec.Token.Numbers.{
  IsDigit, IsNumber, IsPower, IsWhole, Number, Power, no_power, power, print_decimals, print_number,
  print_power, print_sign,
}
use research_paper_aep.StateCodec.Encode.{Text, all_scalar}
use research_paper_aep.StateCodec.Utf8.Exact.{encode, encode_all}

-- Writers of code points for encode_state of aep_core/core/state_codec.py beside printers of bytes: what is
-- written is encoded in UTF-8 as the bytes that are printed.

-- f writes no surrogate, and its text is encoded as the bytes of g.
pub record Emits (f : Text → Text) (g : Bytes → Bytes) : Type 0 where
  pub scalar : (k : Text) → all_scalar (f k) ≡ all_scalar k
  pub same : (k : Text) → encode_all (f k) ≡ g (encode_all k)

pub Emits-nothing : Emits (λ k. k) (λ k. k)
Emits-nothing = record { scalar = λ k. refl; same = λ k. refl }

pub Emits-after :
    {f f' : Text → Text} {g g' : Bytes → Bytes}
    → Emits f g
    → Emits f' g'
    → Emits (λ k. f (f' k)) (λ k. g (g' k))
Emits-after {f} {f'} {g} {g'} p q = record {
  scalar = λ k. p.scalar (f' k) ∙ q.scalar k;
  same = λ k. p.same (f' k) ∙ ap g (q.same k);
}

all_scalar-ascii : (c : ℕ) (t : Text) → c < 128 → all_scalar (c ∷ t) ≡ all_scalar t
unfolding all_scalar
all_scalar-ascii c t h =
    let small : ltb c 0xD800 ≡ true = ground arith in rw (all_scalar, small) refl

encode_all-ascii : (c : ℕ) (t : Text) → c < 128 → encode_all (c ∷ t) ≡ c ∷ encode_all t
unfolding encode_all encode
encode_all-ascii c t h =
    let short : ltb c 128 ≡ true = ground arith in rw (encode_all, encode, short) refl

pub Emits-ascii :
    (c : ℕ) {f : Text → Text} {g : Bytes → Bytes}
    → c < 128
    → Emits f g
    → Emits (λ k. c ∷ f k) (λ k. c ∷ g k)
Emits-ascii c {f} {g} h p = record {
  scalar = λ k. all_scalar-ascii c (f k) h ∙ p.scalar k;
  same = λ k. encode_all-ascii c (f k) h ∙ ap (λ ks. c ∷ ks) (p.same k);
}

abbrev IsAscii : List ℕ → Type 0
IsAscii = All (λ c. c < 128)

pub Emits-append : (xs : List ℕ) → IsAscii xs → Emits (λ k. xs ++ k) (λ k. xs ++ k)
Emits-append [] p = Emits-nothing
Emits-append (x ∷ xs) p = Emits-ascii x p.0 (Emits-append xs p.1)

digits-IsAscii : (xs : List ℕ) → All IsDigit xs → IsAscii xs
digits-IsAscii [] p = tt
digits-IsAscii (x ∷ xs) p = (ground arith, digits-IsAscii xs p.1)

Emits-power : (p : Power) → IsPower p → Emits (print_power p) (print_power p)
unfolding print_power
Emits-power no_power h = Emits-nothing
Emits-power (power mark [] d ds) h =
    Emits-ascii mark (ground arith)
      (Emits-ascii d (ground arith) (Emits-append ds (digits-IsAscii ds h.2)))
Emits-power (power mark (sign ∷ []) d ds) h = Emits-ascii mark (ground arith) (
    Emits-ascii sign (ground arith)
      (Emits-ascii d (ground arith) (Emits-append ds (digits-IsAscii ds h.2))))
Emits-power (power mark (_ ∷ _ ∷ _) d ds) h = absurd h

Emits-decimals : (ds : List ℕ) → All IsDigit ds → Emits (print_decimals ds) (print_decimals ds)
unfolding print_decimals
Emits-decimals [] h = Emits-nothing
Emits-decimals (d ∷ ds) h =
    Emits-ascii 46 (omega arith)
      (Emits-ascii d (ground arith) (Emits-append ds (digits-IsAscii ds h.1)))

Emits-sign : (s : Bool) → Emits (print_sign s) (print_sign s)
unfolding print_sign
Emits-sign true = Emits-ascii 45 (omega arith) Emits-nothing
Emits-sign false = Emits-nothing

Emits-whole :
    (lead : ℕ) (ds : List ℕ) → IsWhole lead ds → Emits (λ k. lead ∷ ds ++ k) (λ k. lead ∷ ds ++ k)
Emits-whole lead ds (inl w) = Emits-ascii lead (ground arith) (Emits-append ds (rw w.1 tt))
Emits-whole lead ds (inr w) =
    Emits-ascii lead (ground arith) (Emits-append ds (digits-IsAscii ds w.1))

pub Emits-number : (n : Number) → IsNumber n → Emits (print_number n) (print_number n)
unfolding print_number
Emits-number n ok = Emits-after (Emits-sign n.negative) (
    Emits-after (Emits-whole n.lead n.digits ok.whole)
      (Emits-after (Emits-decimals n.decimals ok.part) (Emits-power n.power_of_ten ok.scale)))
