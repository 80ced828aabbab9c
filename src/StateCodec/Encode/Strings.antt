-- ===== src/StateCodec/Encode/Strings.antt =====
use research_paper_aep.Base.{
  All, Bool-cases, List, Option-cases, [], ap, arith, false, if◌then◌else◌, inl, inr, ltb, none,
  refl, some, sym, true, ℕ, ◌%◌, ◌++◌, ◌/◌, ◌<◌, ◌∙◌, ◌∷◌, ◌≡◌, ◌≢◌, ◌≤◌,
}
use research_paper_aep.StateCodec.{Bytes}
use research_paper_aep.StateCodec.Token.{is_escape, is_hex}
use research_paper_aep.StateCodec.Token.Strings.{
  Char, IsChar, escaped, plain, print_chars, print_string, unicode,
}
use research_paper_aep.StateCodec.Encode.{
  Text, all_scalar, hex_digit, is_scalar, short_escape, write_char, write_chars, write_string,
}
use research_paper_aep.StateCodec.Utf8.Exact.{IsScalar, encode, encode_all}
use research_paper_aep.StateCodec.Encode.Emits.{Emits, Emits-ascii, Emits-nothing}

-- The strings that encode_state of aep_core/core/state_codec.py writes, beside their printed characters.

-- The characters that write_char writes.
plain_bytes : Bytes → List Char → List Char
plain_bytes [] cs = cs
plain_bytes (b ∷ bs) cs = plain b ∷ plain_bytes bs cs

pub char_of : ℕ → List Char → List Char
unfolding plain_bytes
char_of c cs = elim (short_escape c) [
  | some e ↦ escaped e ∷ cs
  | none ↦
      if ltb c 32
      then unicode 48 48 (hex_digit (c / 16)) (hex_digit (c % 16)) ∷ cs
      else plain_bytes (encode c []) cs
]

pub chars_of : Text → List Char
unfolding char_of
chars_of [] = []
chars_of (c ∷ t) = char_of c (chars_of t)

short_escape_is : (c e : ℕ) → short_escape c ≡ some e → (is_escape e ≡ true) × (e < 128)
unfolding short_escape
short_escape_is c e h = (ground arith, ground arith)

short_escape-none : (c : ℕ) → short_escape c ≡ none → (c ≢ 34) × (c ≢ 92)
unfolding short_escape
short_escape-none c h = (ground arith, ground arith)

hex_digit_is : (d : ℕ) → d < 16 → (is_hex (hex_digit d) ≡ true) × (hex_digit d < 128)
unfolding hex_digit
hex_digit_is d h = (ground arith, ground arith)

print-plain_bytes :
    (bs : Bytes) (cs : List Char) (k : Bytes)
    → print_chars (plain_bytes bs cs) k ≡ bs ++ print_chars cs k
unfolding print_chars plain_bytes
print-plain_bytes [] cs k = refl
print-plain_bytes (b ∷ bs) cs k = ap (λ ks. b ∷ ks) (print-plain_bytes bs cs k)

encode-append : (c : ℕ) (k : Bytes) → encode c k ≡ encode c [] ++ k
unfolding encode
encode-append c k = ground arith

plain_bytes-IsChar :
    (bs : Bytes) (cs : List Char)
    → All (λ b. IsChar (plain b)) bs
    → All IsChar cs
    → All IsChar (plain_bytes bs cs)
unfolding plain_bytes
plain_bytes-IsChar [] cs p q = q
plain_bytes-IsChar (b ∷ bs) cs p q = (p.0, plain_bytes-IsChar bs cs p.1 q)

high : (b : ℕ) → 128 ≤ b → IsChar (plain b)
high b h = (omega arith, ground arith, ground arith)

encode-plain : (c : ℕ) → 32 ≤ c → c ≢ 34 → c ≢ 92 → All (λ b. IsChar (plain b)) (encode c [])
unfolding encode
encode-plain c h p q = elim (Bool-cases (ltb c 0x80)) [
  | inl e ↦ rw e ((h, p, q), tt)
  | inr e ↦ elim (Bool-cases (ltb c 0x800)) [
    | inl f ↦ rw (e, f) (high _ (omega arith), (high _ (omega arith), tt))
    | inr f ↦ elim (Bool-cases (ltb c 0x10000)) [
      | inl g ↦
          rw (e, f, g) (high _ (omega arith), (high _ (omega arith), (high _ (omega arith), tt)))
      | inr g ↦
          rw (e, f, g)
            (
              high _ (omega arith),
              (high _ (omega arith), (high _ (omega arith), (high _ (omega arith), tt))),
            )
    ]
  ]
]

-- The three kinds of characters, as written and as printed.
module _ (c : ℕ) where
  write_char-short : (e : ℕ) (k : Text) → short_escape c ≡ some e → write_char c k ≡ 92 ∷ e ∷ k
  unfolding write_char
  write_char-short e k s = rw (write_char, s) refl

  write_char-control :
      (k : Text)
      → short_escape c ≡ none
      → ltb c 32 ≡ true
      → write_char c k ≡ 92 ∷ 117 ∷ 48 ∷ 48 ∷ hex_digit (c / 16) ∷ hex_digit (c % 16) ∷ k
  unfolding write_char
  write_char-control k s l = rw (write_char, s, l) refl

  write_char-plain : (k : Text) → short_escape c ≡ none → ltb c 32 ≡ false → write_char c k ≡ c ∷ k
  unfolding write_char
  write_char-plain k s l = rw (write_char, s, l) refl

  char_of-short : (e : ℕ) (cs : List Char) → short_escape c ≡ some e → char_of c cs ≡ escaped e ∷ cs
  unfolding char_of
  char_of-short e cs s = rw (char_of, s) refl

  char_of-control :
      (cs : List Char)
      → short_escape c ≡ none
      → ltb c 32 ≡ true
      → char_of c cs ≡ unicode 48 48 (hex_digit (c / 16)) (hex_digit (c % 16)) ∷ cs
  unfolding char_of
  char_of-control cs s l = rw (char_of, s, l) refl

  char_of-plain :
      (cs : List Char)
      → short_escape c ≡ none
      → ltb c 32 ≡ false
      → char_of c cs ≡ plain_bytes (encode c []) cs
  unfolding char_of
  char_of-plain cs s l = rw (char_of, s, l) refl

  below_16 : ltb c 32 ≡ true → c / 16 < 16
  below_16 l = ground arith

char_of-IsChar : (c : ℕ) (cs : List Char) → All IsChar cs → All IsChar (char_of c cs)
char_of-IsChar c cs p = elim (Option-cases (short_escape c)) [
  | inr (e, s) ↦ rw (char_of-short c e cs s) ((short_escape_is c e s).0, p)
  | inl s ↦ elim (Bool-cases (ltb c 32)) [
    | inl l ↦ rw (char_of-control c cs s l) (
      (
        refl,
        refl,
        (hex_digit_is (c / 16) (below_16 c l)).0,
        (hex_digit_is (c % 16) (omega arith)).0,
      ),
      p,
    )
    | inr l ↦
        let (quote, slash) = short_escape-none c s in
        rw (char_of-plain c cs s l)
          (plain_bytes-IsChar (encode c []) cs (encode-plain c (ground arith) quote slash) p)
  ]
]

pub chars_of-IsChar : (t : Text) → All IsChar (chars_of t)
unfolding chars_of
chars_of-IsChar [] = tt
chars_of-IsChar (c ∷ t) = char_of-IsChar c (chars_of t) (chars_of-IsChar t)

all_scalar-step : (c : ℕ) (t : Text) → IsScalar c → all_scalar (c ∷ t) ≡ all_scalar t
unfolding all_scalar
all_scalar-step c t h = let ok : is_scalar c ≡ true = scalar_test c h in rw (all_scalar, ok) refl
  where
    scalar_test : (d : ℕ) → IsScalar d → is_scalar d ≡ true
    scalar_test d (inl p) = ground arith
    scalar_test d (inr p) = ground arith

-- Equal writers and printers may stand for one another.
pub Emits-eq :
    {f f' : Text → Text} {g g' : Bytes → Bytes}
    → ((k : Text) → f' k ≡ f k)
    → ((k : Bytes) → g' k ≡ g k)
    → Emits f g
    → Emits f' g'
Emits-eq {f} {f'} {g} {g'} p q e = record {
  scalar = λ k. ap all_scalar (p k) ∙ e.scalar k;
  same = λ k. ap encode_all (p k) ∙ e.same k ∙ sym (q (encode_all k));
}

Emits-plain :
    (c : ℕ) (cs : List Char) (f : Text → Text)
    → IsScalar c
    → Emits f (print_chars cs)
    → Emits (λ k. c ∷ f k) (print_chars (plain_bytes (encode c []) cs))
unfolding encode_all
Emits-plain c cs f h p = record {
  scalar = λ k. all_scalar-step c (f k) h ∙ p.scalar k;
  same = λ k.
      ap (encode c) (p.same k)
      ∙ encode-append c (print_chars cs (encode_all k))
      ∙ sym (print-plain_bytes (encode c []) cs (encode_all k));
}

Emits-control :
    (c : ℕ) (cs : List Char) (f : Text → Text)
    → ltb c 32 ≡ true
    → Emits f (print_chars cs)
    → Emits
        (λ k. 92 ∷ 117 ∷ 48 ∷ 48 ∷ hex_digit (c / 16) ∷ hex_digit (c % 16) ∷ f k)
        (print_chars (unicode 48 48 (hex_digit (c / 16)) (hex_digit (c % 16)) ∷ cs))
unfolding print_chars
Emits-control c cs f l p = Emits-ascii 92 (omega arith) (
    Emits-ascii 117 (omega arith) (
      Emits-ascii 48 (omega arith) (
        Emits-ascii 48 (omega arith) (
          Emits-ascii (hex_digit (c / 16)) (hex_digit_is (c / 16) (below_16 c l)).1
            (Emits-ascii (hex_digit (c % 16)) (hex_digit_is (c % 16) (omega arith)).1 p)))))

Emits-short :
    (e : ℕ) (cs : List Char) (f : Text → Text)
    → e < 128
    → Emits f (print_chars cs)
    → Emits (λ k. 92 ∷ e ∷ f k) (print_chars (escaped e ∷ cs))
unfolding print_chars
Emits-short e cs f h p = Emits-ascii 92 (omega arith) (Emits-ascii e h p)

Emits-char :
    (c : ℕ) (cs : List Char) (f : Text → Text)
    → IsScalar c
    → Emits f (print_chars cs)
    → Emits (λ k. write_char c (f k)) (print_chars (char_of c cs))
Emits-char c cs f h p = elim (Option-cases (short_escape c)) [
  | inr (e, s) ↦
      Emits-eq (λ k. write_char-short c e (f k) s)
        (λ k. ap (λ ds. print_chars ds k) (char_of-short c e cs s))
        (Emits-short e cs f (short_escape_is c e s).1 p)
  | inl s ↦ elim (Bool-cases (ltb c 32)) [
    | inl l ↦
        Emits-eq (λ k. write_char-control c (f k) s l)
          (λ k. ap (λ ds. print_chars ds k) (char_of-control c cs s l)) (Emits-control c cs f l p)
    | inr l ↦
        Emits-eq (λ k. write_char-plain c (f k) s l)
          (λ k. ap (λ ds. print_chars ds k) (char_of-plain c cs s l)) (Emits-plain c cs f h p)
  ]
]

Emits-chars : (t : Text) → All IsScalar t → Emits (write_chars t) (print_chars (chars_of t))
unfolding write_chars print_chars chars_of
Emits-chars [] h = Emits-ascii 34 (omega arith) Emits-nothing
Emits-chars (c ∷ t) h = Emits-char c (chars_of t) (write_chars t) h.0 (Emits-chars t h.1)

pub Emits-string : (t : Text) → All IsScalar t → Emits (write_string t) (print_string (chars_of t))
unfolding write_string print_string
Emits-string t h = Emits-ascii 34 (omega arith) (Emits-chars t h)
