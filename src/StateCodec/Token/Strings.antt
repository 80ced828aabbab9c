-- ===== src/StateCodec/Token/Strings.antt =====
use research_paper_aep.Base.{
  All, Bool-cases, List, Option, Option-cases, [], ap, arith, false, inl, inr, length,
  length-append, nat_eq, nat_eq→eq, none, refl, some, suc, sym, true, zero, ℕ, ◌++◌, ◌+◌, ◌-◌, ◌<◌,
  ◌∙◌, ◌∷◌, ◌≡◌, ◌≢◌, ◌≤◌,
}
use research_paper_aep.StateCodec.{Bytes}
use research_paper_aep.StateCodec.Token.{
  escape, is_escape, is_hex, parse_name, parse_string, string_loop, string_round, take, token,
  unicode_escape,
}

-- The strings that parse_string of aep_core/core/state_codec.py accepts, as printed values.

-- A character of a string, by the bytes that write it.
pub data Char : Type 0 where
  plain : ℕ → Char
  escaped : ℕ → Char
  unicode : ℕ → ℕ → ℕ → ℕ → Char

abbrev pub IsChar : Char → Type 0
IsChar (plain b) = (32 ≤ b) × (b ≢ 34) × (b ≢ 92)
IsChar (escaped b) = is_escape b ≡ true
IsChar (unicode a b c d) =
    (is_hex a ≡ true) × (is_hex b ≡ true) × (is_hex c ≡ true) × (is_hex d ≡ true)

unfoldable pub print_char : Char → Bytes → Bytes
print_char (plain b) k = b ∷ k
print_char (escaped b) k = 92 ∷ b ∷ k
print_char (unicode a b c d) k = 92 ∷ 117 ∷ a ∷ b ∷ c ∷ d ∷ k

unfoldable pub print_chars : List Char → Bytes → Bytes
unfolding print_char
print_chars [] k = 34 ∷ k
print_chars (c ∷ cs) k = print_char c (print_chars cs k)

unfoldable pub print_string : List Char → Bytes → Bytes
unfolding print_chars
print_string cs k = 34 ∷ print_chars cs k

print_chars-append : (cs : List Char) (k : Bytes) → print_chars cs k ≡ print_chars cs [] ++ k
unfolding print_chars
print_chars-append [] k = refl
print_chars-append (plain b ∷ cs) k = rw (print_chars-append cs k) refl
print_chars-append (escaped b ∷ cs) k = rw (print_chars-append cs k) refl
print_chars-append (unicode a b c d ∷ cs) k = rw (print_chars-append cs k) refl

take-append : (xs k : Bytes) → take (length xs) (xs ++ k) ≡ xs
unfolding take
take-append [] [] = refl
take-append [] (b ∷ k) = refl
take-append (x ∷ xs) k = rw (take-append xs k)

pub token-append : (xs k : Bytes) → token (xs ++ k) k ≡ xs
unfolding token
token-append xs k =
    let e : length (xs ++ k) - length k ≡ length xs = omega (arith, length-append xs k) in
    rw e (take-append xs k)

pub token-print_string :
    (cs : List Char) (k : Bytes) → token (print_string cs k) k ≡ print_string cs []
unfolding print_string
token-print_string cs k = rw (print_chars-append cs k) (token-append (34 ∷ print_chars cs []) k)

-- One round reads one character.
string_loop-print_char :
    (c : Char) (k : Bytes) (n : ℕ)
    → IsChar c
    → string_loop (suc n) (print_char c k) ≡ string_loop n k
unfolding string_loop print_char
string_loop-print_char (plain b) k n h = ground arith
string_loop-print_char (escaped b) k n h = ground arith
string_loop-print_char (unicode a b c d) k n h = ground arith

unicode_sound :
    (ts rest : Bytes)
    → unicode_escape ts ≡ some rest
    → (c : Char) × IsChar c × (92 ∷ 117 ∷ ts ≡ print_char c rest)
unfolding unicode_escape print_char
unicode_sound (a ∷ b ∷ c ∷ d ∷ ts) rest h = (unicode a b c d, ground arith, ground arith)
unicode_sound _ rest h = cc

escape_sound :
    (ts rest : Bytes)
    → escape ts ≡ some rest
    → (c : Char) × IsChar c × (92 ∷ ts ≡ print_char c rest)
unfolding escape print_char
escape_sound [] rest h = cc
escape_sound (b ∷ ts) rest h = elim (Bool-cases (nat_eq b 117)) [
  | inl e ↦ rw (sym (nat_eq→eq b 117 e)) at (unicode_sound ts rest (ground arith))
  | inr e ↦ (escaped b, ground arith, ground arith)
]

string_round_sound :
    (b : ℕ) (ts rest : Bytes)
    → nat_eq b 34 ≡ false
    → string_round b ts ≡ some rest
    → (c : Char) × IsChar c × (b ∷ ts ≡ print_char c rest)
unfolding string_round print_char
string_round_sound b ts rest q h = elim (Bool-cases (nat_eq b 92)) [
  | inl e ↦ rw (nat_eq→eq b 92 e) (escape_sound ts rest (ground arith))
  | inr e ↦ (plain b, ground arith, ground arith)
]

string_loop_quote :
    (n b : ℕ) (ts : Bytes) → nat_eq b 34 ≡ true → string_loop (suc n) (b ∷ ts) ≡ some ts
unfolding string_loop
string_loop_quote n b ts e = rw (string_loop, e) refl

string_loop_round :
    (n b : ℕ) (ts : Bytes)
    → nat_eq b 34 ≡ false
    → string_loop (suc n) (b ∷ ts)
      ≡ elim (string_round b ts) [ none ↦ none | some left ↦ string_loop n left ]
unfolding string_loop
string_loop_round n b ts e = rw (string_loop, e) refl

string_loop_sound :
    (n : ℕ) (ts rest : Bytes)
    → string_loop n ts ≡ some rest
    → (cs : List Char) × All IsChar cs × (ts ≡ print_chars cs rest)
unfolding print_chars
string_loop_sound zero ts rest h = unfold string_loop in cc
string_loop_sound (suc n) [] rest h = unfold string_loop in cc
string_loop_sound (suc n) (b ∷ ts) rest h = elim (Bool-cases (nat_eq b 34)) [
  | inl e ↦ ([], tt, ground (arith, string_loop_quote n b ts e))
  | inr e ↦ elim (Option-cases (string_round b ts)) [
    | inl f ↦ cc (string_loop_round n b ts e, f)
    | inr (left, f) ↦
        let (c, p, q) = string_round_sound b ts left e f in
        let (cs, ps, qs) =
          string_loop_sound n left rest (sym (rw f at (string_loop_round n b ts e)) ∙ h) in
        (c ∷ cs, (p, ps), q ∙ ap (print_char c) qs)
  ]
]

pub length-print_char : (c : Char) (k : Bytes) → length k < length (print_char c k)
unfolding print_char
length-print_char (plain b) k = omega arith
length-print_char (escaped b) k = omega arith
length-print_char (unicode a b c d) k = omega arith

string_loop_complete :
    (cs : List Char) (k : Bytes) (n : ℕ)
    → All IsChar cs
    → length (print_chars cs k) ≤ n
    → string_loop n (print_chars cs k) ≡ some k
unfolding print_chars
string_loop_complete [] k zero ps h = absurd (omega arith)
string_loop_complete [] k (suc n) ps h = string_loop_quote n 34 k refl
string_loop_complete (c ∷ cs) k zero ps h =
    absurd (omega (arith, length-print_char c (print_chars cs k)))
string_loop_complete (c ∷ cs) k (suc n) ps h =
    string_loop-print_char c (print_chars cs k) n ps.0
    ∙ string_loop_complete cs k n ps.1 (omega (arith, length-print_char c (print_chars cs k)))

pub parse_string_sound :
    (ts rest : Bytes)
    → parse_string ts ≡ some rest
    → (cs : List Char) × All IsChar cs × (ts ≡ print_string cs rest)
unfolding parse_string print_string
parse_string_sound [] rest h = cc
parse_string_sound (b ∷ ts) rest h =
    let e : nat_eq b 34 ≡ true = ground arith in
    let (cs, ps, q) = string_loop_sound (length ts + 1) ts rest (ground arith) in
    (cs, ps, ground (arith, q))

pub parse_string-print_string :
    (cs : List Char) (k : Bytes) → All IsChar cs → parse_string (print_string cs k) ≡ some k
unfolding parse_string print_string
parse_string-print_string cs k ps = string_loop_complete cs k _ ps (omega arith)

module _ (decode_name : Bytes → Option Bytes) where
  pub parse_name_sound :
      (ts rest : Bytes) (s : Bytes)
      → parse_name decode_name ts ≡ some (s, rest)
      → (cs : List Char) × All IsChar cs
        × (decode_name (print_string cs []) ≡ some s)
        × (ts ≡ print_string cs rest)
  unfolding parse_name
  parse_name_sound ts rest s h = elim (Option-cases (parse_string ts)) [
    | inl e ↦ absurd (ground arith)
    | inr (left, e) ↦ elim (Option-cases (decode_name (token ts left))) [
      | inl f ↦ absurd (ground arith)
      | inr (u, f) ↦
          let same : left ≡ rest = ground arith in
          let name : u ≡ s = ground arith in
          let (cs, ps, q) = parse_string_sound ts rest (e ∙ ap some same) in
          (
            cs,
            ps,
            sym (ap decode_name (ap (λ ks. token ks rest) q ∙ token-print_string cs rest))
                ∙ ap (λ ks. decode_name (token ts ks)) (sym same)
                ∙ f
                ∙ ap some name,
            q,
          )
    ]
  ]

  pub parse_name-print_string :
      (cs : List Char) (k : Bytes) (s : Bytes)
      → All IsChar cs
      → decode_name (print_string cs []) ≡ some s
      → parse_name decode_name (print_string cs k) ≡ some (s, k)
  unfolding parse_name
  parse_name-print_string cs k s ps h =
      rw (parse_name, parse_string-print_string cs k ps, token-print_string cs k, h) refl
