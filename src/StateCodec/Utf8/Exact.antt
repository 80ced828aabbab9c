-- ===== src/StateCodec/Utf8/Exact.antt =====
use research_paper_aep.Base.{
  All, Bool-cases, List, Option, Option-cases, [], ap, arith, false, if◌then◌else◌, inl, inr, leb,
  length, ltb, nat_eq, none, refl, some, suc, sym, true, zero, ℕ, ◌%◌, ◌*◌, ◌+◌, ◌-◌, ◌/◌, ◌<◌, ◌↔◌,
  ◌∙◌, ◌∷◌, ◌≡◌, ◌≤◌, ◌⊎◌,
}
use research_paper_aep.StateCodec.{Bytes, within}
use research_paper_aep.StateCodec.Utf8.{aep_utf8_check, continuation, sequence, utf8_loop}

-- The scan of aep_utf8_check against the encoding of Unicode.

-- The values that UTF-8 encodes: the code points without the surrogates.
abbrev pub IsScalar : ℕ → Type 0
IsScalar c = (c < 0xD800) ⊎ ((0xE000 ≤ c) × (c < 0x110000))

-- The shortest encoding of a value, before further bytes.
unfoldable pub encode : ℕ → Bytes → Bytes
encode c rest =
    if ltb c 0x80
    then c ∷ rest
    else if ltb c 0x800
    then (192 + c / 64) ∷ (128 + c % 64) ∷ rest
    else if ltb c 0x10000
    then (224 + c / 4096) ∷ (128 + c / 64 % 64) ∷ (128 + c % 64) ∷ rest
    else (240 + c / 262144) ∷ (128 + c / 4096 % 64) ∷ (128 + c / 64 % 64) ∷ (128 + c % 64) ∷ rest

unfoldable pub encode_all : List ℕ → Bytes
unfolding encode
encode_all [] = []
encode_all (c ∷ cs) = encode c (encode_all cs)

-- The head and tail form in which the loop reads.
abbrev pub read : Bytes → Option Bytes
read [] = none
read (b ∷ rest) = sequence b rest

pub read-encode : (c : ℕ) (rest : Bytes) → IsScalar c → read (encode c rest) ≡ some rest
unfolding sequence encode
read-encode c rest (inl h) = ground arith
read-encode c rest (inr h) = ground arith

two_bytes :
    (a b : ℕ) (rest : Bytes)
    → within 194 223 a ≡ true
    → continuation b ≡ true
    → let c = (a - 192) * 64 + (b - 128) in IsScalar c × (a ∷ b ∷ rest ≡ encode c rest)
unfolding encode
two_bytes a b rest p q = (inl (ground arith), ground arith)

three_bytes :
    (a b d : ℕ) (rest : Bytes)
    → within 224 239 a ≡ true
    → continuation b ≡ true
    → continuation d ≡ true
    → (nat_eq a 224 ≡ true → 160 ≤ b)
    → (nat_eq a 237 ≡ true → b ≤ 159)
    → let c = (a - 224) * 4096 + (b - 128) * 64 + (d - 128) in
      IsScalar c × (a ∷ b ∷ d ∷ rest ≡ encode c rest)
unfolding encode
three_bytes a b d rest p q r low high = (ground (arith, low, high), ground (arith, low, high))

four_bytes :
    (a b d e : ℕ) (rest : Bytes)
    → within 240 244 a ≡ true
    → continuation b ≡ true
    → continuation d ≡ true
    → continuation e ≡ true
    → (nat_eq a 240 ≡ true → 144 ≤ b)
    → (nat_eq a 244 ≡ true → b ≤ 143)
    → let c = (a - 240) * 262144 + (b - 128) * 4096 + (d - 128) * 64 + (e - 128) in
      IsScalar c × (a ∷ b ∷ d ∷ e ∷ rest ≡ encode c rest)
unfolding encode
four_bytes a b d e rest p q r s low high = (ground (arith, low, high), ground (arith, low, high))

-- A sequence by its first byte.
abbrev IsEncoded : Bytes → Bytes → Type 0
IsEncoded raw rest = (c : ℕ) × IsScalar c × (raw ≡ encode c rest)

sound_two :
    (a : ℕ) (raw rest : Bytes)
    → leb a 127 ≡ false
    → leb a 223 ≡ true
    → sequence a raw ≡ some rest
    → IsEncoded (a ∷ raw) rest
unfolding sequence
sound_two a [] rest p q h = absurd (ground arith)
sound_two a (b ∷ raw) rest p q h =
    let e : raw ≡ rest = ground arith in
    let t = two_bytes a b rest (ground arith) (ground arith) in (_, t.0, rw e t.1)

sound_three :
    (a : ℕ) (raw rest : Bytes)
    → leb a 223 ≡ false
    → leb a 239 ≡ true
    → sequence a raw ≡ some rest
    → IsEncoded (a ∷ raw) rest
unfolding sequence
sound_three a [] rest p q h = absurd (ground arith)
sound_three a (b ∷ []) rest p q h = absurd (ground arith)
sound_three a (b ∷ d ∷ raw) rest p q h =
    let e : raw ≡ rest = ground arith in
    let t =
      three_bytes a b d rest (ground arith) (ground arith) (ground arith) (λ w. ground arith)
        (λ w. ground arith) in
    (_, t.0, rw e t.1)

sound_four :
    (a : ℕ) (raw rest : Bytes)
    → leb a 239 ≡ false
    → sequence a raw ≡ some rest
    → IsEncoded (a ∷ raw) rest
unfolding sequence
sound_four a [] rest q h = absurd (ground arith)
sound_four a (b ∷ []) rest q h = absurd (ground arith)
sound_four a (b ∷ d ∷ []) rest q h = absurd (ground arith)
sound_four a (b ∷ d ∷ k ∷ raw) rest q h =
    let e : raw ≡ rest = ground arith in
    let t =
      four_bytes a b d k rest (ground arith) (ground arith) (ground arith) (ground arith)
        (λ w. ground arith) (λ w. ground arith) in
    (_, t.0, rw e t.1)

read_sound : (raw rest : Bytes) → read raw ≡ some rest → IsEncoded raw rest
unfolding sequence encode
read_sound [] rest h = cc
read_sound (a ∷ raw) rest h = elim (Bool-cases (leb a 127)) [
  | inl p ↦ (a, inl (ground arith), ground arith)
  | inr p ↦ elim (Bool-cases (leb a 223)) [
    | inl q ↦ sound_two a raw rest p q h
    | inr q ↦ elim (Bool-cases (leb a 239)) [
      | inl r ↦ sound_three a raw rest q r h
      | inr r ↦ sound_four a raw rest r h
    ]
  ]
]

length-encode : (c : ℕ) (rest : Bytes) → length rest < length (encode c rest)
unfolding encode
length-encode c rest = ground arith

loop_refused : (n a : ℕ) (raw : Bytes) → sequence a raw ≡ none → utf8_loop (suc n) (a ∷ raw) ≡ false
unfolding utf8_loop
loop_refused n a raw e = rw (utf8_loop, e) refl

loop_goes_on :
    (n a : ℕ) (raw rest : Bytes)
    → sequence a raw ≡ some rest
    → utf8_loop (suc n) (a ∷ raw) ≡ utf8_loop n rest
unfolding utf8_loop
loop_goes_on n a raw rest e = rw (utf8_loop, e) refl

loop_sound :
    (rounds : ℕ) (raw : Bytes)
    → utf8_loop rounds raw ≡ true
    → (cs : List ℕ) × All IsScalar cs × (raw ≡ encode_all cs)
unfolding utf8_loop encode_all
loop_sound zero raw h = cc
loop_sound (suc rounds) [] h = ([], tt, refl)
loop_sound (suc rounds) (a ∷ raw) h = elim (Option-cases (sequence a raw)) [
  | inl e ↦ cc (loop_refused rounds a raw e)
  | inr (rest, e) ↦
      let (c, p, q) = read_sound (a ∷ raw) rest e in
      let (cs, ps, qs) = loop_sound rounds rest (sym (loop_goes_on rounds a raw rest e) ∙ h) in
      (c ∷ cs, (p, ps), q ∙ ap (encode c) qs)
]

loop_complete :
    (cs : List ℕ) (rounds : ℕ)
    → All IsScalar cs
    → length (encode_all cs) < rounds
    → utf8_loop rounds (encode_all cs) ≡ true
unfolding utf8_loop encode_all
loop_complete cs zero ps h = absurd (omega arith)
loop_complete [] (suc rounds) ps h = refl
loop_complete (c ∷ cs) (suc rounds) ps h =
    loop_read rounds (encode c (encode_all cs)) _ (read-encode c (encode_all cs) ps.0)
      (loop_complete cs rounds ps.1 (omega (arith, length-encode c (encode_all cs))))
  where
    loop_read :
        (n : ℕ) (raw rest : Bytes)
        → read raw ≡ some rest
        → utf8_loop n rest ≡ true
        → utf8_loop (suc n) raw ≡ true
    loop_read n [] rest e h = cc
    loop_read n (a ∷ raw) rest e h = loop_goes_on n a raw rest e ∙ h

-- aep_utf8_check answers true exactly for the bytes that encode a list of Unicode scalar values, each
-- in its shortest form: no surrogate, no value above 0x10FFFF, no longer form, no broken sequence.
pub aep_utf8_check_exact :
    (raw : Bytes)
    → (aep_utf8_check raw ≡ true) ↔ ((cs : List ℕ) × All IsScalar cs × (raw ≡ encode_all cs))
unfolding aep_utf8_check
aep_utf8_check_exact raw = (
  loop_sound _ raw,
  λ (cs, ps, e). rw e (loop_complete cs (length (encode_all cs) + 1) ps (omega arith)),
)
