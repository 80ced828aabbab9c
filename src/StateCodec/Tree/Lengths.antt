-- ===== src/StateCodec/Tree/Lengths.antt =====
use research_paper_aep.Base.{
  Bool, List, [], ap, arith, false, length, length-append, true, ℕ, ◌++◌, ◌<◌, ◌∷◌,
}
use research_paper_aep.StateCodec.{Bytes}
use research_paper_aep.StateCodec.Token.Strings.{Char, length-print_char, print_chars, print_string}
use research_paper_aep.StateCodec.Token.Numbers.{
  Number, print_number, print_number-append, print_sign,
}
use research_paper_aep.StateCodec.Tree.{
  Elements, Json, Members, Word, array, empty_array, empty_object, false_word, last_element,
  last_member, next_element, next_member, null_word, number, object, print_elements, print_members,
  print_value, print_word, text, true_word, word,
}

-- The trees of JSON texts are printed by a byte at least.

length-print_chars : (cs : List Char) (k : Bytes) → length k < length (print_chars cs k)
unfolding print_chars
length-print_chars [] k = omega arith
length-print_chars (c ∷ cs) k =
    omega (arith, length-print_chars cs k, length-print_char c (print_chars cs k))

pub length-print_string : (cs : List Char) (k : Bytes) → length k < length (print_string cs k)
unfolding print_string
length-print_string cs k = omega (arith, length-print_chars cs k)

length-print_sign : (s : Bool) (b : ℕ) (k : Bytes) → 0 < length (print_sign s (b ∷ k))
unfolding print_sign
length-print_sign true b k = omega arith
length-print_sign false b k = omega arith

length-print_number : (n : Number) (k : Bytes) → length k < length (print_number n k)
unfolding print_number
length-print_number n k = omega (
  arith,
  ap length (print_number-append n k),
  length-append (print_number n []) k,
  length-print_sign n.negative n.lead _,
)

length-print_word : (w : Word) → 0 < length (print_word w)
length-print_word true_word = omega arith
length-print_word false_word = omega arith
length-print_word null_word = omega arith

mutual
  unfolding print_value

  pub length-print_value : (v : Json) (k : Bytes) → length k < length (print_value v k)
  length-print_value (word w) k = omega (arith, length-append (print_word w) k, length-print_word w)
  length-print_value (number n) k = length-print_number n k
  length-print_value (text cs) k = length-print_string cs k
  length-print_value (empty_array w) k = omega (arith, length-append w (93 ∷ k))
  length-print_value (array w es) k =
      omega (arith, length-append w (print_elements es k), length-print_elements es k)
  length-print_value (empty_object w) k = omega (arith, length-append w (125 ∷ k))
  length-print_value (object w ms) k =
      omega (arith, length-append w (print_members ms k), length-print_members ms k)

  pub length-print_elements : (es : Elements) (k : Bytes) → length k < length (print_elements es k)
  length-print_elements (last_element v w) k =
      omega (arith, length-print_value v (w ++ 93 ∷ k), length-append w (93 ∷ k))
  length-print_elements (next_element v w w' es) k = omega (
    arith,
    length-print_value v (w ++ (44 ∷ (w' ++ print_elements es k))),
    length-append w (44 ∷ (w' ++ print_elements es k)),
    length-append w' (print_elements es k),
    length-print_elements es k,
  )

  pub length-print_members : (ms : Members) (k : Bytes) → length k < length (print_members ms k)
  length-print_members (last_member cs s w w' v u) k = omega (
    arith,
    length-print_string cs (w ++ (58 ∷ (w' ++ print_value v (u ++ 125 ∷ k)))),
    length-append w (58 ∷ (w' ++ print_value v (u ++ 125 ∷ k))),
    length-append w' (print_value v (u ++ 125 ∷ k)),
    length-print_value v (u ++ 125 ∷ k),
    length-append u (125 ∷ k),
  )
  length-print_members (next_member cs s w w' v u u' ms) k =
      let on = u ++ (44 ∷ (u' ++ print_members ms k)) in
      omega (
        arith,
        length-print_string cs (w ++ (58 ∷ (w' ++ print_value v on))),
        length-append w (58 ∷ (w' ++ print_value v on)),
        length-append w' (print_value v on),
        length-print_value v on,
        length-append u (44 ∷ (u' ++ print_members ms k)),
        length-append u' (print_members ms k),
        length-print_members ms k,
      )
