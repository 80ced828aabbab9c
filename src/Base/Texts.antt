-- ===== src/Base/Texts.antt =====
-- Texts: joining them, and the decimal form of a natural number, as str of Python makes it.
use Prim.Native.Nat.{ℕ, zero, suc, ◌-◌, ◌*◌, ◌/◌, compare, Ordering}
use Prim.Native.String.{String, ◌++◌}
use mathlib.Core.List.{List, [], ◌∷◌}

abbrev pub concat : List String → String
concat [] = ""
concat (s ∷ rest) = s ++ concat rest

abbrev nth_digit : ℕ → List String → String
nth_digit n [] = ""
nth_digit zero (d ∷ ds) = d
nth_digit (suc n) (d ∷ ds) = nth_digit n ds

abbrev digit : ℕ → String
digit n = nth_digit n ("0" ∷ "1" ∷ "2" ∷ "3" ∷ "4" ∷ "5" ∷ "6" ∷ "7" ∷ "8" ∷ "9" ∷ [])

-- The fuel counts the divisions by ten.
abbrev digits : ℕ → ℕ → String
digits zero n = digit n
digits (suc fuel) n =
    let front = digits fuel (n / 10) in
    elim (compare n 10) [ Ordering.lt ↦ digit n | _ ↦ front ++ digit (n - (n / 10) * 10) ]

-- A number has fewer digits than its value plus two, so it is enough fuel for itself.
unfoldable pub decimal : ℕ → String
decimal n = digits n n
