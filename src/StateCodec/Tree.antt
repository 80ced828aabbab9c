-- ===== src/StateCodec/Tree.antt =====
pub mod Lengths
use research_paper_aep.Base.{
  All, Bool, List, Option, [], false, max, not, some, suc, true, ℕ, ◌&&◌, ◌++◌, ◌||◌, ◌∷◌, ◌≡◌,
}
use research_paper_aep.StateCodec.{Bytes, bytes_eq}
use research_paper_aep.StateCodec.Token.{is_space}
use research_paper_aep.StateCodec.Token.Strings.{Char, IsChar, print_string}
use research_paper_aep.StateCodec.Token.Numbers.{IsNumber, Number, print_number}

-- JSON texts as trees with their white space, and what the check asks of them. The readers of
-- aep_core/core/state_codec.py are compared with these trees; no byte is read here.

pub data Word : Type 0 where
  true_word false_word null_word : Word

-- A member keeps the characters of its name and the name that they stand for, then the space
-- before the colon, the space after it, the value, and the space after that.
mutual
  pub data Json : Type 0 where
    word : Word → Json
    number : Number → Json
    text : List Char → Json
    empty_array : Bytes → Json
    array : Bytes → Elements → Json
    empty_object : Bytes → Json
    object : Bytes → Members → Json

  pub data Elements : Type 0 where
    last_element : Json → Bytes → Elements
    next_element : Json → Bytes → Bytes → Elements → Elements

  pub data Members : Type 0 where
    last_member : List Char → Bytes → Bytes → Bytes → Json → Bytes → Members
    next_member : List Char → Bytes → Bytes → Bytes → Json → Bytes → Bytes → Members → Members

abbrev pub print_word : Word → Bytes
print_word true_word = 116 ∷ 114 ∷ 117 ∷ 101 ∷ []
print_word false_word = 102 ∷ 97 ∷ 108 ∷ 115 ∷ 101 ∷ []
print_word null_word = 110 ∷ 117 ∷ 108 ∷ 108 ∷ []

-- The bytes of a tree, before further bytes.
unfoldable mutual
  pub print_value : Json → Bytes → Bytes
  print_value (word w) k = print_word w ++ k
  print_value (number n) k = print_number n k
  print_value (text cs) k = print_string cs k
  print_value (empty_array w) k = 91 ∷ w ++ 93 ∷ k
  print_value (array w es) k = 91 ∷ w ++ print_elements es k
  print_value (empty_object w) k = 123 ∷ w ++ 125 ∷ k
  print_value (object w ms) k = 123 ∷ w ++ print_members ms k

  pub print_elements : Elements → Bytes → Bytes
  print_elements (last_element v w) k = print_value v (w ++ 93 ∷ k)
  print_elements (next_element v w w' es) k =
      print_value v (w ++ (44 ∷ (w' ++ print_elements es k)))

  pub print_members : Members → Bytes → Bytes
  print_members (last_member cs s w w' v u) k =
      print_string cs (w ++ (58 ∷ (w' ++ print_value v (u ++ 125 ∷ k))))
  print_members (next_member cs s w w' v u u' ms) k =
      print_string cs (w ++ (58 ∷ (w' ++ print_value v (u ++ (44 ∷ (u' ++ print_members ms k))))))

-- How many arrays and objects with contents stand around the deepest value.
unfoldable mutual
  pub depth : Json → ℕ
  depth (array w es) = suc (depth_elements es)
  depth (object w ms) = suc (depth_members ms)
  depth _ = 0

  pub depth_elements : Elements → ℕ
  depth_elements (last_element v w) = depth v
  depth_elements (next_element v w w' es) = max (depth v) (depth_elements es)

  pub depth_members : Members → ℕ
  depth_members (last_member cs s w w' v u) = depth v
  depth_members (next_member cs s w w' v u u' ms) = max (depth v) (depth_members ms)

-- No object has two members of one name. The names before a member are gathered in a list.
abbrev pub has_name : Bytes → List Bytes → Bool
has_name s [] = false
has_name s (name ∷ names) = bytes_eq s name || has_name s names

unfoldable mutual
  pub distinct : Json → Bool
  distinct (array w es) = distinct_elements es
  distinct (object w ms) = distinct_members [] ms
  distinct _ = true

  pub distinct_elements : Elements → Bool
  distinct_elements (last_element v w) = distinct v
  distinct_elements (next_element v w w' es) = distinct v && distinct_elements es

  pub distinct_members : List Bytes → Members → Bool
  distinct_members names (last_member cs s w w' v u) = not (has_name s names) && distinct v
  distinct_members names (next_member cs s w w' v u u' ms) =
      not (has_name s names) && (distinct v && distinct_members (s ∷ names) ms)

abbrev pub IsSpace : Bytes → Type 0
IsSpace = All (λ b. is_space b ≡ true)

-- What the scan calls: cjson.decode of the token of a name, whether tonumber reads a finite number
-- from a token, and whether cjson.decode reads the whole text.
pub record Reader : Type 0 where
  pub decode_name : Bytes → Option Bytes
  pub finite : Bytes → Bool
  pub decodes : Bytes → Bool

-- The tokens are those of JSON, space is white, and each name is what its token decodes to.
unfoldable mutual
  pub IsJson : Reader → Json → Type 0
  IsJson r (word w) = Unit
  IsJson r (number n) = IsNumber n × (r.finite (print_number n []) ≡ true)
  IsJson r (text cs) = All IsChar cs
  IsJson r (empty_array w) = IsSpace w
  IsJson r (array w es) = IsSpace w × IsElements r es
  IsJson r (empty_object w) = IsSpace w
  IsJson r (object w ms) = IsSpace w × IsMembers r ms

  pub IsElements : Reader → Elements → Type 0
  IsElements r (last_element v w) = IsJson r v × IsSpace w
  IsElements r (next_element v w w' es) = IsJson r v × IsSpace w × IsSpace w' × IsElements r es

  pub IsMembers : Reader → Members → Type 0
  IsMembers r (last_member cs s w w' v u) =
      All IsChar cs
      × (r.decode_name (print_string cs []) ≡ some s)
      × IsSpace w
      × IsSpace w'
      × IsJson r v
      × IsSpace u
  IsMembers r (next_member cs s w w' v u u' ms) =
      All IsChar cs
      × (r.decode_name (print_string cs []) ≡ some s)
      × IsSpace w
      × IsSpace w'
      × IsJson r v
      × IsSpace u
      × IsSpace u'
      × IsMembers r ms
