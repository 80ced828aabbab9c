-- ===== src/Requests/Names.antt =====
use research_paper_aep.Base.{
  Bool, List, [], false, if◌then◌else◌, leb, length, nat_eq, not, true, ℕ, ◌&&◌, ◌||◌, ◌∷◌,
}
use research_paper_aep.StateCodec.{bytes_eq, within}
use research_paper_aep.StateCodec.Encode.{Text}

-- The spellings that aep_core/core/request_binding.py allows: _SAFE_ID, _SAFE_FIELD, _normalized_name
-- and _validate_safe_field_name, on the code points of a text.

abbrev pub is_empty {ℓ} : {A : Type ℓ} → List A → Bool
is_empty [] = true
is_empty (x ∷ xs) = false

abbrev pub lower : ℕ → Bool
lower c = within 97 122 c

abbrev pub digit : ℕ → Bool
digit c = within 48 57 c

abbrev pub alphanumeric : ℕ → Bool
alphanumeric c = within 65 90 c || (lower c || digit c)

-- [A-Za-z0-9._:/-]
abbrev pub id_char : ℕ → Bool
id_char c =
    alphanumeric c
    || (nat_eq c 46 || (nat_eq c 95 || (nat_eq c 58 || (nat_eq c 47 || nat_eq c 45))))

-- [a-z0-9_]
abbrev pub field_char : ℕ → Bool
field_char c = lower c || (digit c || nat_eq c 95)

abbrev pub all_chars : (ℕ → Bool) → Text → Bool
all_chars test [] = true
all_chars test (c ∷ t) = test c && all_chars test t

unfoldable pub safe_id : Text → Bool
safe_id [] = false
safe_id (c ∷ t) = alphanumeric c && (all_chars id_char t && leb (length t) 127)

unfoldable pub safe_field : Text → Bool
safe_field [] = false
safe_field (c ∷ t) = lower c && (all_chars field_char t && leb (length t) 63)

-- re.sub: a run of other characters becomes one underscore. The flag tells that the last character
-- belonged to such a run.
unfoldable pub squeezed : Bool → Text → Text
squeezed run [] = []
squeezed run (c ∷ t) =
    let inside = squeezed true t in
    let after = squeezed false t in
    if lower c || digit c then c ∷ after else if run then inside else 95 ∷ inside

unfoldable pub strip_left : Text → Text
strip_left [] = []
strip_left (c ∷ t) = let rest = strip_left t in if nat_eq c 95 then rest else c ∷ t

unfoldable pub strip_right : Text → Text
strip_right [] = []
strip_right (c ∷ t) =
    let rest = strip_right t in if nat_eq c 95 && is_empty rest then [] else c ∷ rest

-- A text that _SAFE_FIELD has let through is its own casefold.
unfoldable pub normalized_name : Text → Text
unfolding squeezed strip_left strip_right
normalized_name t = strip_right (strip_left (squeezed false t))

abbrev pub onto_first : ℕ → List Text → List Text
onto_first c [] = (c ∷ []) ∷ []
onto_first c (t ∷ ts) = (c ∷ t) ∷ ts

-- split("_")
unfoldable pub components : Text → List Text
components [] = [] ∷ []
components (c ∷ t) = let rest = components t in if nat_eq c 95 then [] ∷ rest else onto_first c rest

-- _SENSITIVE_NAME_TOKENS
abbrev pub sensitive_name_tokens : List Text
sensitive_name_tokens =
    (97 ∷ 117 ∷ 116 ∷ 104 ∷ 111 ∷ 114 ∷ 105 ∷ 122 ∷ 97 ∷ 116 ∷ 105 ∷ 111 ∷ 110 ∷ [])
    ∷ (97 ∷ 117 ∷ 116 ∷ 104 ∷ [])
    ∷ (99 ∷ 111 ∷ 111 ∷ 107 ∷ 105 ∷ 101 ∷ [])
    ∷ (99 ∷ 114 ∷ 101 ∷ 100 ∷ 101 ∷ 110 ∷ 116 ∷ 105 ∷ 97 ∷ 108 ∷ [])
    ∷ (112 ∷ 97 ∷ 115 ∷ 115 ∷ 119 ∷ 111 ∷ 114 ∷ 100 ∷ [])
    ∷ (112 ∷ 97 ∷ 115 ∷ 115 ∷ 119 ∷ 100 ∷ [])
    ∷ (115 ∷ 101 ∷ 99 ∷ 114 ∷ 101 ∷ 116 ∷ [])
    ∷ (116 ∷ 111 ∷ 107 ∷ 101 ∷ 110 ∷ [])
    ∷ (112 ∷ 97 ∷ 110 ∷ [])
    ∷ (99 ∷ 97 ∷ 114 ∷ 100 ∷ [])
    ∷ (99 ∷ 118 ∷ 118 ∷ [])
    ∷ (99 ∷ 118 ∷ 99 ∷ [])
    ∷ (112 ∷ 97 ∷ 121 ∷ 109 ∷ 101 ∷ 110 ∷ 116 ∷ [])
    ∷ (101 ∷ 109 ∷ 97 ∷ 105 ∷ 108 ∷ [])
    ∷ (112 ∷ 104 ∷ 111 ∷ 110 ∷ 101 ∷ [])
    ∷ (97 ∷ 100 ∷ 100 ∷ 114 ∷ 101 ∷ 115 ∷ 115 ∷ [])
    ∷ (110 ∷ 97 ∷ 109 ∷ 101 ∷ [])
    ∷ (115 ∷ 115 ∷ 110 ∷ [])
    ∷ (112 ∷ 101 ∷ 114 ∷ 115 ∷ 111 ∷ 110 ∷ 97 ∷ 108 ∷ [])
    ∷ (112 ∷ 105 ∷ 105 ∷ [])
    ∷ (104 ∷ 101 ∷ 97 ∷ 100 ∷ 101 ∷ 114 ∷ [])
    ∷ (113 ∷ 117 ∷ 101 ∷ 114 ∷ 121 ∷ [])
    ∷ (109 ∷ 101 ∷ 116 ∷ 97 ∷ 100 ∷ 97 ∷ 116 ∷ 97 ∷ [])
    ∷ []

abbrev pub among : List Text → Text → Bool
among [] t = false
among (s ∷ ss) t = bytes_eq s t || among ss t

abbrev pub no_token : List Text → Bool
no_token [] = true
no_token (t ∷ ts) = not (among sensitive_name_tokens t) && no_token ts

-- false stands for the UnsafeRequestError.
unfoldable pub validate_safe_field_name : Text → Bool
unfolding safe_field components normalized_name
validate_safe_field_name t = safe_field t && no_token (components (normalized_name t))
