-- ===== src/Requests/Canonical/Parts.antt =====
use research_paper_aep.Base.{
  All, Bool, Bool-cases, List, Option, and-true, ap, arith, false, false≢true, inl, inr, none,
  not-true, refl, some, sym, true, ℕ, ◌||◌, ◌∙◌, ◌∷◌, ◌≡◌,
}
use research_paper_aep.StateCodec.{bytes_eq}
use research_paper_aep.StateCodec.Encode.{PyDict, PyValue, Text, entry, no_entries}
use research_paper_aep.StateCodec.Utf8.Exact.{IsScalar}
use research_paper_aep.StateCodec.Encode.Names.{bytes_eq→eq, has_text}
use research_paper_aep.StateCodec.Encode.Accepted.{all_scalar-true}
use research_paper_aep.Requests.Names.{among}
use research_paper_aep.Requests.Canonical.{
  both, canonical_dict, canonical_value, guarded, lifted, require_key, require_nfc,
}

-- What an answer of _canonical_value of aep_core/core/request_binding.py says of its parts.

pub guarded-some {ℓ} :
    {A : Type ℓ} (b : Bool) (o : Option A) (a : A)
    → guarded b o ≡ some a
    → (b ≡ true) × (o ≡ some a)
guarded-some true o a h = (refl, h)
guarded-some false o a h = cc

pub kept : (b : Bool) (v w : PyValue) → guarded b (some v) ≡ some w → (b ≡ true) × (w ≡ v)
kept true v w h = (refl, cc)
kept false v w h = cc

pub lifted-some {ℓ κ} :
    {A : Type ℓ} {B : Type κ} (f : A → B) (o : Option A) (b : B)
    → lifted f o ≡ some b
    → (a : A) × (o ≡ some a) × (f a ≡ b)
lifted-some f (some a) b h = (a, refl, cc)
lifted-some f none b h = cc

pub both-some {ℓ κ μ} :
    {A : Type ℓ} {B : Type κ} {C : Type μ} (f : A → B → C) (o : Option A) (p : Option B) (c : C)
    → both f o p ≡ some c
    → (a : A) × (b : B) × (o ≡ some a) × (p ≡ some b) × (f a b ≡ c)
both-some f (some a) (some b) c h = (a, b, refl, refl, cc)
both-some f (some a) none c h = cc
both-some f none p c h = cc

pub require_nfc-IsScalar :
    (nfc : Text → Text) (t : Text) → require_nfc nfc t ≡ true → All IsScalar t
unfolding require_nfc
require_nfc-IsScalar nfc t h = all_scalar-true t (and-true _ _ h).0

pub require_key-parts :
    (nfc : Text → Text) (safe : Bool) (seen : List Text) (s : Text)
    → require_key nfc safe seen s ≡ true
    → (require_nfc nfc s ≡ true) × (among seen s ≡ false)
unfolding require_key
require_key-parts nfc safe seen s h =
    let (normal, rest) = and-true _ _ h in (normal, not-true _ (and-true _ _ rest).0)

other_key :
    (seen : List Text) (s t : Text)
    → among seen s ≡ true
    → among seen t ≡ false
    → bytes_eq s t ≡ false
other_key seen s t p q = elim (Bool-cases (bytes_eq s t)) [
  | inr e ↦ e
  | inl e ↦ absurd (false≢true (sym q ∙ ap (among seen) (sym (bytes_eq→eq s t e)) ∙ p))
]

or_right : (a b : Bool) → b ≡ true → (a || b) ≡ true
or_right a b h = ground arith

pub canonical_dict-seen :
    (nfc : Text → Text) (safe : Bool) (d : ℕ) (seen : List Text) (s : Text) (e f : PyDict)
    → canonical_dict nfc safe d seen e ≡ some f
    → among seen s ≡ true
    → has_text s e ≡ false
unfolding canonical_value
canonical_dict-seen nfc safe d seen s no_entries f h p = refl
canonical_dict-seen nfc safe d seen s (entry t v e) f h p =
    let value = canonical_value nfc safe d v in
    let others = canonical_dict nfc safe d (t ∷ seen) e in
    let (key, rest) =
      guarded-some (require_key nfc safe seen t) (both (entry t) value others) f h in
    let (w, g, _, later, _) = both-some (entry t) value others f rest in
    let apart = other_key seen s t p (require_key-parts nfc safe seen t key).1 in
    rw apart (
      canonical_dict-seen nfc safe d (t ∷ seen) s e g later
        (or_right (bytes_eq t s) (among seen s) p))
