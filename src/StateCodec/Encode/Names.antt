-- ===== src/StateCodec/Encode/Names.antt =====
use research_paper_aep.Base.{
  All, Bool, Bool-cases, [], and-true, ap, arith, false, false≢true, inl, inr, nat_eq_refl,
  nat_eq→eq, or-eq-false, refl, some, sym, true, ℕ, ◌||◌, ◌∙◌, ◌∷◌, ◌≡◌,
}
use research_paper_aep.StateCodec.{Bytes, bytes_eq}
use research_paper_aep.StateCodec.Encode.{
  PyDict, PyList, PyValue, Text, dict_value, entry, insert_entry, item, list_value, no_entries,
  no_items, sorted_dict, sorted_list, sorted_value, text_lt,
}
use research_paper_aep.StateCodec.Utf8.Exact.{IsScalar, encode, encode_all, read, read-encode}

-- The keys of the mappings that encode_state of aep_core/core/state_codec.py writes: distinct keys are
-- written as distinct names.

pub bytes_eq→eq : (xs ys : Bytes) → bytes_eq xs ys ≡ true → xs ≡ ys
bytes_eq→eq [] [] h = refl
bytes_eq→eq [] (y ∷ ys) h = cc
bytes_eq→eq (x ∷ xs) [] h = cc
bytes_eq→eq (x ∷ xs) (y ∷ ys) h =
    let (here, there) = and-true _ _ h in
    ap (λ z. z ∷ xs) (nat_eq→eq x y here) ∙ ap (λ zs. y ∷ zs) (bytes_eq→eq xs ys there)

encode-injective : (c d : ℕ) (k : Bytes) → IsScalar c → IsScalar d → encode c k ≡ encode d k → c ≡ d
unfolding encode
encode-injective c d k (inl p) (inl q) h = ground arith
encode-injective c d k (inl p) (inr q) h = ground arith
encode-injective c d k (inr p) (inl q) h = ground arith
encode-injective c d k (inr p) (inr q) h = ground arith

pub encode_all-injective :
    (s t : Text) → All IsScalar s → All IsScalar t → encode_all s ≡ encode_all t → s ≡ t
unfolding encode_all
encode_all-injective [] [] p q h = refl
encode_all-injective [] (d ∷ t) p q h = cc (ap read h ∙ read-encode d (encode_all t) q.0)
encode_all-injective (c ∷ s) [] p q h = cc (ap read (sym h) ∙ read-encode c (encode_all s) p.0)
encode_all-injective (c ∷ s) (d ∷ t) p q h =
    let rests : encode_all s ≡ encode_all t =
      some-injective
        (sym (read-encode c (encode_all s) p.0) ∙ ap read h ∙ read-encode d (encode_all t) q.0) in
    let heads : encode c (encode_all t) ≡ encode d (encode_all t) = sym (ap (encode c) rests) ∙ h in
    ap (λ x. x ∷ s) (encode-injective c d (encode_all t) p.0 q.0 heads)
    ∙ ap (λ xs. d ∷ xs) (encode_all-injective s t p.1 q.1 rests)
  where
    some-injective : {xs ys : Bytes} → some xs ≡ some ys → xs ≡ ys
    some-injective e = ground arith

abbrev pub has_text : Text → PyDict → Bool
has_text s no_entries = false
has_text s (entry t v d) = bytes_eq s t || has_text s d

-- The keys of every mapping are distinct, as in Python they are.
unfoldable mutual
  pub IsKeyed : PyValue → Type 0
  IsKeyed (list_value xs) = IsKeyedList xs
  IsKeyed (dict_value d) = IsKeyedDict d
  IsKeyed v = Unit

  pub IsKeyedList : PyList → Type 0
  IsKeyedList no_items = Unit
  IsKeyedList (item v xs) = IsKeyed v × IsKeyedList xs

  pub IsKeyedDict : PyDict → Type 0
  IsKeyedDict no_entries = Unit
  IsKeyedDict (entry s v d) = (has_text s d ≡ false) × IsKeyed v × IsKeyedDict d

bytes_eq_refl : (xs : Bytes) → bytes_eq xs xs ≡ true
bytes_eq_refl [] = refl
bytes_eq_refl (x ∷ xs) = rw (nat_eq_refl x) (bytes_eq_refl xs)

pub same_text : (s t : Text) → s ≡ t → bytes_eq s t ≡ true
same_text s t e = ap (λ u. bytes_eq u t) e ∙ bytes_eq_refl t

pub text_sym : (s t : Text) → bytes_eq s t ≡ false → bytes_eq t s ≡ false
text_sym s t h = elim (Bool-cases (bytes_eq t s)) [
  | inl e ↦ absurd (false≢true (sym h ∙ same_text s t (sym (bytes_eq→eq t s e))))
  | inr e ↦ e
]

has_text-insert_entry :
    (t s : Text) (v : PyValue) (d : PyDict)
    → has_text t (insert_entry s v d) ≡ (bytes_eq t s || has_text t d)
unfolding insert_entry
has_text-insert_entry t s v no_entries = refl
has_text-insert_entry t s v (entry u w d) = ground (arith, has_text-insert_entry t s v d)

insert_entry-IsKeyedDict :
    (s : Text) (v : PyValue) (d : PyDict)
    → has_text s d ≡ false
    → IsKeyed v
    → IsKeyedDict d
    → IsKeyedDict (insert_entry s v d)
unfolding insert_entry IsKeyed
insert_entry-IsKeyedDict s v no_entries h p q = (refl, p, tt)
insert_entry-IsKeyedDict s v (entry u w d) h p q = elim (Bool-cases (text_lt s u)) [
  | inl e ↦ rw e (h, p, q)
  | inr e ↦
      let (other, later) = or-eq-false _ _ h in
      rw e (
        has_text-insert_entry u s v d ∙ (rw (text_sym s u other) q.0),
        q.1,
        insert_entry-IsKeyedDict s v d later p q.2,
      )
]

mutual
  unfolding sorted_value IsKeyed

  pub sorted_value-IsKeyed : (v : PyValue) → IsKeyed v → IsKeyed (sorted_value v)
  sorted_value-IsKeyed (list_value xs) h = sorted_list-IsKeyedList xs h
  sorted_value-IsKeyed (dict_value d) h = (sorted_dict-IsKeyedDict d h).0
  sorted_value-IsKeyed _ h = h

  sorted_list-IsKeyedList : (xs : PyList) → IsKeyedList xs → IsKeyedList (sorted_list xs)
  sorted_list-IsKeyedList no_items h = tt
  sorted_list-IsKeyedList (item v xs) h =
      (sorted_value-IsKeyed v h.0, sorted_list-IsKeyedList xs h.1)

  sorted_dict-IsKeyedDict :
      (d : PyDict)
      → IsKeyedDict d
      → IsKeyedDict (sorted_dict d) × ((t : Text) → has_text t (sorted_dict d) ≡ has_text t d)
  sorted_dict-IsKeyedDict no_entries h = (tt, λ t. refl)
  sorted_dict-IsKeyedDict (entry s v d) h =
      let (once, same) = sorted_dict-IsKeyedDict d h.2 in
      (
        insert_entry-IsKeyedDict s (sorted_value v) (sorted_dict d) (same s ∙ h.0)
            (sorted_value-IsKeyed v h.1) once,
        λ t.
            has_text-insert_entry t s (sorted_value v) (sorted_dict d)
            ∙ ap (λ b. bytes_eq t s || b) (same t),
      )
