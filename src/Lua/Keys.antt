-- ===== src/Lua/Keys.antt =====
use research_paper_aep.Base.{
  All, Bool, Bool-cases, List, [], ap, arith, eq_refl, false, false≢true, if◌then◌else◌, inl, inr,
  length, nat_eq_refl, refl, subst, suc, sym, true, ◌||◌, ◌∙◌, ◌∷◌, ◌≡◌, ◌≤◌,
}
use research_paper_aep.Lua.Value.{
  Fields, LuaKey, LuaValue, at, done, entries, field, find, is_nil, key_eq, name,
}
use research_paper_aep.Lua.Equal.{key_eq→eq}

-- The keys of a Lua table: where one table has every key of another and no more entries, it has no
-- other key. aep_core/core/intents.py counts the entries of the two ledgers.

abbrev pub has_key : LuaKey → List (LuaKey × LuaValue) → Bool
has_key k [] = false
has_key k ((j, v) ∷ xs) = key_eq j k || has_key k xs

-- No key comes twice, as in every table.
abbrev pub IsKeyedOnce : List (LuaKey × LuaValue) → Type 0
IsKeyedOnce [] = Unit
IsKeyedOnce ((j, v) ∷ xs) = (has_key j xs ≡ false) × IsKeyedOnce xs

erase : LuaKey → List (LuaKey × LuaValue) → List (LuaKey × LuaValue)
erase k [] = []
erase k ((j, v) ∷ xs) = if key_eq j k then xs else (j, v) ∷ erase k xs

pub key_eq_refl : (k : LuaKey) → key_eq k k ≡ true
key_eq_refl (name s) = eq_refl s
key_eq_refl (at n) = nat_eq_refl n

length-erase :
    (k : LuaKey) (ys : List (LuaKey × LuaValue))
    → has_key k ys ≡ true
    → length ys ≡ suc (length (erase k ys))
unfolding erase
length-erase k [] h = cc
length-erase k ((j, v) ∷ ys) h = elim (Bool-cases (key_eq j k)) [
  | inl e ↦ rw e refl
  | inr e ↦ rw e (ap suc (length-erase k ys (rw e at h)))
]

has_key-erase :
    (k j : LuaKey) (ys : List (LuaKey × LuaValue))
    → key_eq k j ≡ false
    → has_key j (erase k ys) ≡ has_key j ys
unfolding erase
has_key-erase k j [] h = refl
has_key-erase k j ((i, v) ∷ ys) h = elim (Bool-cases (key_eq i k)) [
  | inl e ↦
      let other : key_eq i j ≡ false = subst (λ l. key_eq l j ≡ false) (sym (key_eq→eq i k e)) h in
      rw (e, other) refl
  | inr e ↦ rw e (ap (λ b. key_eq i j || b) (has_key-erase k j ys h))
]

or-or : (a b : Bool) → (a || b) ≡ true → a ≡ false → b ≡ true
or-or a b h e = ground arith

or_first : (a b : Bool) → a ≡ true → (a || b) ≡ true
or_first a b h = ground arith

or_second : (a b : Bool) → b ≡ true → (a || b) ≡ true
or_second a b h = ground arith

-- A list of entries with distinct keys, all of which are among ys, leaves no other key to a ys that is
-- not longer.
pub no_other_key :
    (xs ys : List (LuaKey × LuaValue))
    → IsKeyedOnce xs
    → ((k : LuaKey) → has_key k xs ≡ true → has_key k ys ≡ true)
    → length ys ≤ length xs
    → (k : LuaKey) → has_key k ys ≡ true
    → has_key k xs ≡ true
no_other_key [] [] once sub le k h = h
no_other_key [] (y ∷ ys) once sub le k h = absurd (omega arith)
no_other_key ((j, v) ∷ xs) ys once sub le k h =
    let here = sub j (or_first _ _ (key_eq_refl j)) in
    let shorter : length (erase j ys) ≤ length xs = omega (arith, length-erase j ys here) in
    let rest =
      no_other_key xs (erase j ys) once.1
        (λ i p. elim (Bool-cases (key_eq j i)) [
          | inl e ↦
              absurd (
                false≢true
                  (sym once.0 ∙ subst (λ l. has_key l xs ≡ true) (sym (key_eq→eq j i e)) p))
          | inr e ↦ has_key-erase j i ys e ∙ sub i (or_second _ _ p)
        ])
        shorter in
    elim (Bool-cases (key_eq j k)) [
      | inl e ↦ or_first _ _ e
      | inr e ↦ or_second _ _ (rest k (has_key-erase j k ys e ∙ h))
    ]

pub find-has_key :
    (k : LuaKey) (fs : Fields) → is_nil (find k fs) ≡ false → has_key k (entries fs) ≡ true
unfolding find entries
find-has_key k done h = cc
find-has_key k (field j v fs) h = elim (Bool-cases (key_eq j k)) [
  | inl e ↦ or_first _ _ e
  | inr e ↦ or_second _ _ (find-has_key k fs (rw e at h))
]

pub has_key-find :
    (k : LuaKey) (fs : Fields)
    → All (λ p. key_eq p.0 k ≡ true → is_nil p.1 ≡ false) (entries fs)
    → has_key k (entries fs) ≡ true
    → is_nil (find k fs) ≡ false
unfolding find entries
has_key-find k done all h = cc
has_key-find k (field j v fs) all h = elim (Bool-cases (key_eq j k)) [
  | inl e ↦ rw e (all.0 e)
  | inr e ↦ rw e (has_key-find k fs all.1 (or-or _ _ h e))
]

-- What holds of each entry holds at each key that there is.
pub All-has_key :
    (P : LuaKey → Type 0) (k : LuaKey) (xs : List (LuaKey × LuaValue))
    → All (λ p. P p.0) xs
    → has_key k xs ≡ true
    → P k
All-has_key P k [] all h = cc
All-has_key P k ((j, v) ∷ xs) all h = elim (Bool-cases (key_eq j k)) [
  | inl e ↦ subst P (key_eq→eq j k e) all.0
  | inr e ↦ All-has_key P k xs all.1 (or-or _ _ h e)
]
