-- ===== src/Lua/Equal.antt =====
-- deep_equal of the intent script.
use research_paper_aep.Base.{
  All, Bool, Bool-cases, List, String, [], and-true, ap, arith, false, inl, inr, nat_eq→eq, not,
  not-true, refl, str_eq→eq, subst, true, ◌&&◌, ◌==◌, ◌∷◌, ◌≡◌, ◌≢◌,
}
use research_paper_aep.Lua.Value.{
  Fields, LuaKey, LuaValue, at, bool, done, entries, field, fields, find, index, is_nil, is_table,
  key_eq, lua_eq, name, nil, null, num, table, text,
}

-- the second loop of deep_equal: every key of b is a key of a
unfoldable pub keys_within : Fields → Fields → Bool
keys_within done fs = true
keys_within (field k _ gs) fs = not (is_nil (find k fs)) && keys_within gs fs

unfoldable mutual
  pub deep_equal : LuaValue → LuaValue → Bool
  deep_equal nil b = lua_eq nil b
  deep_equal null b = lua_eq null b
  deep_equal (bool x) b = lua_eq (bool x) b
  deep_equal (num n) b = lua_eq (num n) b
  deep_equal (text s) b = lua_eq (text s) b
  deep_equal (table fs) b = is_table b && (each_equal fs b && keys_within (fields b) fs)

  -- the first loop of deep_equal, over the entries of a
  pub each_equal : Fields → LuaValue → Bool
  each_equal done b = true
  each_equal (field k v fs) b = deep_equal v (find k (fields b)) && each_equal fs b

pub key_eq→eq : (j k : LuaKey) → key_eq j k ≡ true → j ≡ k
key_eq→eq (name a) (name b) h = ap name (str_eq→eq a b h)
key_eq→eq (at m) (at n) h = ap at (nat_eq→eq m n h)
key_eq→eq (name a) (at n) h = cc
key_eq→eq (at m) (name b) h = cc

each_equal-find :
    (k : LuaKey) (fs : Fields) (b : LuaValue)
    → each_equal fs b ≡ true
    → is_nil (find k fs) ≡ false
    → deep_equal (find k fs) (find k (fields b)) ≡ true
unfolding each_equal find
each_equal-find k done b h p = cc
each_equal-find k (field j v fs) b h p =
    let both = and-true (deep_equal v (find j (fields b))) (each_equal fs b) h in
    elim (Bool-cases (key_eq j k)) [
      | inl e ↦ rw e (subst (λ i. deep_equal v (find i (fields b)) ≡ true) (key_eq→eq j k e) both.0)
      | inr e ↦ rw e (each_equal-find k fs b both.1 (rw e at p))
    ]

keys_within-find :
    (k : LuaKey) (gs fs : Fields)
    → keys_within gs fs ≡ true
    → is_nil (find k fs) ≡ true
    → find k gs ≡ nil
unfolding keys_within find
keys_within-find k done fs h p = refl
keys_within-find k (field j v gs) fs h p =
    let both = and-true (not (is_nil (find j fs))) (keys_within gs fs) h in
    elim (Bool-cases (key_eq j k)) [
      | inl e ↦
          let absent : is_nil (find j fs) ≡ true = rw (key_eq→eq j k e) p in
          cc (not-true (is_nil (find j fs)) both.0)
      | inr e ↦ rw e (keys_within-find k gs fs both.1 p)
    ]

is_nil→eq : (v : LuaValue) → is_nil v ≡ true → v ≡ nil
is_nil→eq nil h = refl
is_nil→eq null h = cc
is_nil→eq (bool x) h = cc
is_nil→eq (num n) h = cc
is_nil→eq (text s) h = cc
is_nil→eq (table fs) h = cc

-- Equal values have equal entries under every key.
pub deep_equal-index :
    (a b : LuaValue) (k : LuaKey)
    → deep_equal a b ≡ true
    → deep_equal (index a k) (index b k) ≡ true
unfolding deep_equal find
deep_equal-index (table fs) (table gs) k h =
    let both = and-true (each_equal fs (table gs)) (keys_within gs fs) h in
    elim (Bool-cases (is_nil (find k fs))) [
      | inl e ↦ rw (is_nil→eq (find k fs) e) (rw (keys_within-find k gs fs both.1 e) refl)
      | inr e ↦ each_equal-find k fs (table gs) both.0 e
    ]
deep_equal-index (table fs) nil k h = cc
deep_equal-index (table fs) null k h = cc
deep_equal-index (table fs) (bool x) k h = cc
deep_equal-index (table fs) (num n) k h = cc
deep_equal-index (table fs) (text s) k h = cc
deep_equal-index nil b k h = ground arith
deep_equal-index null b k h = ground arith
deep_equal-index (bool x) b k h = ground arith
deep_equal-index (num n) b k h = ground arith
deep_equal-index (text s) b k h = ground arith

-- A value without the contents of a table.
abbrev pub shape : LuaValue → LuaValue
shape (table _) = table done
shape v = v

-- The value under a path of keys.
abbrev pub along : LuaValue → List LuaKey → LuaValue
along v [] = v
along v (k ∷ ks) = along (index v k) ks

-- Nothing that a reader finds by following keys differs.
abbrev pub SameValue : LuaValue → LuaValue → Type 0
SameValue a b = (path : List LuaKey) → shape (along a path) ≡ shape (along b path)

pub deep_equal-shape : (a b : LuaValue) → deep_equal a b ≡ true → shape a ≡ shape b
unfolding deep_equal
deep_equal-shape (table fs) b h = ground arith
deep_equal-shape nil b h = ground arith
deep_equal-shape null b h = ground arith
deep_equal-shape (bool true) b h = ground arith
deep_equal-shape (bool false) b h = ground arith
deep_equal-shape (num n) b h = ground arith
deep_equal-shape (text s) nil h = cc
deep_equal-shape (text s) null h = cc
deep_equal-shape (text s) (bool x) h = cc
deep_equal-shape (text s) (num n) h = cc
deep_equal-shape (text s) (table fs) h = cc
deep_equal-shape (text s) (text t) h = ap text (str_eq→eq s t h)

pub deep_equal-SameValue : (a b : LuaValue) → deep_equal a b ≡ true → SameValue a b
deep_equal-SameValue a b h [] = deep_equal-shape a b h
deep_equal-SameValue a b h (k ∷ ks) =
    deep_equal-SameValue (index a k) (index b k) (deep_equal-index a b k h) ks

-- What holds of every entry that pairs visits holds of what a key finds.
pub All-find {ℓ} :
    (P : LuaKey × LuaValue → Type ℓ) (k : LuaKey) (fs : Fields)
    → All P (entries fs)
    → is_nil (find k fs) ≡ false
    → P (k, find k fs)
unfolding entries find
All-find P k done h p = cc
All-find P k (field j v fs) h p = elim (Bool-cases (key_eq j k)) [
  | inl e ↦ rw e (subst (λ i. P (i, v)) (key_eq→eq j k e) h.0)
  | inr e ↦ rw e (All-find P k fs h.1 (rw e at p))
]

pub key_eq_ne : (i j : String) → i ≢ j → key_eq (name i) (name j) ≡ false
key_eq_ne i j h = elim (Bool-cases (i == j)) [ inl e ↦ absurd (h (str_eq→eq i j e)) | inr e ↦ e ]
