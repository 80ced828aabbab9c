-- ===== src/Lua/Script.antt =====
-- A script either goes on, returns a negative number, or stops with a Lua error.
use research_paper_aep.Base.{All, Bool, List, [], false, refl, true, ℕ, ◌∷◌, ◌≡◌}

-- reject n stands for the Lua line that returns -n.

pub data Script {ℓ} (A : Type ℓ) : Type ℓ where
  value : A → Script A
  reject : ℕ → Script A
  raised : Script A

infixl 5 ◌>>=◌ ◌>>◌
abbrev pub ◌>>=◌ {ℓ κ} : {A : Type ℓ} {B : Type κ} → Script A → (A → Script B) → Script B
value a >>= f = f a
reject n >>= f = reject n
raised >>= f = raised

abbrev pub ◌>>◌ {ℓ} : {B : Type ℓ} → Script (Unit {0}) → Script B → Script B
m >> k = m >>= λ _. k

-- if not b then return -n end
abbrev pub guard : Bool → ℕ → Script (Unit {0})
guard true n = value tt
guard false n = reject n

-- for k, v in pairs(t) do ... end, where the body may return
unfoldable pub each {ℓ} : {A : Type ℓ} → List A → (A → Script (Unit {0})) → Script (Unit {0})
each [] f = value tt
each (x ∷ xs) f = f x >> each xs f

pub >>=-eq-value {ℓ κ} :
    {A : Type ℓ} {B : Type κ} (m : Script A) (f : A → Script B) {b : B}
    → (m >>= f) ≡ value b
    → (a : A) × (m ≡ value a) × (f a ≡ value b)
>>=-eq-value (value a) f h = (a, refl, h)
>>=-eq-value (reject n) f h = cc
>>=-eq-value raised f h = cc

pub >>-eq-value {ℓ} :
    {B : Type ℓ} (m : Script (Unit {0})) (k : Script B) {b : B}
    → (m >> k) ≡ value b
    → (m ≡ value tt) × (k ≡ value b)
>>-eq-value (value tt) k h = (refl, h)
>>-eq-value (reject n) k h = cc
>>-eq-value raised k h = cc

pub guard-eq-value : (b : Bool) (n : ℕ) → guard b n ≡ value tt → b ≡ true
guard-eq-value true n h = refl
guard-eq-value false n h = cc

pub each-eq-value {ℓ} :
    {A : Type ℓ} (xs : List A) (f : A → Script (Unit {0}))
    → each xs f ≡ value tt
    → All (λ x. f x ≡ value tt) xs
unfolding each
each-eq-value [] f h = tt
each-eq-value (x ∷ xs) f h =
    let p = >>-eq-value (f x) (each xs f) h in (p.0, each-eq-value xs f p.1)

pub is_value {ℓ} : {A : Type ℓ} → Script A → Bool
is_value (value a) = true
is_value _ = false

pub guard-eq-value_rest {ℓ} :
    {B : Type ℓ} (b : Bool) (n : ℕ) (k : Script B) {x : B}
    → (guard b n >> k) ≡ value x
    → (b ≡ true) × (k ≡ value x)
guard-eq-value_rest true n k h = (refl, h)
guard-eq-value_rest false n k h = cc

pub each-guard {ℓ} :
    {A : Type ℓ} (xs : List A) (test : A → Bool) (n : ℕ)
    → each xs (λ x. guard (test x) n) ≡ value tt
    → All (λ x. test x ≡ true) xs
unfolding each
each-guard [] test n h = tt
each-guard (x ∷ xs) test n h =
    let p = guard-eq-value_rest (test x) n _ h in (p.0, each-guard xs test n p.1)

pub value-injective {ℓ} : {A : Type ℓ} {a b : A} → value a ≡ value b → a ≡ b
value-injective {A} {a} {b} h = cc
