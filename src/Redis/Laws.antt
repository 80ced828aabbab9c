-- ===== src/Redis/Laws.antt =====
-- What a read finds after a write, in the form that rewriting uses.
use research_paper_aep.Base.{Option, String, arith, eq_refl, false, none, some, true, ℕ, ◌<◌, ◌≡◌}
use research_paper_aep.Redis.{
  Redis, RedisKey, del, dispatch_auth, get, lock, pexpire, poison, pttl, same_key, set, state,
}

same_key_refl : (k : RedisKey) → same_key k k ≡ true
unfolding same_key
same_key_refl (state a) = eq_refl a
same_key_refl (lock a) = eq_refl a
same_key_refl (dispatch_auth a i) = ground (arith, eq_refl a, eq_refl i)
same_key_refl (poison a n) = ground (arith, eq_refl a)

pub get-set_self_forever : (r : Redis) (k : RedisKey) (v : String) → get (set r k v none) k ≡ some v
unfolding get set
get-set_self_forever r k v = rw same_key_refl

-- A key that was written with an expiry in the future reads back.
pub get-set_self :
    (r : Redis) (k : RedisKey) (v : String) (t : ℕ) → 0 < t → get (set r k v (some t)) k ≡ some v
unfolding get set
get-set_self r k v t h = rw same_key_refl (ground arith)

pub get-set_ne :
    (r : Redis) (k j : RedisKey) (v : String) (t : Option ℕ)
    → same_key k j ≡ false
    → get (set r k v t) j ≡ get r j
unfolding get set
get-set_ne r k j v t h = rw h

pub pttl-set_ne :
    (r : Redis) (k j : RedisKey) (v : String) (t : Option ℕ)
    → same_key k j ≡ false
    → pttl (set r k v t) j ≡ pttl r j
unfolding pttl set
pttl-set_ne r k j v t h = rw h

pub get-del_self : (r : Redis) (k : RedisKey) → get (del r k) k ≡ none
unfolding get del
get-del_self r k = rw same_key_refl

pub get-del_ne : (r : Redis) (k j : RedisKey) → same_key k j ≡ false → get (del r k) j ≡ get r j
unfolding get del
get-del_ne r k j h = rw h

pub pttl-set_self :
    (r : Redis) (k : RedisKey) (v : String) (t : ℕ) → 0 < t → pttl (set r k v (some t)) k ≡ some t
unfolding pttl set
pttl-set_self r k v t h = rw same_key_refl (ground arith)

pub get-pexpire_ne :
    (r : Redis) (k j : RedisKey) (ms : ℕ) → same_key k j ≡ false → get (pexpire r k ms) j ≡ get r j
unfolding get pexpire
get-pexpire_ne r k j ms h = rw h
