-- ===== src/Intents/Cas/Fence.antt =====
use research_paper_aep.Base.{
  Option, String, ap, arith, false, none, refl, some, str_eq→eq, sym, true, ℕ, ◌*◌, ◌+◌, ◌<◌, ◌∙◌,
  ◌≡◌, ◌≢◌,
}
use research_paper_aep.Lua.Value.{LuaValue, lua_eq-num, num, number_of, ◌▸◌}
use research_paper_aep.Lua.Script.{Script, raised, reject, value}
use research_paper_aep.Intents.Cas.Args.{
  CasArgs, Codec, decoded_or_nil, holds_token, is_some_of, lua_successor, lua_successor_exact,
  next_version, ttl_or_zero,
}
use research_paper_aep.Intents.Cas.Header.{fence, positive}
use research_paper_aep.Intents.Cas.{commit, intent_cas, validate}
use research_paper_aep.Redis.{Redis, RedisKey, get, lock, same_key, state}
use research_paper_aep.Intents.Cas.Accepted.{Accepts, Accepts-Accepted, after, stored}
use research_paper_aep.Redis.Laws.{get-set_ne, get-set_self}

-- The fences of the intent script: the lease token, the monotonic version, and what it writes.

is_some_of-true :
    (o : Option ℕ) (v : LuaValue) → is_some_of o v ≡ true → (n : ℕ) × (o ≡ some n) × (v ≡ num n)
is_some_of-true none v h = cc
is_some_of-true (some n) v h = (n, refl, lua_eq-num v n h)

pub next_version-true :
    (o : Option ℕ) (n : ℕ) (v : LuaValue)
    → o ≡ some n
    → is_some_of (next_version o) v ≡ true
    → v ≡ num (lua_successor n)
next_version-true none n v e h = cc
next_version-true (some m) n v e h =
    let same : m ≡ n = cc e in
    lua_eq-num v (lua_successor m) h ∙ ap (λ k. num (lua_successor k)) same

pub holds_token-true : (o : Option String) (t : String) → holds_token o t ≡ true → o ≡ some t
holds_token-true none t h = cc
holds_token-true (some s) t h = ap some (str_eq→eq s t h)

ttl_pos : (o : Option ℕ) → positive o ≡ true → 0 < ttl_or_zero o * 1000
ttl_pos none h = cc
ttl_pos (some n) h = ground arith

module _ (a : CasArgs) (before new : LuaValue) (h : fence a before new ≡ value tt) where
  fence-tests :
      (is_some_of a.expected (before ▸ "version") ≡ true)
      × (is_some_of (next_version a.expected) (new ▸ "version") ≡ true)
      × (positive a.ttl ≡ true)
  unfolding fence
  fence-tests = ground arith

  pub fence-versions :
      (n : ℕ) × (a.expected ≡ some n)
      × (before ▸ "version" ≡ num n)
      × (new ▸ "version" ≡ num (lua_successor n))
  fence-versions =
      let (is_expected, is_next, _) = fence-tests in
      let (n, e, v) = is_some_of-true a.expected (before ▸ "version") is_expected in
      (n, e, v, next_version-true a.expected n (new ▸ "version") e is_next)

  pub fence-ttl : 0 < ttl_or_zero a.ttl * 1000
  fence-ttl = ttl_pos a.ttl fence-tests.2

lua_successor_stuck : (n : ℕ) → n ≡ 9007199254740992 → lua_successor n ≡ n
unfolding lua_successor
lua_successor_stuck n h = ap lua_successor h ∙ sym h

module _ (c : Codec) (id : String) (a : CasArgs) (r : Redis) (h : Accepts c id a r) where
  -- The state that is read after an accepted script is the payload.
  pub stored-after : stored c id (after c id a r) ≡ decoded_or_nil (c.decode a.payload)
  unfolding stored
  stored-after =
      let (ok, wrote) = Accepts-Accepted c id a r h in
      rw (
        wrote,
        get-set_self r (state id) a.payload (ttl_or_zero a.ttl * 1000) (fence-ttl a _ _ ok.fenced),
      )

  -- An accepted script ran under the lease that its caller holds, from exactly the version that the
  -- caller expected, and left the successor that Lua computes of that version: one more below 2^53, and
  -- at 2^53 the same version again. The lease is as it was.
  pub intent_cas_fenced :
      (n : ℕ) × (a.expected ≡ some n)
      × (get r (lock id) ≡ some a.token)
      × (stored c id r ▸ "version" ≡ num n)
      × (stored c id (after c id a r) ▸ "version" ≡ num (lua_successor n))
      × (n < 9007199254740992 → lua_successor n ≡ n + 1)
      × (n ≡ 9007199254740992 → lua_successor n ≡ n)
      × (get (after c id a r) (lock id) ≡ some a.token)
  unfolding same_key
  intent_cas_fenced =
      let (ok, wrote) = Accepts-Accepted c id a r h in
      let (n, e, v, w) = fence-versions a _ _ ok.fenced in
      let holder = holds_token-true (get r (lock id)) a.token ok.held in
      (
        n,
        e,
        holder,
        v,
        rw stored-after w,
        lua_successor_exact n,
        lua_successor_stuck n,
        rw (wrote, get-set_ne r (state id) (lock id) a.payload _ refl) holder,
      )

-- A script that does not answer 1 leaves Redis as it was, and one that does changes no key but the
-- execution's state.
pub intent_cas_frame :
    (c : Codec) (id : String) (a : CasArgs) (r : Redis)
    → ((intent_cas c id a r).0 ≢ value 1 → after c id a r ≡ r)
      × ((k : RedisKey) → same_key (state id) k ≡ false → get (after c id a r) k ≡ get r k)
unfolding intent_cas
intent_cas_frame c id a r = by_outcome (validate c a (get r (state id)) (get r (lock id)))
  where
    by_outcome :
        (m : Script (Unit {0}))
        → ((commit id a r m).0 ≢ value 1 → (commit id a r m).1 ≡ r)
          × ((k : RedisKey) → same_key (state id) k ≡ false → get (commit id a r m).1 k ≡ get r k)
    by_outcome (value tt) =
        (λ refused. absurd (refused refl), λ k other. get-set_ne r (state id) k a.payload _ other)
    by_outcome (reject n) = (λ refused. refl, λ k other. refl)
    by_outcome raised = (λ refused. refl, λ k other. refl)

-- Of two scripts that expect the same version below 2^53, the second does not go through after the
-- first, whoever sends them and whatever they carry.
pub intent_cas_once :
    (c : Codec) (id : String) (a b : CasArgs) (r : Redis) (n : ℕ)
    → a.expected ≡ some n
    → b.expected ≡ some n
    → n < 9007199254740992
    → Accepts c id a r
    → ¬ Accepts c id b (after c id a r)
intent_cas_once c id a b r n ea eb small before later =
    let (k, e, _, _, w, _, _, _) = intent_cas_fenced c id a r before in
    let (m, e', _, v', _, _, _, _) = intent_cas_fenced c id b (after c id a r) later in
    let from : n ≡ k = cc (ea, e) in
    let from' : n ≡ m = cc (eb, e') in
    let equal : lua_successor k ≡ m = ap number_of (sym w ∙ v') in
    let exact : lua_successor n ≡ n + 1 = lua_successor_exact n small in
    let same : lua_successor n ≡ n = cc (from, from', equal) in omega (arith, exact, same)
