-- ===== src/Redis.antt =====
-- The part of Redis that the protocol uses: text under keys that may expire, read by one server
-- clock in milliseconds. Redis itself is not in the repository; this is the documented behaviour of
-- GET, SET with NX, EX and PX, DEL, PTTL and PEXPIRE. A script runs as one step.
pub mod Laws
use research_paper_aep.Base.{
  ℕ, ◌≡◌, String, Bool, ◌==◌, Option, if◌then◌else◌, ◌+◌, ◌&&◌, some, none, nat_eq, ltb, ◌-◌, false,
}

-- The key names: aep:state:{id}, aep:lock:{id}, aep:dispatch-auth:{id}:{intent} and
-- aep:poison:{id}:{epoch}. The ids hold no colon, so different names are different keys.
pub data RedisKey : Type 0 where
  state lock : String → RedisKey
  dispatch_auth : String → String → RedisKey
  poison : String → ℕ → RedisKey

unfoldable pub same_key : RedisKey → RedisKey → Bool
same_key (state a) (state b) = a == b
same_key (lock a) (lock b) = a == b
same_key (dispatch_auth a i) (dispatch_auth b j) = a == b && i == j
same_key (poison a m) (poison b n) = a == b && nat_eq m n
same_key _ _ = false

pub record Entry : Type 0 where
  pub content : String
  pub expires : Option ℕ

pub record Redis : Type 0 where
  pub clock : ℕ
  pub cell : RedisKey → Option Entry

abbrev pub live : ℕ → Option Entry → Option Entry
live now none = none
live now (some e) = elim e.expires [ none ↦ some e | some t ↦ if ltb now t then some e else none ]

abbrev pub content_of : Option Entry → Option String
content_of none = none
content_of (some e) = some e.content

-- GET
unfoldable pub get : Redis → RedisKey → Option String
get r k = content_of (live r.clock (r.cell k))

-- SET, with the expiry in milliseconds where one is given
unfoldable pub set : Redis → RedisKey → String → Option ℕ → Redis
set r k v ttl = record r {
  cell = λ j.
      if same_key k j
      then some
          (record { content = v; expires = elim ttl [ none ↦ none | some t ↦ some (r.clock + t) ] })
      else r.cell j;
}

-- DEL
unfoldable pub del : Redis → RedisKey → Redis
del r k = record r { cell = λ j. if same_key k j then none else r.cell j }

abbrev remaining : ℕ → Option Entry → Option ℕ
remaining now none = none
remaining now (some e) = elim e.expires [ none ↦ none | some t ↦ some (t - now) ]

-- PTTL; none stands for the negative answers, -2 for no key and -1 for no expiry
unfoldable pub pttl : Redis → RedisKey → Option ℕ
pttl r k = remaining r.clock (live r.clock (r.cell k))

abbrev extend : ℕ → Option Entry → Option Entry
extend until none = none
extend until (some e) = some (record e { expires = some until })

-- PEXPIRE
unfoldable pub pexpire : Redis → RedisKey → ℕ → Redis
pexpire r k ms = record r {
  cell = λ j. if same_key k j then extend (r.clock + ms) (live r.clock (r.cell j)) else r.cell j;
}

-- Time passes on the server.
unfoldable pub advance : Redis → ℕ → Redis
advance r ms = record r { clock = r.clock + ms }
