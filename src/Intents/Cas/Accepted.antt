-- ===== src/Intents/Cas/Accepted.antt =====
use research_paper_aep.Base.{Option, String, arith, none, refl, some, subst, true, ◌&&◌, ◌*◌, ◌≡◌}
use research_paper_aep.Lua.Value.{LuaValue, is_num, is_table, nil, ◌▸◌}
use research_paper_aep.Lua.Script.{>>-eq-value, >>=-eq-value, Script, raised, reject, value, ◌>>◌}
use research_paper_aep.Intents.Cas.Args.{CasArgs, Codec, decoded_or_nil, holds_token, ttl_or_zero}
use research_paper_aep.Intents.Cas.Header.{fence, frame, read_states}
use research_paper_aep.Intents.Cas.Ledger.{retention}
use research_paper_aep.Intents.Cas.Update.{audit, unconfirmed}
use research_paper_aep.Intents.Cas.{branch, commit, intent_cas, validate}
use research_paper_aep.Redis.{Redis, get, lock, set, state}
use research_paper_aep.Lua.Equal.{shape}

-- What an answer 1 of the intent script tells: every stretch of the script went through.

-- The decoded state under the execution's key, nil where there is none.
abbrev pub decoded : Codec → Option String → LuaValue
decoded c none = nil
decoded c (some raw) = decoded_or_nil (c.decode raw)

unfoldable pub stored : Codec → String → Redis → LuaValue
stored c id r = decoded c (get r (state id))

abbrev pub Accepts : Codec → String → CasArgs → Redis → Type 0
Accepts c id a r = (intent_cas c id a r).0 ≡ value 1

-- The Redis that the script leaves.
abbrev pub after : Codec → String → CasArgs → Redis → Redis
after c id a r = (intent_cas c id a r).1

pub record Accepted (c : Codec) (a : CasArgs) (holder : Option String) (before new : LuaValue)
    : Type 0 where
  pub held : holds_token holder a.token ≡ true
  pub before_shape :
      (is_table before && is_num (before ▸ "version") && is_table (before ▸ "intent_ledger")) ≡ true
  pub new_shape : (is_table new && is_table (new ▸ "intent_ledger")) ≡ true
  pub fenced : fence a before new ≡ value tt
  pub framed : frame before new ≡ value tt
  pub branched : branch c a before new ≡ value tt
  pub progressed : unconfirmed a before new ≡ value tt
  pub audited : audit a new ≡ value tt
  pub retained : retention a new ≡ value tt

read_states-parts :
    (c : Codec) (a : CasArgs) (raw : String) (holder : Option String) {p : LuaValue × LuaValue}
    → read_states c a (some raw) holder ≡ value p
    → (holds_token holder a.token ≡ true)
      × (p ≡ (decoded_or_nil (c.decode raw), decoded_or_nil (c.decode a.payload)))
      × ((is_table p.0 && is_num (p.0 ▸ "version") && is_table (p.0 ▸ "intent_ledger")) ≡ true)
      × ((is_table p.1 && is_table (p.1 ▸ "intent_ledger")) ≡ true)
unfolding read_states
read_states-parts c a raw holder {p} h = ground arith

stretches-Accepted :
    (c : Codec) (a : CasArgs) (holder : Option String) (before new : LuaValue)
    → (fence a before new
        >> (frame before new
            >> (branch c a before new
                >> (unconfirmed a before new >> (audit a new >> retention a new)))))
      ≡ value tt
    → holds_token holder a.token ≡ true
    → (is_table before && is_num (before ▸ "version") && is_table (before ▸ "intent_ledger")) ≡ true
    → (is_table new && is_table (new ▸ "intent_ledger")) ≡ true
    → Accepted c a holder before new
stretches-Accepted c a holder before new h held shape shape' =
    let fenced = >>-eq-value (fence a before new) _ h in
    let framed = >>-eq-value (frame before new) _ fenced.1 in
    let branched = >>-eq-value (branch c a before new) _ framed.1 in
    let progressed = >>-eq-value (unconfirmed a before new) _ branched.1 in
    let audited = >>-eq-value (audit a new) _ progressed.1 in
    record {
      held = held;
      before_shape = shape;
      new_shape = shape';
      fenced = fenced.0;
      framed = framed.0;
      branched = branched.0;
      progressed = progressed.0;
      audited = audited.0;
      retained = audited.1;
    }

validate-Accepted :
    (c : Codec) (a : CasArgs) (raw : String) (holder : Option String)
    → validate c a (some raw) holder ≡ value tt
    → Accepted c a holder (decoded_or_nil (c.decode raw)) (decoded_or_nil (c.decode a.payload))
unfolding validate
validate-Accepted c a raw holder h =
    let (p, read, rest) = >>=-eq-value (read_states c a (some raw) holder) _ h in
    let (held, e, shape, shape') = read_states-parts c a raw holder read in
    subst (λ (q : LuaValue × LuaValue). Accepted c a holder q.0 q.1) e
      (stretches-Accepted c a holder p.0 p.1 rest held shape shape')

validate-missing :
    (c : Codec) (a : CasArgs) (holder : Option String) → validate c a none holder ≡ reject 2
unfolding validate read_states
validate-missing c a holder = refl

validate-decoded :
    (c : Codec) (a : CasArgs) (raw holder : Option String)
    → validate c a raw holder ≡ value tt
    → Accepted c a holder (decoded c raw) (decoded_or_nil (c.decode a.payload))
validate-decoded c a none holder h = cc (validate-missing c a holder)
validate-decoded c a (some raw) holder h = validate-Accepted c a raw holder h

commit-value :
    (id : String) (a : CasArgs) (r : Redis) (m : Script (Unit {0}))
    → (commit id a r m).0 ≡ value 1
    → (m ≡ value tt)
      × ((commit id a r m).1 ≡ set r (state id) a.payload (some (ttl_or_zero a.ttl * 1000)))
unfolding commit
commit-value id a r (value tt) h = (refl, refl)
commit-value id a r (reject n) h = cc
commit-value id a r raised h = cc

-- An accepted script had a state to start from, went through, and wrote its payload.
pub Accepts-Accepted :
    (c : Codec) (id : String) (a : CasArgs) (r : Redis)
    → Accepts c id a r
    → Accepted c a (get r (lock id)) (stored c id r) (decoded_or_nil (c.decode a.payload))
      × (after c id a r ≡ set r (state id) a.payload (some (ttl_or_zero a.ttl * 1000)))
unfolding intent_cas stored
Accepts-Accepted c id a r h =
    let (checked, wrote) =
      commit-value id a r (validate c a (get r (state id)) (get r (lock id))) h in
    (validate-decoded c a (get r (state id)) (get r (lock id)) checked, wrote)

read_states-checked :
    (c : Codec) (a : CasArgs) (raw : String) (holder : Option String) {p : LuaValue × LuaValue}
    → read_states c a (some raw) holder ≡ value p
    → (c.member_check raw ≡ 0) × (c.member_check a.payload ≡ 0)
unfolding read_states
read_states-checked c a raw holder {p} h = (ground arith, ground arith)

validate-checked :
    (c : Codec) (a : CasArgs) (stored_raw holder : Option String)
    → validate c a stored_raw holder ≡ value tt
    → (raw : String) × (stored_raw ≡ some raw)
      × (c.member_check raw ≡ 0)
      × (c.member_check a.payload ≡ 0)
unfolding validate
validate-checked c a none holder h = cc (validate-missing c a holder)
validate-checked c a (some raw) holder h =
    let (p, read, rest) = >>=-eq-value (read_states c a (some raw) holder) _ h in
    let (was, is) = read_states-checked c a raw holder read in (raw, refl, was, is)

-- Both raw texts passed the check.
pub Accepts-checked :
    (c : Codec) (id : String) (a : CasArgs) (r : Redis)
    → Accepts c id a r
    → (raw : String) × (get r (state id) ≡ some raw)
      × (c.member_check raw ≡ 0)
      × (c.member_check a.payload ≡ 0)
unfolding intent_cas
Accepts-checked c id a r h =
    validate-checked c a (get r (state id)) (get r (lock id))
      (commit-value id a r (validate c a (get r (state id)) (get r (lock id))) h).0

-- A stored text that repeats a name is refused before anything else is read.
pub intent_cas-ambiguous :
    (c : Codec) (id : String) (a : CasArgs) (r : Redis) (raw : String)
    → get r (state id) ≡ some raw
    → c.member_check raw ≡ 1
    → intent_cas c id a r ≡ (reject 11, r)
unfolding intent_cas validate read_states commit
intent_cas-ambiguous c id a r raw e h = rw (e, h) refl
