-- ===== src/Storage/Save/Frame.antt =====
use research_paper_aep.Base.{
  Bool, Bool-cases, Option, Option-cases, String, false, if◌then◌else◌, inl, inr, nat_eq, none,
  refl, some, true, ℕ, ◌≡◌, ◌≢◌, ◌⊎◌,
}
use research_paper_aep.Redis.{Redis, RedisKey, get, lock, poison, same_key, state}
use research_paper_aep.Redis.Laws.{get-set_ne}
use research_paper_aep.Storage.Save.{
  Quarantine, Reply, SaveCall, SaveError, SaveResult, answered, delivered, lock_acquisition,
  lost_after, lost_before, lua_state_validation_failure, on_code, other_code, phase2_protection,
  quarantine, raise_validation, raises, refused, save_args, save_state, saved, stale_write,
  state_corruption, storage_operation,
}
use research_paper_aep.Lua.Script.{Script, raised, reject, value}
use research_paper_aep.Intents.Cas.Args.{Codec}
use research_paper_aep.Storage.Cas.{SaveArgs, base_cas, may_save, save_outcome}

-- What a save leaves behind.

-- No key but a poison key of the execution differs.
abbrev pub SameButPoison : String → Redis → Redis → Type 0
SameButPoison id r s =
    (k : RedisKey) → ((epoch : ℕ) → same_key (poison id epoch) k ≡ false) → get s k ≡ get r k

pub quarantine-frame :
    (q : Quarantine) (id reason : String) (r : Redis)
    → SameButPoison id r (quarantine q id reason r)
unfolding quarantine
quarantine-frame q id reason r k other = elim (Bool-cases q.succeeds) [
  | inl e ↦ rw e (get-set_ne r (poison id q.epoch_ms) k _ _ (other q.epoch_ms))
  | inr e ↦ rw e refl
]

-- The call raises, and no key but a poison key differs.
abbrev pub Raised : String → Redis → SaveResult × Redis → Type 0
Raised id r o = (o.0 ≢ saved) × SameButPoison id r o.1

raises-ne-saved : (e : SaveError) → raises e ≢ saved
raises-ne-saved e h = cc

Raised-same : (id : String) (r : Redis) (e : SaveError) → Raised id r (raises e, r)
Raised-same id r e = (raises-ne-saved e, λ k other. refl)

Raised-if :
    (id : String) (r : Redis) (b : Bool) (x y : SaveResult × Redis)
    → Raised id r x
    → Raised id r y
    → Raised id r (if b then x else y)
Raised-if id r true x y h k = h
Raised-if id r false x y h k = k

pub raise_validation-Raised :
    (invalid : Option String) (q : Quarantine) (id : String) (r : Redis)
    (f : SaveError × Option String)
    → Raised id r (raise_validation invalid q id r f)
unfolding raise_validation
raise_validation-Raised invalid q id r (e, none) = Raised-same id r e
raise_validation-Raised invalid q id r (e, some reason) =
    (raises-ne-saved e, quarantine-frame q id _ r)

other_code-Raised :
    (q : Quarantine) (id : String) (r : Redis) (n : ℕ) → Raised id r (other_code q id r n)
unfolding other_code
other_code-Raised q id r n = Raised-if id r (nat_eq n 1) _ _ (Raised-same id r stale_write) (
    Raised-if id r (nat_eq n 2) _ _
      (raises-ne-saved state_corruption, quarantine-frame q id "corrupt-at-write" r)
      (Raised-if id r (nat_eq n 3) _ _ (Raised-same id r lock_acquisition) (
        Raised-if id r (nat_eq n 4) _ _ (Raised-same id r phase2_protection)
          (Raised-same id r storage_operation))))

on_code-Raised :
    (q : Quarantine) (id : String) (r : Redis) (n : ℕ) → Raised id r (on_code q id (reject n) r)
unfolding on_code
on_code-Raised q id r n = elim (Option-cases (lua_state_validation_failure n)) [
  | inl e ↦ rw (e, on_code) (other_code-Raised q id r n)
  | inr (f, e) ↦ rw (e, on_code) (raise_validation-Raised (some "corrupt-at-write") q id r f)
]

-- The call raised because the reply of the script was lost after it had run.
abbrev pub Unheard : SaveError → Reply → Redis → SaveResult × Redis → Type 0
Unheard e reply written o = (reply ≡ lost_after) × (o.0 ≡ raises e) × (o.1 ≡ written)

abbrev Reported : String → Redis → Reply → Script ℕ × Redis → SaveResult × Redis → Type 0
Reported id r reply written o =
    (o.0 ≡ saved → (reply ≡ answered) × (written.0 ≡ value 1) × (o.1 ≡ written.1))
    × (o.0 ≢ saved → SameButPoison id r o.1 ⊎ Unheard storage_operation reply written.1 o)

stopped-Reported :
    (id : String) (r : Redis) (reply : Reply) (written : Script ℕ × Redis)
    → Reported id r reply written (raises storage_operation, r)
stopped-Reported id r reply written =
    (λ h. absurd (raises-ne-saved storage_operation h), λ h. inl (λ k other. refl))

save_outcome-Reported :
    (q : Quarantine) (id : String) (a : SaveArgs) (r : Redis) (m : Script (Unit {0}))
    → let written = save_outcome id a r m in
      Reported id r answered written (on_code q id written.0 written.1)
unfolding save_outcome on_code
save_outcome-Reported q id a r (value tt) = elim (Bool-cases (nat_eq a.ttl 0)) [
  | inl e ↦ rw (e, on_code) (stopped-Reported id r answered (raised, r))
  | inr e ↦ rw (e, on_code) (λ h. (refl, refl, refl), λ h. absurd (h refl))
]
save_outcome-Reported q id a r (reject n) =
    let (never, same) = on_code-Raised q id r n in (λ h. absurd (never h), λ h. inl same)
save_outcome-Reported q id a r raised = stopped-Reported id r answered (raised, r)

delivered-Reported :
    (q : Quarantine) (id : String) (a : SaveArgs) (r : Redis) (reply : Reply)
    (m : Script (Unit {0}))
    → let written = save_outcome id a r m in
      let heard = delivered reply r written in
      Reported id r reply written (on_code q id heard.0 heard.1)
unfolding on_code
delivered-Reported q id a r answered m = save_outcome-Reported q id a r m
delivered-Reported q id a r lost_before m =
    stopped-Reported id r lost_before (save_outcome id a r m)
delivered-Reported q id a r lost_after m =
    (λ h. absurd (raises-ne-saved storage_operation h), λ h. inr (refl, refl, refl))

-- A save returns only where the tests before the script passed, the script has written and its answer
-- has arrived, and leaves what the script wrote. Whenever it raises, every key but a poison key of the
-- execution reads as before, or the reply was lost after the script had run: the exception is then a
-- StorageOperationError, and Redis is as the script left it.
pub save_state_outcome :
    (is_canonical : String → Bool) (c : Codec) (q : Quarantine) (reply : Reply) (a : SaveCall)
    (r : Redis)
    → let written = base_cas c a.execution_id (save_args a) r in
      let o = save_state is_canonical c q reply a r in
      (o.0 ≡ saved
        → (refused is_canonical a ≡ none)
          × (reply ≡ answered)
          × (written.0 ≡ value 1)
          × (o.1 ≡ written.1))
      × (o.0 ≢ saved
          → SameButPoison a.execution_id r o.1 ⊎ Unheard storage_operation reply written.1 o)
unfolding save_state base_cas
save_state_outcome is_canonical c q reply a r =
    let id = a.execution_id in
    elim (Option-cases (refused is_canonical a)) [
      | inr (e, refusal) ↦
          rw (refusal, save_state) (λ h. absurd (raises-ne-saved e h), λ h. inl (λ k other. refl))
      | inl passed ↦
          let (wrote, kept) =
            delivered-Reported q id (save_args a) r reply
              (may_save c (save_args a) (get r (state id)) (get r (lock id))) in
          rw (passed, save_state)
            (λ h. let (heard, w, same) = wrote h in (refl, heard, w, same), kept)
    ]
