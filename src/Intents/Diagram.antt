-- ===== src/Intents/Diagram.antt =====
use research_paper_aep.Base.{Bool, Option, arith, false, none, refl, some, true, ◌≡◌, ◌≢◌}
use research_paper_aep.Intents.Status.{
  IntentStatus, about_to_fire, failed_confirmed, fired_confirmed, fired_unconfirmed, is_legal,
  permanently_ambiguous,
}

-- The transition diagram of an intent, as a relation, and that the table of
-- aep_core/core/intents.py is that diagram.

-- The transition diagram of an intent.
pub data Edge : Option IntentStatus → IntentStatus → Type 0 where
  prepare : Edge none about_to_fire
  succeed : Edge (some about_to_fire) fired_confirmed
  fail : Edge (some about_to_fire) failed_confirmed
  doubt : Edge (some about_to_fire) fired_unconfirmed
  recheck : Edge (some fired_unconfirmed) fired_unconfirmed
  find_applied : Edge (some fired_unconfirmed) fired_confirmed
  find_absent : Edge (some fired_unconfirmed) failed_confirmed
  escalate : Edge (some fired_unconfirmed) permanently_ambiguous
  settle_applied : Edge (some permanently_ambiguous) fired_confirmed
  settle_absent : Edge (some permanently_ambiguous) failed_confirmed

ruleset edges = (
  prepare, succeed, fail, doubt, recheck, find_applied, find_absent, escalate, settle_applied,
  settle_absent,
)

Edge-is_legal :
    {old : Option IntentStatus} {new : IntentStatus} → Edge old new → is_legal old new ≡ true
unfolding is_legal
Edge-is_legal prepare = refl
Edge-is_legal succeed = refl
Edge-is_legal fail = refl
Edge-is_legal doubt = refl
Edge-is_legal recheck = refl
Edge-is_legal find_applied = refl
Edge-is_legal find_absent = refl
Edge-is_legal escalate = refl
Edge-is_legal settle_applied = refl
Edge-is_legal settle_absent = refl

pub is_legal-Edge :
    (old : Option IntentStatus) (new : IntentStatus) → is_legal old new ≡ true → Edge old new
unfolding is_legal
is_legal-Edge old new h = grind (arith, edges)

-- A status from which the table leads nowhere.
abbrev pub is_final : IntentStatus → Bool
is_final fired_confirmed = true
is_final failed_confirmed = true
is_final _ = false

pub Edge-not_final : {s new : IntentStatus} → Edge (some s) new → is_final s ≡ false
Edge-not_final succeed = refl
Edge-not_final fail = refl
Edge-not_final doubt = refl
Edge-not_final recheck = refl
Edge-not_final find_applied = refl
Edge-not_final find_absent = refl
Edge-not_final escalate = refl
Edge-not_final settle_applied = refl
Edge-not_final settle_absent = refl

-- No status leads back to ABOUT_TO_FIRE.
pub Edge-not_prepared : {s new : IntentStatus} → Edge (some s) new → new ≢ about_to_fire
Edge-not_prepared succeed e = cc
Edge-not_prepared fail e = cc
Edge-not_prepared doubt e = cc
Edge-not_prepared recheck e = cc
Edge-not_prepared find_applied e = cc
Edge-not_prepared find_absent e = cc
Edge-not_prepared escalate e = cc
Edge-not_prepared settle_applied e = cc
Edge-not_prepared settle_absent e = cc
