-- ===== src/Intents/Status.antt =====
-- IntentStatus, the table of legal transitions and its check, of aep_core/core/intents.py.
use research_paper_aep.Base.{Bool, Option, String, false, none, some, true}

pub data IntentStatus : Type 0 where
  about_to_fire fired_confirmed failed_confirmed fired_unconfirmed permanently_ambiguous :
      IntentStatus

-- IntentStatus.value
unfoldable pub status_text : IntentStatus → String
status_text about_to_fire = "ABOUT_TO_FIRE"
status_text fired_confirmed = "FIRED_CONFIRMED"
status_text failed_confirmed = "FAILED_CONFIRMED"
status_text fired_unconfirmed = "FIRED_UNCONFIRMED"
status_text permanently_ambiguous = "PERMANENTLY_AMBIGUOUS"

-- NONE_STATE, the status before creation, is none.
unfoldable pub old_text : Option IntentStatus → String
unfolding status_text
old_text none = "NONE"
old_text (some s) = status_text s

-- membership in UNRESOLVED_INTENT_STATUSES
unfoldable pub is_unresolved : IntentStatus → Bool
is_unresolved about_to_fire = true
is_unresolved fired_unconfirmed = true
is_unresolved _ = false

-- membership in LEGAL_INTENT_TRANSITIONS, which the table `legal` of the script repeats
unfoldable pub is_legal : Option IntentStatus → IntentStatus → Bool
is_legal none about_to_fire = true
is_legal (some about_to_fire) fired_confirmed = true
is_legal (some about_to_fire) failed_confirmed = true
is_legal (some about_to_fire) fired_unconfirmed = true
is_legal (some fired_unconfirmed) fired_unconfirmed = true
is_legal (some fired_unconfirmed) fired_confirmed = true
is_legal (some fired_unconfirmed) failed_confirmed = true
is_legal (some fired_unconfirmed) permanently_ambiguous = true
is_legal (some permanently_ambiguous) fired_confirmed = true
is_legal (some permanently_ambiguous) failed_confirmed = true
is_legal _ _ = false
