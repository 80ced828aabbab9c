-- ===== src/Recovery/Scan/Isolation.antt =====
use research_paper_aep.Base.{
  All, Bool, List, Option, String, [], false, if◌then◌else◌, length, none, some, ℕ, ◌++◌, ◌∷◌, ◌≤◌,
}
use research_paper_aep.Recovery.{Intent, eligible}
use research_paper_aep.Recovery.Bounded.{HasProgress}
use research_paper_aep.Recovery.Scan.{
  Candidate, ExecutionRead, RecoveryAnswer, ScanFailure, ledger, no_state, nothing, read_fails,
  recovery_fails, result,
}

-- A failure of one execution leaves the pass over the others as it is.

abbrev pub AllHaveProgress : List (String × ExecutionRead) → Type 0
AllHaveProgress [] = Unit
AllHaveProgress ((id, read_fails e) ∷ rest) = AllHaveProgress rest
AllHaveProgress ((id, no_state) ∷ rest) = AllHaveProgress rest
AllHaveProgress ((id, ledger intents) ∷ rest) =
    All (λ p. HasProgress p.1) intents × AllHaveProgress rest

abbrev is_due : Option Bool → Bool
is_due none = false
is_due (some b) = b

-- What a pass should recover, execution by execution
abbrev pub due_of : ℕ → String → List (String × Intent) → List Candidate
due_of now id [] = []
due_of now id ((i, intent) ∷ rest) =
    let others = due_of now id rest in
    if is_due (eligible intent now) then (id, i) ∷ others else others

abbrev pub all_due : ℕ → List (String × ExecutionRead) → List Candidate
all_due now [] = []
all_due now ((id, read_fails e) ∷ rest) = all_due now rest
all_due now ((id, no_state) ∷ rest) = all_due now rest
all_due now ((id, ledger intents) ∷ rest) = due_of now id intents ++ all_due now rest

module _ {R : Type 0} (answer : Candidate → RecoveryAnswer R) where
  abbrev result_of_answer : RecoveryAnswer R → List R
  result_of_answer (recovery_fails e) = []
  result_of_answer nothing = []
  result_of_answer (result r) = r ∷ []

  abbrev pub results_of : List Candidate → List R
  results_of [] = []
  results_of (c ∷ rest) = result_of_answer (answer c) ++ results_of rest

abbrev Bounded256 : List ScanFailure → Type 0
Bounded256 fs = length fs ≤ 256
