-- ===== src/Store/Committed.antt =====
use research_paper_aep.Base.{Option-cases, String, inl, inr, none, refl, ℕ, ◌≡◌, ◌≢◌, ◌⊎◌}
use research_paper_aep.Redis.{Redis, get, lock, state}
use research_paper_aep.Lua.Script.{Script, raised, reject, value}
use research_paper_aep.Intents.Cas.{commit, intent_cas, validate}
use research_paper_aep.Intents.Cas.Args.{CasArgs, Codec}
use research_paper_aep.Intents.Cas.Accepted.{Accepts, after}
use research_paper_aep.Storage.Save.{
  Quarantine, Reply, SaveResult, answered, delivered, lost_after, lost_before,
  lua_state_validation_failure, raise_validation, raises, saved,
}
use research_paper_aep.Storage.Save.Frame.{SameButPoison, raise_validation-Raised}
use research_paper_aep.Store.{
  StoreError, StoreResult, commit_error, commit_transition, fails, intent_state, of_save, on_commit,
  returns, storage,
}

-- What commit_transition promises.

pub fails-ne-returns {ℓ} : {A : Type ℓ} (e : StoreError) (a : A) → fails e ≢ returns a
fails-ne-returns e a h = cc

pub of_save-Failed {ℓ} :
    {A : Type ℓ} (id : String) (r : Redis) (o : SaveResult × Redis)
    → SameButPoison id r o.1
    → ((a : A) → (of_save {A = A} o).0 ≢ returns a) × SameButPoison id r (of_save {A = A} o).1
of_save-Failed id r (saved, s) same = (λ a. fails-ne-returns intent_state a, same)
of_save-Failed id r (raises e, s) same = (λ a. fails-ne-returns (storage e) a, same)

on_commit-reject :
    (q : Quarantine) (id : String) (r : Redis) (n : ℕ)
    → ((on_commit q id (reject n) r).0 ≢ returns tt)
      × SameButPoison id r (on_commit q id (reject n) r).1
unfolding on_commit
on_commit-reject q id r n = elim (Option-cases (lua_state_validation_failure n)) [
  | inl e ↦ rw (e, on_commit) (fails-ne-returns (commit_error n) tt, λ k other. refl)
  | inr (f, e) ↦
      rw (e, on_commit)
        (let (never, same) =
            of_save-Failed id r (raise_validation none q id r f)
              (raise_validation-Raised none q id r f).1 in
          (never tt, same))
]

-- The commit raised because the reply of the script was lost after it had run.
abbrev pub Unanswered : Reply → Redis → StoreResult (Unit {0}) × Redis → Type 0
Unanswered reply written o = (reply ≡ lost_after) × (o.0 ≡ fails intent_state) × (o.1 ≡ written)

abbrev Told : String → Redis → Reply → Script ℕ × Redis → StoreResult (Unit {0}) × Redis → Type 0
Told id r reply written o =
    (o.0 ≡ returns tt → (reply ≡ answered) × (written.0 ≡ value 1) × (o.1 ≡ written.1))
    × (o.0 ≢ returns tt → SameButPoison id r o.1 ⊎ Unanswered reply written.1 o)

commit-Told :
    (q : Quarantine) (id : String) (a : CasArgs) (r : Redis) (reply : Reply) (m : Script (Unit {0}))
    → let written = commit id a r m in
      let heard = delivered reply r written in
      Told id r reply written (on_commit q id heard.0 heard.1)
unfolding commit on_commit
commit-Told q id a r answered (value tt) = (λ h. (refl, refl, refl), λ h. absurd (h refl))
commit-Told q id a r answered (reject n) =
    let (never, same) = on_commit-reject q id r n in (λ h. absurd (never h), λ h. inl same)
commit-Told q id a r answered raised =
    (λ h. absurd (fails-ne-returns intent_state tt h), λ h. inl (λ k other. refl))
commit-Told q id a r lost_before m =
    (λ h. absurd (fails-ne-returns intent_state tt h), λ h. inl (λ k other. refl))
commit-Told q id a r lost_after m =
    (λ h. absurd (fails-ne-returns intent_state tt h), λ h. inr (refl, refl, refl))

-- A commit returns only where the script accepted and its answer has arrived, and leaves what the script
-- wrote. Whenever it raises, every key but a poison key of the execution reads as before, or the reply
-- was lost after the script had run: the exception is then an IntentStateError, and Redis is as the
-- script left it.
pub commit_transition_outcome :
    (c : Codec) (id : String) (q : Quarantine) (reply : Reply) (a : CasArgs) (r : Redis)
    → let o = commit_transition c id q reply a r in
      (o.0 ≡ returns tt → (reply ≡ answered) × Accepts c id a r × (o.1 ≡ after c id a r))
      × (o.0 ≢ returns tt → SameButPoison id r o.1 ⊎ Unanswered reply (after c id a r) o)
unfolding commit_transition intent_cas
commit_transition_outcome c id q reply a r =
    commit-Told q id a r reply (validate c a (get r (state id)) (get r (lock id)))
