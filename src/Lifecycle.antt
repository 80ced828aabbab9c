-- ===== src/Lifecycle.antt =====
-- What the workers, recoveries and savers of one execution can do to Redis, in any order: the scripts of
-- aep_core/core/intents.py and aep_core/core/storage.py and the lock of aep_core/core/locks.py.
pub mod Records
pub mod Dispatched
pub mod Refines
use research_paper_aep.Base.{List, String, [], ◌∷◌, ◌≡◌}
use research_paper_aep.Redis.{Redis, advance, get, state}
use research_paper_aep.Locks.{LockOp, lock_step, wait}
use research_paper_aep.Intents.Cas.{intent_cas}
use research_paper_aep.Intents.Cas.Args.{CasArgs, Codec}
use research_paper_aep.Intents.Dispatch.{AuthorizeArgs, authorize}
use research_paper_aep.Storage.Cas.{SaveArgs, base_cas}

pub data Op : Type 0 where
  cas : CasArgs → Op
  authorization : AuthorizeArgs → Op
  save : SaveArgs → Op
  locking : LockOp → Op

-- Each operation is one step, since Redis runs one command or script at a time.
unfoldable pub step : Codec → String → Op → Redis → Redis
unfolding intent_cas authorize base_cas lock_step
step c id (cas a) r = (intent_cas c id a r).1
step c id (authorization a) r = (authorize c id a r).1
step c id (save a) r = (base_cas c id a r).1
step c id (locking op) r = (lock_step id op r).1

unfoldable pub run : Codec → String → List Op → Redis → Redis
unfolding step
run c id [] r = r
run c id (op ∷ ops) r = run c id ops (step c id op r)

-- The state key does not expire while time passes.
abbrev pub StateLives : String → Op → Redis → Type 0
StateLives id (locking (wait ms)) r = get (advance r ms) (state id) ≡ get r (state id)
StateLives id _ r = Unit

abbrev pub Lives : Codec → String → List Op → Redis → Type 0
Lives c id [] r = Unit
Lives c id (op ∷ ops) r = StateLives id op r × Lives c id ops (step c id op r)
