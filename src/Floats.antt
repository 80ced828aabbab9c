-- ===== src/Floats.antt =====
-- The numbers of Python that the parameters of aep_core/core/locks.py and
-- aep_core/core/intent_workflow.py may be, in a unit in which the finite ones are integers, and their
-- comparisons. below n is -(n + 1), and minus infinity is taken for one of these: only its sign is
-- looked at. A sum or a difference is not rounded.
use research_paper_aep.Base.{Bool, false, if◌then◌else◌, leb, ltb, not, true, ℕ, ◌+◌, ◌-◌}

pub data Number : Type 0 where
  below : ℕ → Number
  exactly : ℕ → Number
  infinite : Number
  nan : Number

-- x < y, which is false where either is NaN
unfoldable pub less : Number → Number → Bool
less nan y = false
less x nan = false
less (below m) (below n) = ltb n m
less (below m) y = true
less (exactly m) (exactly n) = ltb m n
less (exactly m) (below n) = false
less (exactly m) infinite = true
less infinite y = false

-- x <= y
unfoldable pub at_most : Number → Number → Bool
unfolding less
at_most nan y = false
at_most x nan = false
at_most x y = not (less y x)

unfoldable pub difference : ℕ → ℕ → Number
difference a b = if leb b a then exactly (a - b) else below (b - a - 1)

-- x - y
unfoldable pub minus : Number → Number → Number
unfolding difference
minus nan y = nan
minus x nan = nan
minus infinite infinite = nan
minus infinite y = infinite
minus x infinite = below 0
minus (exactly a) (exactly b) = difference a b
minus (exactly a) (below b) = exactly (a + b + 1)
minus (below a) (exactly b) = below (a + b)
minus (below a) (below b) = difference b a
