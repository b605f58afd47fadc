-- ===== src/Sync/Lifecycle/Rollback.antt =====
-- The order and the errors of an unwinding.
use neemata.Common.{ℕ, ◌≡◌, Bool, List, if◌then◌else◌, occurrences}
use neemata.Sync.Lifecycle.{Lifecycle}

module _ (throws : ℕ → Bool) where
  -- The teardowns that threw, with their number of runs.
  abbrev pub Thrown : List ℕ → List ℕ → Type 0
  Thrown run errors = (t : ℕ) → occurrences t errors ≡ (if throws t then occurrences t run else 0)
