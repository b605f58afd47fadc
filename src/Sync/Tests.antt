-- ===== src/Sync/Tests.antt =====
-- The ordering primitives at concrete histories.
use neemata.Common.{List, ℕ, Bool, true, false, List, [], ◌∷◌, ◌==◌}
use neemata.Sync.Semaphore.{
  Semaphore, semaphore, enter, Reach, here, next, enters, Inv, Semaphore-Reach-Inv,
}
use neemata.Sync.Operations.{no_operations, run, Event, runs, settles, picks, waits}
use neemata.Sync.Operations.Kept.{IsKept, operations-IsKept}
use neemata.Sync.Lifecycle as Life

abbrev two_in : Semaphore
two_in = enter 1 8 (enter 1 7 (semaphore 1))

two_in_reached : Reach 1 (semaphore 1) two_in
two_in_reached = next (next here (enters 7)) (enters 8)

Semaphore-Reach-Inv_example : Inv 1 1 two_in
Semaphore-Reach-Inv_example = Semaphore-Reach-Inv 1 1 two_in_reached

-- The second operation gives way to the third.
abbrev busy : List Event
busy = runs 1 ∷ runs 2 ∷ waits ∷ runs 3 ∷ settles true ∷ picks ∷ settles false ∷ picks ∷ []

operations-IsKept_example : IsKept busy no_operations (run no_operations busy)
operations-IsKept_example = operations-IsKept busy

abbrev odd_throws : ℕ → Bool
odd_throws t = t == 5

abbrev calls : List Life.Call
calls =
    Life.Call.start (4 ∷ 5 ∷ []) true
    ∷ Life.Call.start (6 ∷ []) true
    ∷ Life.Call.stop
    ∷ Life.Call.start (7 ∷ []) false
    ∷ []

lifecycle-IsKept_example :
    Life.IsKept odd_throws 5
      (Life.registered_times odd_throws 5 calls Life.lifecycle)
      Life.lifecycle
      (Life.perform_all odd_throws calls Life.lifecycle)
lifecycle-IsKept_example = Life.lifecycle-IsKept odd_throws 5 calls
