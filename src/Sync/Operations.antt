-- ===== src/Sync/Operations.antt =====
-- packages/common/src/operation-queue.ts: `OperationQueue` with the strategy `latest`.
pub mod Kept
use neemata.Common.{
  ℕ, suc, ◌+◌, ◌-◌, ◌≡◌, refl, ◌∙◌, Bool, true, false, ◌||◌, Option, none, some, List, [], ◌∷◌,
  arith, ltb, ◌==◌, if◌then◌else◌,
}

-- `runLatestOperations`: not running, awaiting an operation, or between two turns of its loop, where
-- the operation is settled and the next one is not picked yet.
pub data Phase : Type 0 where
  resting between : Phase
  awaiting : ℕ → Phase

-- What the promise of an operation is settled with.
pub data Settled : Type 0 where
  resolved rejected superseded : ℕ → Settled

-- `waiting`: how many `waitIdle` promises are open; `woken`: how many were resolved.
pub record Operations : Type 0 where
  pub count : ℕ
  pub phase : Phase
  pub latest : Option ℕ
  pub waiting : ℕ
  pub woken : ℕ
  pub settled : List Settled

abbrev pub no_operations : Operations
no_operations = record {
  count = 0;
  phase = Phase.resting;
  latest = none;
  waiting = 0;
  woken = 0;
  settled = [];
}

pub finish_operation : Operations → Operations
finish_operation s =
    if ltb 0 (s.count - 1)
    then record s { count = s.count - 1 }
    else record s { count = s.count - 1; waiting = 0; woken = s.woken + s.waiting }

-- The operation that waited gives way to the new one.
pub supersede : Option ℕ → Operations → Operations
unfolding finish_operation
supersede none s = s
supersede (some previous) s =
    finish_operation (record s { settled = Settled.superseded previous ∷ s.settled })

pub queue_latest : ℕ → Phase → Operations → Operations
unfolding supersede
queue_latest task Phase.resting s = record s { phase = Phase.awaiting task }
queue_latest task Phase.between s = record (supersede s.latest s) { latest = some task }
queue_latest task (Phase.awaiting current) s = record (supersede s.latest s) { latest = some task }

pub run_latest : ℕ → Operations → Operations
unfolding queue_latest
run_latest task s = queue_latest task s.phase (record s { count = suc s.count })

pub settling : Bool → Phase → Operations → Operations
unfolding finish_operation
settling succeeds Phase.resting s = s
settling succeeds Phase.between s = s
settling succeeds (Phase.awaiting task) s = finish_operation (record s {
  phase = Phase.between;
  settled = (if succeeds then Settled.resolved task else Settled.rejected task) ∷ s.settled;
})

-- The task that is awaited settles.
pub settle : Bool → Operations → Operations
unfolding settling
settle succeeds s = settling succeeds s.phase s

pub picking : Phase → Option ℕ → Operations → Operations
picking Phase.resting o s = s
picking (Phase.awaiting task) o s = s
picking Phase.between none s = record s { phase = Phase.resting }
picking Phase.between (some task) s = record s { phase = Phase.awaiting task; latest = none }

-- The loop goes on.
pub pick : Operations → Operations
unfolding picking
pick s = picking s.phase s.latest s

pub wait_idle : Operations → Operations
wait_idle s =
    if ltb 0 s.count then record s { waiting = suc s.waiting } else record s { woken = suc s.woken }

pub data Event : Type 0 where
  runs : ℕ → Event
  settles : Bool → Event
  picks waits : Event

pub step : Operations → Event → Operations
unfolding run_latest settle pick wait_idle
step s (runs task) = run_latest task s
step s (settles succeeds) = settle succeeds s
step s picks = pick s
step s waits = wait_idle s

pub run : Operations → List Event → Operations
unfolding step
run s [] = s
run s (e ∷ es) = run (step s e) es
