-- ===== src/Workflows/Runs.antt =====
-- packages/workflows/src/runtime/in-memory.ts: the runs of the store, with their idempotency keys,
-- unique keys and leases. Ids, keys and tokens are numbers; a key is its canonical JSON.
pub mod Unique
pub mod Released
pub mod Steps
pub mod Moves
pub mod Leases
mod Tests
use neemata.Common.{
  ℕ, zero, suc, ◌+◌, Bool, true, false, not, ◌&&◌, ◌||◌, Option, none, some, ltb, leb, ◌==◌,
  Outcome, ok, err, if◌then◌else◌,
}
use neemata.Workflows.Items.{now, or_else}
use neemata.Workflows.Transitions.{
  RunStatus, queued, running, waiting, cancelling, completed, failed, cancelled, can_transition,
  is_terminal,
}

pub data Scope : Type 0 where
  active_scope all_scope : Scope

pub record UniqueKey : Type 0 where
  pub scope : Scope
  pub key : ℕ
  pub joins : Bool

-- `StoredRun`. `shape` stands for what `runMatchesCreateInput` compares but for the root: the kind,
-- the names, the parent and the input. The tags, which the operations only store, are left out.
pub record Run : Type 0 where
  pub id : ℕ
  pub status : RunStatus
  pub shape : ℕ
  pub root : ℕ
  pub unique : Option UniqueKey
  pub output : Option ℕ
  pub error : Option ℕ
  pub version : ℕ
  pub updated_at : ℕ

pub record CreateRunInput : Type 0 where
  pub shape : ℕ
  pub root : Option ℕ
  pub idempotency_key : Option ℕ
  pub unique : Option UniqueKey

pub record RunLease : Type 0 where
  pub token : ℕ
  pub version : ℕ
  pub expires_at : ℕ

pub record Store : Type 0 where
  pub runs : ℕ → Option Run
  pub idempotency_keys : ℕ → Option ℕ
  pub active_keys : ℕ → Option ℕ
  pub all_keys : ℕ → Option ℕ
  pub leases : ℕ → Option RunLease
  pub next_id : ℕ
  pub last_timestamp : ℕ

pub data CreateError : Type 0 where
  idempotency_conflict : CreateError
  run_conflict : (run_id : ℕ) → CreateError

abbrev pub set : {V : Type 0} → ℕ → Option V → (ℕ → Option V) → ℕ → Option V
set k v m j = if j == k then v else m j

abbrev set_key : Option ℕ → ℕ → (ℕ → Option ℕ) → ℕ → Option ℕ
set_key none v m = m
set_key (some k) v m = set k (some v) m

abbrev if_active : Scope → ℕ → Option ℕ
if_active active_scope key = some key
if_active all_scope key = none

abbrev if_all : Scope → ℕ → Option ℕ
if_all active_scope key = none
if_all all_scope key = some key

abbrev pub active_key : Option UniqueKey → Option ℕ
active_key none = none
active_key (some u) = if_active u.scope u.key

abbrev pub all_key : Option UniqueKey → Option ℕ
all_key none = none
all_key (some u) = if_all u.scope u.key

abbrev run_matches_create_input : Run → CreateRunInput → Bool
run_matches_create_input run input =
    run.shape == input.shape && run.root == or_else input.root run.id

pub insert_run : ℕ → CreateRunInput → Store → Store × Run
insert_run clock input s =
    let run : Run = record {
      id = s.next_id;
      status = queued;
      shape = input.shape;
      root = or_else input.root s.next_id;
      unique = input.unique;
      output = none;
      error = none;
      version = 1;
      updated_at = now clock s.last_timestamp;
    } in
    (
      record s {
        runs = set s.next_id (some run) s.runs;
        idempotency_keys = set_key input.idempotency_key s.next_id s.idempotency_keys;
        active_keys = set_key (active_key input.unique) s.next_id s.active_keys;
        all_keys = set_key (all_key input.unique) s.next_id s.all_keys;
        next_id = suc s.next_id;
        last_timestamp = now clock s.last_timestamp;
      },
      run,
    )

-- The store, the run and whether it was created.
abbrev pub Created : Type 0
Created = Outcome CreateError (Store × Run × Bool)

abbrev inserted : ℕ → CreateRunInput → Store → Created
unfolding insert_run
inserted clock input s = let r = insert_run clock input s in ok (r.0, r.1, true)

pub on_conflict : ℕ → CreateRunInput → Bool → Option Run → Store → Created
unfolding inserted
on_conflict clock input joins none s = inserted clock input s
on_conflict clock input true (some run) s = ok (s, run, false)
on_conflict clock input false (some run) s = err (run_conflict run.id)

abbrev pub keys_of : Scope → Store → ℕ → Option ℕ
keys_of active_scope s = s.active_keys
keys_of all_scope s = s.all_keys

abbrev pub run_under : Option ℕ → Store → Option Run
run_under none s = none
run_under (some run_id) s = s.runs run_id

pub check_unique : ℕ → CreateRunInput → Option UniqueKey → Store → Created
unfolding on_conflict
check_unique clock input none s = inserted clock input s
check_unique clock input (some u) s =
    on_conflict clock input u.joins (run_under (keys_of u.scope s u.key) s) s

abbrev reuse : CreateRunInput → Option Run → Store → Created
reuse input none s = err idempotency_conflict
reuse input (some run) s =
    if run_matches_create_input run input then ok (s, run, false) else err idempotency_conflict

pub check_idempotency : ℕ → CreateRunInput → Option ℕ → Store → Created
unfolding check_unique
check_idempotency clock input none s = check_unique clock input input.unique s
check_idempotency clock input (some run_id) s = reuse input (s.runs run_id) s

abbrev looked_up : Option ℕ → Store → Option ℕ
looked_up none s = none
looked_up (some key) s = s.idempotency_keys key

-- `createRunWithState`.
pub create_run : ℕ → CreateRunInput → Store → Created
unfolding check_idempotency
create_run clock input s = check_idempotency clock input (looked_up input.idempotency_key s) s

abbrev pub points_to : Option ℕ → ℕ → Bool
points_to none id = false
points_to (some holder) id = holder == id

-- `releaseActiveUniqueKey`.
abbrev pub release_key : Option ℕ → ℕ → (ℕ → Option ℕ) → ℕ → Option ℕ
release_key none id m = m
release_key (some key) id m = if points_to (m key) id then set key none m else m

-- The guards, by the status that the operation sets: `markRunRunning` and `markRunWaiting` ask the
-- table, `completeRun`, `failRun` and `cancelRun` whether the run is over, and
-- `requestRunCancellation` besides whether it is being cancelled.
pub data RunOperation : Type 0 where
  mark_running mark_waiting request_cancellation cancel : RunOperation
  complete : (output : ℕ) → RunOperation
  fail : (error : ℕ) → RunOperation

abbrev pub target : RunOperation → RunStatus
target mark_running = running
target mark_waiting = waiting
target (complete output) = completed
target (fail error) = failed
target request_cancellation = cancelling
target cancel = cancelled

abbrev is_cancelling : RunStatus → Bool
is_cancelling cancelling = true
is_cancelling other = false

abbrev pub goes_ahead : RunOperation → RunStatus → Bool
goes_ahead mark_running status = can_transition status running
goes_ahead mark_waiting status = can_transition status waiting
goes_ahead (complete output) status = not (is_terminal status)
goes_ahead (fail error) status = not (is_terminal status)
goes_ahead request_cancellation status = not (is_terminal status || is_cancelling status)
goes_ahead cancel status = not (is_terminal status)

abbrev output_of : RunOperation → Option ℕ → Option ℕ
output_of (complete output) old = some output
output_of other old = old

abbrev error_of : RunOperation → Option ℕ → Option ℕ
error_of (fail error) old = some error
error_of other old = old

abbrev pub moved : RunOperation → ℕ → Run → Run
moved op date run = record run {
  status = target op;
  output = output_of op run.output;
  error = error_of op run.error;
  version = suc run.version;
  updated_at = date;
}

-- The update that the operations on a run share; a terminal status frees the run's active key.
pub update_run : ℕ → RunOperation → ℕ → Run → Store → Store
update_run id op clock run s = record s {
  runs = set id (some (moved op (now clock s.last_timestamp) run)) s.runs;
  active_keys =
      if is_terminal (target op)
      then release_key (active_key run.unique) run.id s.active_keys
      else s.active_keys;
  last_timestamp = now clock s.last_timestamp;
}

pub operating : RunOperation → ℕ → ℕ → Option Run → Store → Store
unfolding update_run
operating op id clock none s = s
operating op id clock (some run) s =
    if goes_ahead op run.status then update_run id op clock run s else s

pub operate : RunOperation → ℕ → ℕ → Store → Store
unfolding operating
operate op id clock s = operating op id clock (s.runs id) s
