-- ===== src/Workflows/Commands/Executors.antt =====
-- packages/workflows/src/runtime/in-memory.ts: `runCoordinationExecutor` and `attemptExecutor`.
pub mod Promises
use neemata.Common.{
  ℕ, Bool, true, false, not, ◌&&◌, ◌||◌, Option, none, some, List, [], ◌∷◌, ltb, ◌==◌,
  if◌then◌else◌,
}
use neemata.Workflows.Items.{Item, Claimed, or_else, is_live, earliest_run_at}
use neemata.Workflows.Commands.{Queue, Claim, find_first, replace_at, push_new, claim_command}

-- The commands, with the fields that the queues look at.
pub record ContinueRun : Type 0 where
  pub run_id : ℕ
  pub workflow_name : ℕ

pub data AttemptKind : Type 0 where
  activity task : (name : ℕ) → AttemptKind

pub record Attempt : Type 0 where
  pub kind : AttemptKind
  pub workflow_name : ℕ
  pub run_id : ℕ
  pub attempt_id : ℕ

pub record Worker : Type 0 where
  pub workflow_names : List ℕ
  pub activity_names : Option (List ℕ)
  pub task_names : List ℕ
  pub lease_ms : ℕ

abbrev pub includes : List ℕ → ℕ → Bool
includes [] n = false
includes (m ∷ ms) n = m == n || includes ms n

abbrev any_or_includes : Option (List ℕ) → ℕ → Bool
any_or_includes none n = true
any_or_includes (some l) n = includes l n

abbrev kind_eligible : Worker → ℕ → AttemptKind → Bool
kind_eligible worker workflow (AttemptKind.task name) = includes worker.task_names name
kind_eligible worker workflow (AttemptKind.activity name) =
    includes worker.workflow_names workflow && any_or_includes worker.activity_names name

abbrev pub eligible_attempt : Worker → Attempt → Bool
eligible_attempt worker a = kind_eligible worker a.workflow_name a.kind

abbrev pub eligible_continue : Worker → ContinueRun → Bool
eligible_continue worker c = includes worker.workflow_names c.workflow_name

-- `compareAttemptCommands(left, right) < 0`, with the order of the ids as a parameter.
abbrev pub time_of : Item Attempt → ℕ
time_of item = or_else item.run_at item.created_at

pub comes_before : (ℕ → ℕ → Bool) → Item Attempt → Item Attempt → Bool
comes_before id_before l r =
    if time_of l == time_of r
    then if l.created_at == r.created_at then id_before l.id r.id else ltb l.created_at r.created_at
    else ltb (time_of l) (time_of r)

abbrev no_order : Item ContinueRun → Item ContinueRun → Bool
no_order l r = false

pub claim_continue :
    ℕ → Worker → ℕ → Queue ContinueRun → Queue ContinueRun × Option (Claim ContinueRun)
unfolding claim_command
claim_continue max_deliveries worker clock q =
    claim_command max_deliveries clock (eligible_continue worker) no_order false worker.lease_ms q

pub claim_attempt :
    ℕ → (ℕ → ℕ → Bool) → Worker → ℕ → Queue Attempt → Queue Attempt × Option (Claim Attempt)
unfolding claim_command comes_before
claim_attempt max_deliveries id_before worker clock q =
    claim_command max_deliveries clock (eligible_attempt worker) (comes_before id_before) true
      worker.lease_ms q

abbrev has_attempt : ℕ → List (Item Attempt) → Bool
has_attempt id [] = false
has_attempt id (x ∷ xs) = x.payload.attempt_id == id || has_attempt id xs

abbrev claims_attempt : ℕ → List (Claimed Attempt) → Bool
claims_attempt id [] = false
claims_attempt id (c ∷ cs) = c.item.payload.attempt_id == id || claims_attempt id cs

abbrev pub attempt_command_exists : ℕ → Queue Attempt → Bool
attempt_command_exists id q = has_attempt id q.queued || claims_attempt id q.claimed

-- `dispatchActivity` and `dispatchTask`.
pub dispatch : Attempt → Option ℕ → ℕ → Queue Attempt → Queue Attempt
unfolding push_new
dispatch command run_at clock q =
    if attempt_command_exists command.attempt_id q then q else push_new command run_at clock q

abbrev pub waits_for : ℕ → Item ContinueRun → Bool
waits_for run_id item = is_live item && item.payload.run_id == run_id

pub enqueueing :
    ContinueRun
    → Option ℕ
    → ℕ
    → Option (ℕ × Item ContinueRun × List (Item ContinueRun))
    → Queue ContinueRun
    → Queue ContinueRun
unfolding push_new replace_at
enqueueing command run_at clock none q = push_new command run_at clock q
enqueueing command run_at clock (some (i, x, rest)) q = record q {
  queued =
      replace_at i (record x { payload = command; run_at = earliest_run_at x.run_at run_at })
        q.queued;
}

-- `enqueueContinue`, for `enqueue` and `enqueueDelayed`.
pub enqueue_continue : ContinueRun → Option ℕ → ℕ → Queue ContinueRun → Queue ContinueRun
unfolding enqueueing find_first
enqueue_continue command run_at clock q =
    enqueueing command run_at clock (find_first (waits_for command.run_id) 0 q.queued) q
