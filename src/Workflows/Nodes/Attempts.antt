-- ===== src/Workflows/Nodes/Attempts.antt =====
-- packages/workflows/src/runtime/in-memory.ts: the attempts of children. An attempt is fenced: it
-- settles only under its lease token, while it is started and its child's current one.
use neemata.Common.{
  ℕ, suc, Bool, true, false, not, ◌&&◌, ◌||◌, Option, none, some, List, [], ◌∷◌, ltb, ◌==◌, Outcome,
  ok, err, if◌then◌else◌,
}
use neemata.Workflows.Items.{now}
use neemata.Workflows.Nodes.Status.{
  AttemptStatus, started, running, is_terminal_node, is_running, is_started, node_can_transition,
}
use neemata.Workflows.Nodes.Table.{find, put}
use neemata.Workflows.Nodes.Aggregate.{complete}
use neemata.Workflows.Nodes.Children.{ended_child}
use neemata.Workflows.Nodes.{
  NodeKey, ChildKey, Node, Child, Attempt, Graph, NodeError, missing_child, terminal_child,
  missing_attempt, nodes_by_key, children_by_key, attempts_by_id, same_child,
}

-- The attempt that `createChildAttempt` makes; its lease token is the next id.
abbrev pub new_attempt : Child → ℕ → Option ℕ → ℕ → ℕ → Attempt
new_attempt child input key id date = record {
  id = id;
  place = child.place;
  status = started;
  lease_token = suc id;
  attempt_number = suc child.attempt_count;
  input = input;
  idempotency_key = key;
  output = none;
  error = none;
  dispatched_at = date;
  completed_at = none;
}

abbrev pub attempted : Child → ℕ → ℕ → Child
attempted child id date = record child {
  status = running;
  current_attempt = some id;
  attempt_count = suc child.attempt_count;
  version = suc child.version;
  updated_at = date;
}

abbrev running_node : ℕ → Node → Node
running_node date node = record node {
  status = running;
  version = suc node.version;
  updated_at = date;
}

-- The node mirrors that some child is running.
abbrev pub mirrored : ℕ → Node → Graph → Graph
mirrored clock node s =
    let date = now clock s.last_timestamp in
    record s { nodes = put (running_node date node) s.nodes; last_timestamp = date }

unfoldable pub mirroring : ℕ → Option Node → Graph → Graph
mirroring clock none s = s
mirroring clock (some node) s =
    if is_running node.status || node_can_transition node.status running
    then mirrored clock node s
    else s

abbrev pub node_of : ChildKey → NodeKey
node_of place = record { run = place.run; name = place.node }

-- `createChildAttempt`, up to the update of the node.
abbrev pub attempt_added : Child → ℕ → Option ℕ → ℕ → Graph → Graph
attempt_added child input key clock s =
    let dispatched = now clock s.last_timestamp in
    let updated = now clock dispatched in
    record s {
      attempts = put (new_attempt child input key s.next_id dispatched) s.attempts;
      children = put (attempted child s.next_id updated) s.children;
      next_id = suc (suc s.next_id);
      last_timestamp = updated;
    }

-- `createChildAttempt`.
unfoldable pub create_child_attempt : Child → ℕ → Option ℕ → ℕ → Graph → Graph × Attempt
unfolding mirroring
create_child_attempt child input key clock s = (
  mirroring clock (find (node_of child.place) s.nodes) (attempt_added child input key clock s),
  new_attempt child input key s.next_id (now clock s.last_timestamp),
)

abbrev pub Attempting : Type 0
Attempting = Outcome NodeError (Graph × Attempt)

unfoldable pub attempting : ℕ → Option ℕ → ℕ → Option Child → Graph → Attempting
unfolding create_child_attempt
attempting input key clock none s = err missing_child
attempting input key clock (some child) s =
    if is_terminal_node child.status
    then err terminal_child
    else ok (create_child_attempt child input key clock s)

-- `createAttempt`.
unfoldable pub create_attempt : ChildKey → ℕ → Option ℕ → ℕ → Graph → Attempting
unfolding attempting
create_attempt place input key clock s = attempting input key clock (find place s.children) s

-- The first of the attempts of a child that has the largest number, which the sort puts first.
abbrev later_of : Attempt → Option Attempt → Option Attempt
later_of a none = some a
later_of a (some b) = if ltb a.attempt_number b.attempt_number then some b else some a

unfoldable pub last_attempt : ChildKey → List Attempt → Option Attempt
last_attempt place [] = none
last_attempt place (a ∷ rest) =
    let last = last_attempt place rest in if same_child place a.place then later_of a last else last

abbrev pub under : Option ℕ → List Attempt → Option Attempt
under none attempts = none
under (some id) attempts = find id attempts

abbrev pub or_last : Option Attempt → ChildKey → List Attempt → Option Attempt
or_last (some a) place attempts = some a
or_last none place attempts = last_attempt place attempts

abbrev pub reusing : Option Attempt → Graph → Outcome NodeError (Graph × Attempt × Bool)
reusing none s = err missing_attempt
reusing (some a) s = ok (s, a, false)

abbrev pub created_first : Attempting → Outcome NodeError (Graph × Attempt × Bool)
created_first (err e) = err e
created_first (ok (s, a)) = ok (s, a, true)

unfoldable pub ensuring_attempt :
    ℕ → Option ℕ → ℕ → Option Child → Graph → Outcome NodeError (Graph × Attempt × Bool)
unfolding attempting last_attempt
ensuring_attempt input key clock none s = err missing_child
ensuring_attempt input key clock (some child) s =
    if ltb 0 child.attempt_count
    then reusing (or_last (under child.current_attempt s.attempts) child.place s.attempts) s
    else created_first (attempting input key clock (some child) s)

-- `ensureChildAttempt`.
unfoldable pub ensure_child_attempt :
    ChildKey → ℕ → Option ℕ → ℕ → Graph → Outcome NodeError (Graph × Attempt × Bool)
unfolding ensuring_attempt
ensure_child_attempt place input key clock s =
    ensuring_attempt input key clock (find place s.children) s

abbrev pub is_current : Option ℕ → ℕ → Bool
is_current none id = false
is_current (some current) id = current == id

-- `fencedCurrentAttempt`: the attempt under its id, and its child.
abbrev pub passes_fence : ℕ → Attempt → Option Child → Bool
passes_fence token attempt none = false
passes_fence token attempt (some child) =
    attempt.lease_token == token
    && is_started attempt.status
    && not (is_terminal_node child.status)
    && is_current child.current_attempt attempt.id

-- What `completeCurrentAttempt`, `failCurrentAttempt` and `timeoutCurrentAttempt` make of an
-- attempt.
pub data Verdict : Type 0 where
  completed : (output : ℕ) → Verdict
  failed timed_out : (error : ℕ) → Verdict

abbrev verdict_status : Verdict → AttemptStatus
verdict_status (completed output) = AttemptStatus.completed
verdict_status (failed error) = AttemptStatus.failed
verdict_status (timed_out error) = AttemptStatus.timed_out

abbrev verdict_output : Verdict → Option ℕ → Option ℕ
verdict_output (completed output) old = some output
verdict_output other old = old

abbrev verdict_error : Verdict → Option ℕ → Option ℕ
verdict_error (completed output) old = old
verdict_error (failed error) old = some error
verdict_error (timed_out error) old = some error

abbrev pub settled : Verdict → ℕ → Attempt → Attempt
settled v date attempt = record attempt {
  status = verdict_status v;
  output = verdict_output v attempt.output;
  error = verdict_error v attempt.error;
  completed_at = some date;
}

-- An attempt that completes completes its child.
abbrev pub child_settled : Verdict → ℕ → Child → Graph → Graph
child_settled (completed output) clock child s =
    let date = now clock s.last_timestamp in
    record s {
      children = put (ended_child (complete output) date child) s.children;
      last_timestamp = date;
    }
child_settled other clock child s = s

abbrev pub attempt_settled : Verdict → ℕ → Attempt → Graph → Graph
attempt_settled v clock attempt s =
    let date = now clock s.last_timestamp in
    record s { attempts = put (settled v date attempt) s.attempts; last_timestamp = date }

unfoldable pub settling_child :
    Verdict → ℕ → ℕ → Attempt → Option Child → Graph → Graph × Option Attempt
settling_child v token clock attempt none s = (s, none)
settling_child v token clock attempt (some child) s =
    if passes_fence token attempt (some child)
    then (
      child_settled v clock child (attempt_settled v clock attempt s),
      some (settled v (now clock s.last_timestamp) attempt),
    )
    else (s, none)

unfoldable pub settling : Verdict → ℕ → ℕ → Option Attempt → Graph → Graph × Option Attempt
unfolding settling_child
settling v token clock none s = (s, none)
settling v token clock (some attempt) s =
    settling_child v token clock attempt (find attempt.place s.children) s

-- `completeCurrentAttempt`, `failCurrentAttempt` and `timeoutCurrentAttempt`.
unfoldable pub settle_attempt : Verdict → ℕ → ℕ → ℕ → Graph → Graph × Option Attempt
unfolding settling
settle_attempt v id token clock s = settling v token clock (find id s.attempts) s
