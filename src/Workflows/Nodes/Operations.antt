-- ===== src/Workflows/Nodes/Operations.antt =====
-- packages/workflows/src/runtime/in-memory.ts: the operations of the store on nodes, children and
-- attempts as one type, and what each may do to the account of a child.
use neemata.Common.{
  ℕ, suc, ◌+◌, ◌≡◌, ◌⊎◌, Bool, false, Option, none, some, List, ltb, ◌==◌, Outcome, ok, err,
  if◌then◌else◌,
}
use neemata.Workflows.Items.{now}
use neemata.Workflows.Nodes.Aggregate.{
  create_node, set_node_input, select_node_case, Ending, end_node, wait_node,
}
use neemata.Workflows.Nodes.Children.{
  end_child, cancel_non_terminal_run_nodes, ChildInput, ensure_node_children,
}
use neemata.Workflows.Nodes.Attempts.{create_attempt, ensure_child_attempt, Verdict, settle_attempt}
use neemata.Workflows.Nodes.Ledger.{Ledger, take, settle, close, closes, on}
use neemata.Workflows.Nodes.{NodeKey, ChildKey, Graph, NodeError, same_child}

-- `elsewhere` is what the other parts of the store do: they draw ids and dates.
pub data NodeOperation : Type 0 where
  create_one : (place : NodeKey) → (kind : ℕ) → NodeOperation
  set_input : (place : NodeKey) → (input : ℕ) → NodeOperation
  select_case : (place : NodeKey) → (key : ℕ) → NodeOperation
  end_one : Ending → (place : NodeKey) → NodeOperation
  wait : (place : NodeKey) → NodeOperation
  end_child_at : Ending → (place : ChildKey) → NodeOperation
  cancel_all : (run : ℕ) → NodeOperation
  ensure_children : (place : NodeKey) → (inputs : List ChildInput) → NodeOperation
  attempt : (place : ChildKey) → (input : ℕ) → (key : Option ℕ) → NodeOperation
  ensure_attempt : (place : ChildKey) → (input : ℕ) → (key : Option ℕ) → NodeOperation
  settle_current : Verdict → (id token : ℕ) → NodeOperation
  elsewhere : (ids : ℕ) → NodeOperation

-- An operation that throws leaves the state.
abbrev pub or_same : {A : Type 0} → Graph → Outcome NodeError (Graph × A) → Graph
or_same s (ok (s', a)) = s'
or_same s (err e) = s

abbrev pub or_same_created : {A : Type 0} → Graph → Outcome NodeError (Graph × A × Bool) → Graph
or_same_created s (ok (s', a, created)) = s'
or_same_created s (err e) = s

unfoldable pub perform : NodeOperation → ℕ → Graph → Graph
unfolding create_node set_node_input select_node_case end_node wait_node end_child
    cancel_non_terminal_run_nodes ensure_node_children create_attempt ensure_child_attempt
    settle_attempt
perform (create_one place kind) clock s = (create_node place kind clock s).0
perform (set_input place input) clock s = or_same s (set_node_input place input clock s)
perform (select_case place key) clock s = or_same s (select_node_case place key clock s)
perform (end_one e place) clock s = (end_node e place clock s).0
perform (wait place) clock s = (wait_node place clock s).0
perform (end_child_at e place) clock s = (end_child e place clock s).0
perform (cancel_all run) clock s = (cancel_non_terminal_run_nodes run clock s).0
perform (ensure_children place inputs) clock s =
    or_same_created s (ensure_node_children place inputs clock s)
perform (attempt place input key) clock s = or_same s (create_attempt place input key clock s)
perform (ensure_attempt place input key) clock s =
    or_same_created s (ensure_child_attempt place input key clock s)
perform (settle_current v id token) clock s = (settle_attempt v id token clock s).0
perform (elsewhere ids) clock s = record s {
  next_id = s.next_id + ids;
  last_timestamp = now clock s.last_timestamp;
}

-- `ensureChildAttempt` takes a child only if nobody has.
abbrev pub take_first : ℕ → ℕ → Ledger → Ledger
take_first id token l = if ltb 0 l.taken then l else take id token l

abbrev pub opened : Ledger
opened = record { taken = 0; holder = none; closed = false }

abbrev pub at_place : ChildKey → ChildKey → (Ledger → Ledger) → Option Ledger → Option Ledger
at_place place p f o = if same_child p place then on f o else o

-- What an operation may make of the account of the child at `p`, if the next id is `n`: most change
-- it in one way, and `ensureNodeChildren` may open it if there is none.
abbrev pub Allowed : NodeOperation → ℕ → ChildKey → Option Ledger → Option Ledger → Type 0
Allowed (create_one place kind) n p before after = after ≡ before
Allowed (set_input place input) n p before after = after ≡ before
Allowed (select_case place key) n p before after = after ≡ before
Allowed (end_one e place) n p before after = after ≡ before
Allowed (wait place) n p before after = after ≡ before
Allowed (end_child_at e place) n p before after = after ≡ at_place place p close before
Allowed (cancel_all run) n p before after =
    after ≡ (if p.run == run then on close before else before)
Allowed (ensure_children place inputs) n p before after =
    (after ≡ before) ⊎ ((before ≡ none) × (after ≡ some opened))
Allowed (attempt place input key) n p before after =
    after ≡ at_place place p (take n (suc n)) before
Allowed (ensure_attempt place input key) n p before after =
    after ≡ at_place place p (take_first n (suc n)) before
Allowed (settle_current v id token) n p before after =
    after ≡ on (settle id token (closes v)) before
Allowed (elsewhere ids) n p before after = after ≡ before
