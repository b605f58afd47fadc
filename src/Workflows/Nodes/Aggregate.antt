-- ===== src/Workflows/Nodes/Aggregate.antt =====
-- packages/workflows/src/runtime/in-memory.ts: the operations on nodes, which are aggregates over
-- their children. Each returns the new state with the node that the source returns.
use neemata.Common.{
  ℕ, suc, Bool, true, false, ◌||◌, Option, none, some, ◌==◌, Outcome, ok, err, if◌then◌else◌,
}
use neemata.Workflows.Items.{now}
use neemata.Workflows.Nodes.Status.{
  NodeStatus, pending, waiting, cancelled, is_terminal_node, is_waiting,
}
use neemata.Workflows.Nodes.Table.{find, put}
use neemata.Workflows.Nodes.{
  NodeKey, Node, Graph, NodeError, missing_node, conflicting_case, nodes_by_key,
}

abbrev new_node : NodeKey → ℕ → ℕ → Node
new_node place kind date = record {
  place = place;
  kind = kind;
  status = pending;
  input = none;
  output = none;
  error = none;
  selected_case = none;
  version = 1;
  created_at = date;
  updated_at = date;
}

-- `nodes.set` with the date that `now()` gave.
abbrev pub store_node : ℕ → Node → Graph → Graph
store_node date node s = record s { nodes = put node s.nodes; last_timestamp = date }

abbrev pub creating : NodeKey → ℕ → ℕ → Option Node → Graph → Graph × Node
creating place kind clock (some node) s = (s, node)
creating place kind clock none s =
    let date = now clock s.last_timestamp in
    let node = new_node place kind date in (store_node date node s, node)

-- `createNode`.
unfoldable pub create_node : NodeKey → ℕ → ℕ → Graph → Graph × Node
create_node place kind clock s = creating place kind clock (find place s.nodes) s

abbrev input_node : ℕ → ℕ → Node → Node
input_node input date node = record node {
  input = some input;
  version = suc node.version;
  updated_at = date;
}

abbrev pub setting_input : ℕ → ℕ → Option Node → Graph → Outcome NodeError (Graph × Node)
setting_input input clock none s = err missing_node
setting_input input clock (some node) s =
    let date = now clock s.last_timestamp in
    let updated = input_node input date node in
    if is_terminal_node node.status then ok (s, node) else ok (store_node date updated s, updated)

-- `setNodeInput`.
unfoldable pub set_node_input : NodeKey → ℕ → ℕ → Graph → Outcome NodeError (Graph × Node)
set_node_input place input clock s = setting_input input clock (find place s.nodes) s

abbrev is_case : Option ℕ → ℕ → Bool
is_case none key = false
is_case (some selected) key = selected == key

abbrev is_selected : Option ℕ → Bool
is_selected none = false
is_selected (some selected) = true

abbrev case_node : ℕ → ℕ → Node → Node
case_node key date node = record node {
  selected_case = some key;
  version = suc node.version;
  updated_at = date;
}

abbrev pub selecting : ℕ → ℕ → Option Node → Graph → Outcome NodeError (Graph × Option Node)
selecting key clock none s = ok (s, none)
selecting key clock (some node) s =
    let date = now clock s.last_timestamp in
    let updated = case_node key date node in
    if is_terminal_node node.status || is_case node.selected_case key
    then ok (s, some node)
    else (if is_selected node.selected_case
        then err conflicting_case
        else ok (store_node date updated s, some updated))

-- `selectNodeCase`.
unfoldable pub select_node_case : NodeKey → ℕ → ℕ → Graph → Outcome NodeError (Graph × Option Node)
select_node_case place key clock s = selecting key clock (find place s.nodes) s

-- What `completeNode`, `failNode`, `cancelNode` and `waitNode` make of a node; a child is completed,
-- failed or cancelled in the same way.
pub data Ending : Type 0 where
  complete : (output : ℕ) → Ending
  fail : (error : ℕ) → Ending
  cancel : Ending

abbrev pub ending_status : Ending → NodeStatus
ending_status (complete output) = NodeStatus.completed
ending_status (fail error) = NodeStatus.failed
ending_status cancel = cancelled

abbrev pub ending_output : Ending → Option ℕ → Option ℕ
ending_output (complete output) old = some output
ending_output other old = old

abbrev pub ending_error : Ending → Option ℕ → Option ℕ
ending_error (fail error) old = some error
ending_error other old = old

abbrev pub ended_node : Ending → ℕ → Node → Node
ended_node e date node = record node {
  status = ending_status e;
  output = ending_output e node.output;
  error = ending_error e node.error;
  version = suc node.version;
  updated_at = date;
}

abbrev pub ending_node : Ending → ℕ → Option Node → Graph → Graph × Option Node
ending_node e clock none s = (s, none)
ending_node e clock (some node) s =
    let date = now clock s.last_timestamp in
    let updated = ended_node e date node in
    if is_terminal_node node.status
    then (s, some node)
    else (store_node date updated s, some updated)

-- `completeNode`, `failNode` and `cancelNode`.
unfoldable pub end_node : Ending → NodeKey → ℕ → Graph → Graph × Option Node
end_node e place clock s = ending_node e clock (find place s.nodes) s

abbrev waiting_node : ℕ → Node → Node
waiting_node date node = record node {
  status = waiting;
  version = suc node.version;
  updated_at = date;
}

abbrev pub pausing : ℕ → Option Node → Graph → Graph × Option Node
pausing clock none s = (s, none)
pausing clock (some node) s =
    let date = now clock s.last_timestamp in
    let updated = waiting_node date node in
    if is_terminal_node node.status || is_waiting node.status
    then (s, some node)
    else (store_node date updated s, some updated)

-- `waitNode`.
unfoldable pub wait_node : NodeKey → ℕ → Graph → Graph × Option Node
wait_node place clock s = pausing clock (find place s.nodes) s
