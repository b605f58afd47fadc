-- ===== src/Workflows/Nodes/Children.antt =====
-- packages/workflows/src/runtime/in-memory.ts: the operations on the children of nodes.
use neemata.Common.{
  ℕ, suc, Bool, true, false, not, ◌&&◌, ◌||◌, Option, none, some, List, [], ◌∷◌, ltb, ◌==◌, length,
  Outcome, ok, err, if◌then◌else◌,
}
use neemata.Workflows.Items.{now, or_else}
use neemata.Workflows.Nodes.Status.{pending, is_terminal_node}
use neemata.Workflows.Nodes.Table.{find, put}
use neemata.Workflows.Nodes.Aggregate.{
  Ending, cancel, ending_status, ending_output, ending_error, ended_node,
}
use neemata.Workflows.Nodes.{
  NodeKey, ChildKey, Node, Child, Graph, NodeError, missing_node, conflicting_children,
  nodes_by_key, children_by_key,
}

-- `children.set` with the date that `now()` gave.
abbrev pub store_child : ℕ → Child → Graph → Graph
store_child date child s = record s { children = put child s.children; last_timestamp = date }

abbrev pub ended_child : Ending → ℕ → Child → Child
ended_child e date child = record child {
  status = ending_status e;
  output = ending_output e child.output;
  error = ending_error e child.error;
  version = suc child.version;
  updated_at = date;
}

unfoldable pub ending_child : Ending → ℕ → Option Child → Graph → Graph × Option Child
ending_child e clock none s = (s, none)
ending_child e clock (some child) s =
    let date = now clock s.last_timestamp in
    let updated = ended_child e date child in
    if is_terminal_node child.status
    then (s, some child)
    else (store_child date updated s, some updated)

-- `completeNodeChild` and `failNodeChild`.
unfoldable pub end_child : Ending → ChildKey → ℕ → Graph → Graph × Option Child
unfolding ending_child
end_child e place clock s = ending_child e clock (find place s.children) s

-- The two loops of `cancelNonTerminalRunNodes`: each entry is set under its own key, so that it
-- keeps its place. `updated` holds the cancelled nodes, in order.
pub record Sweep : Type 0 where
  pub nodes : List Node
  pub updated : List Node
  pub last_timestamp : ℕ

abbrev node_kept : Node → Sweep → Sweep
node_kept node rest = record rest { nodes = node ∷ rest.nodes }

abbrev node_cancelled : Node → Sweep → Sweep
node_cancelled node rest = record rest { nodes = node ∷ rest.nodes; updated = node ∷ rest.updated }

unfoldable pub cancel_nodes : ℕ → ℕ → List Node → ℕ → Sweep
cancel_nodes run clock [] last = record { nodes = []; updated = []; last_timestamp = last }
cancel_nodes run clock (node ∷ rest) last =
    let date = now clock last in
    let kept = node_kept node (cancel_nodes run clock rest last) in
    let gone = node_cancelled (ended_node cancel date node) (cancel_nodes run clock rest date) in
    if not (node.place.run == run) || is_terminal_node node.status then kept else gone

abbrev child_before : Child → List Child × ℕ → List Child × ℕ
child_before child rest = (child ∷ rest.0, rest.1)

unfoldable pub cancel_children : ℕ → ℕ → List Child → ℕ → List Child × ℕ
cancel_children run clock [] last = ([], last)
cancel_children run clock (child ∷ rest) last =
    let date = now clock last in
    let kept = child_before child (cancel_children run clock rest last) in
    let gone = child_before (ended_child cancel date child) (cancel_children run clock rest date) in
    if not (child.place.run == run) || is_terminal_node child.status then kept else gone

-- `cancelNonTerminalRunNodes`.
unfoldable pub cancel_non_terminal_run_nodes : ℕ → ℕ → Graph → Graph × List Node
unfolding cancel_nodes cancel_children
cancel_non_terminal_run_nodes run clock s =
    let swept = cancel_nodes run clock s.nodes s.last_timestamp in
    let left = cancel_children run clock s.children swept.last_timestamp in
    (record s { nodes = swept.nodes; children = left.0; last_timestamp = left.1 }, swept.updated)

-- One of `params.children` of `ensureNodeChildren`.
pub record ChildInput : Type 0 where
  pub key : ℕ
  pub kind : ℕ
  pub ordinal : Option ℕ
  pub item_key : Option ℕ
  pub item : Option ℕ

abbrev pub at_node : NodeKey → ℕ → ChildKey
at_node place key = record { run = place.run; node = place.name; key = key }

abbrev pub is_of_node : NodeKey → Child → Bool
is_of_node place child = child.place.run == place.run && child.place.node == place.name

-- `nodeChildren`.
unfoldable pub node_children : NodeKey → List Child → List Child
node_children place [] = []
node_children place (child ∷ rest) =
    if is_of_node place child then child ∷ node_children place rest else node_children place rest

-- `sortedChildren`, with keys in the order of their numbers.
abbrev comes_after : Child → Child → Bool
comes_after a b = ltb b.ordinal a.ordinal || (a.ordinal == b.ordinal && ltb b.place.key a.place.key)

sort_in : Child → List Child → List Child
sort_in child [] = child ∷ []
sort_in child (x ∷ xs) = if comes_after child x then x ∷ sort_in child xs else child ∷ x ∷ xs

unfoldable pub sorted_children : List Child → List Child
unfolding sort_in
sorted_children [] = []
sorted_children (child ∷ rest) = sort_in child (sorted_children rest)

abbrev pub same_optional : Option ℕ → Option ℕ → Bool
same_optional none none = true
same_optional (some a) (some b) = a == b
same_optional a b = false

abbrev matches_input : Option Child → ChildInput → Bool
matches_input none input = false
matches_input (some child) input =
    child.kind == input.kind
    && child.ordinal == or_else input.ordinal 0
    && same_optional child.item_key input.item_key
    && same_optional child.item input.item

unfoldable pub all_match : NodeKey → List ChildInput → List Child → Bool
all_match place [] children = true
all_match place (input ∷ rest) children =
    matches_input (find (at_node place input.key) children) input && all_match place rest children

abbrev pub new_child : NodeKey → ℕ → ChildInput → Child
new_child place date input = record {
  place = at_node place input.key;
  kind = input.kind;
  status = pending;
  ordinal = or_else input.ordinal 0;
  item_key = input.item_key;
  item = input.item;
  output = none;
  error = none;
  child_run = none;
  current_attempt = none;
  attempt_count = 0;
  version = 1;
  created_at = date;
  updated_at = date;
}

unfoldable pub create_children : NodeKey → ℕ → List ChildInput → List Child → List Child
create_children place date [] children = children
create_children place date (input ∷ rest) children =
    create_children place date rest (put (new_child place date input) children)

unfoldable pub new_children : NodeKey → ℕ → List ChildInput → List Child
new_children place date [] = []
new_children place date (input ∷ rest) = new_child place date input ∷ new_children place date rest

-- The state, the children in order, and whether they were created.
abbrev pub Ensured : Type 0
Ensured = Outcome NodeError (Graph × List Child × Bool)

unfoldable pub on_existing : NodeKey → List ChildInput → ℕ → List Child → Graph → Ensured
unfolding create_children new_children sorted_children all_match
on_existing place inputs clock [] s =
    let date = now clock s.last_timestamp in
    ok (
      record s { children = create_children place date inputs s.children; last_timestamp = date },
      sorted_children (new_children place date inputs),
      true,
    )
on_existing place inputs clock (x ∷ xs) s =
    if length (x ∷ xs) == length inputs && all_match place inputs s.children
    then ok (s, sorted_children (x ∷ xs), false)
    else err conflicting_children

unfoldable pub ensuring : NodeKey → List ChildInput → ℕ → Option Node → Graph → Ensured
unfolding on_existing
ensuring place inputs clock none s = err missing_node
ensuring place inputs clock (some node) s =
    on_existing place inputs clock (node_children place s.children) s

-- `ensureNodeChildren`.
unfoldable pub ensure_node_children : NodeKey → List ChildInput → ℕ → Graph → Ensured
unfolding node_children ensuring
ensure_node_children place inputs clock s = ensuring place inputs clock (find place s.nodes) s
