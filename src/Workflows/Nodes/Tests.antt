-- ===== src/Workflows/Nodes/Tests.antt =====
-- Runs of the store on nodes, children and attempts, and the theorems at them.
use neemata.Common.{◌≡◌, refl, true, false, none, some, List, [], ◌∷◌, arith}
use neemata.Workflows.Nodes.Table.{find, put}
use neemata.Workflows.Nodes.Children.{ChildInput}
use neemata.Workflows.Nodes.Attempts.{completed, failed, settle_attempt}
use neemata.Workflows.Nodes.Ledger.{view}
use neemata.Workflows.Nodes.Operations.{
  create_one, ensure_children, attempt, settle_current, perform, Allowed,
}
use neemata.Workflows.Nodes.Steps.{perform-Allowed}
use neemata.Workflows.Nodes.Lost.{
  empty_graph, Reach, start, step, at_once, after, Graph-Reach-Inv, has_child,
}
use neemata.Workflows.Nodes.Fencing.{stopped_for_good}
use neemata.Workflows.Nodes.{NodeKey, ChildKey, Graph}

abbrev node_place : NodeKey
node_place = record { run = 7; name = 1 }

abbrev child_place : ChildKey
child_place = record { run = 7; node = 1; key = 0 }

abbrev one_child : List ChildInput
one_child = record { key = 0; kind = 0; ordinal = none; item_key = none; item = none } ∷ []

-- A node with one child whose first attempt has id 1 and token 2, and whose second has 3 and 4.
abbrev opened_graph : Graph
opened_graph =
    perform (ensure_children node_place one_child) 10
      (perform (create_one node_place 0) 5 empty_graph)

abbrev first_taken : Graph
first_taken = perform (attempt child_place 50 none) 20 opened_graph

abbrev second_taken : Graph
second_taken = perform (attempt child_place 50 none) 30 first_taken

abbrev second_reached : Reach second_taken
second_reached =
    step
      (step
        (step (step start (create_one node_place 0) 5) (ensure_children node_place one_child) 10)
        (attempt child_place 50 none) 20)
      (attempt child_place 50 none) 30

first_holds :
    view first_taken child_place
    ≡ some (record { taken = 1; holder = some (record { attempt = 1; token = 2 }); closed = false })
unfolding perform find put
first_holds = refl

second_holds :
    view second_taken child_place
    ≡ some (record { taken = 2; holder = some (record { attempt = 3; token = 4 }); closed = false })
unfolding perform find put
second_holds = refl

-- The first worker is stopped, the second closes the child.
stale_answer : (settle_attempt (completed 99) 1 2 40 second_taken).1 ≡ none
unfolding perform find put settle_attempt
stale_answer = refl

second_completes :
    view (perform (settle_current (completed 99) 3 4) 40 second_taken) child_place
    ≡ some (record { taken = 2; holder = none; closed = true })
unfolding perform find put
second_completes = refl

perform-Allowed_example :
    Allowed
      (settle_current (failed 8) 3 4)
      second_taken.next_id
      child_place
      (view second_taken child_place)
      (view (perform (settle_current (failed 8) 3 4) 40 second_taken) child_place)
perform-Allowed_example =
    perform-Allowed (settle_current (failed 8) 3 4) 40 second_taken child_place
      (Graph-Reach-Inv second_reached)

stopped_for_good_example :
    (has_child (view (perform (attempt child_place 60 none) 50 second_taken) child_place) 1 2
      ≡ false)
    × (view
          (perform
            (settle_current (completed 99) 1 2)
            60
            (perform (attempt child_place 60 none) 50 second_taken))
          child_place
        ≡ view (perform (attempt child_place 60 none) 50 second_taken) child_place)
unfolding perform find put
stopped_for_good_example =
    stopped_for_good second_reached (after at_once (attempt child_place 60 none) 50) (completed 99)
      1 2 60 child_place (omega arith) refl
