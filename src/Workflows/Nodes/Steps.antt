-- ===== src/Workflows/Nodes/Steps.antt =====
-- The operations on nodes, children and attempts in any order.
use neemata.Common.{ℕ, ◌≡◌, refl, ◌∙◌, Option, none, some, arith}
use neemata.Workflows.Nodes.Table.{find}
use neemata.Workflows.Nodes.Aggregate.{
  creating, setting_input, selecting, Ending, ending_node, pausing,
}
use neemata.Workflows.Nodes.Children.{cancel_non_terminal_run_nodes, cancel_nodes}
use neemata.Workflows.Nodes.Ledger.{view, Inv}
use neemata.Workflows.Nodes.Operations.{
  NodeOperation, create_one, set_input, select_case, end_one, wait, end_child_at, cancel_all,
  ensure_children, attempt, ensure_attempt, settle_current, elsewhere, or_same, perform, Allowed,
}
use neemata.Workflows.Nodes.Refinement.{settling-view}
use neemata.Workflows.Nodes.Settled.{settling-Inv}
use neemata.Workflows.Nodes.Attempting.{attempting-view, attempting-Inv}
use neemata.Workflows.Nodes.Ensuring.{ensuring_attempt-view, ensuring_attempt-Inv}
use neemata.Workflows.Nodes.Opening.{ensuring-IsOpened, ensuring-Inv}
use neemata.Workflows.Nodes.Ends.{
  ending_child-view, ending_child-Inv, cancel_children-ledger, cancel_children-placed,
}
use neemata.Workflows.Nodes.{
  NodeKey, Node, ChildKey, Graph, nodes_by_key, children_by_key, attempts_by_id,
}

-- Only the nodes and the last date differ.
abbrev pub SameWork : Graph → Graph → Type 0
SameWork s t = (t.children ≡ s.children) × (t.attempts ≡ s.attempts) × (t.next_id ≡ s.next_id)

same_work : (s : Graph) → SameWork s s
same_work s = (refl, refl, refl)

pub creating-SameWork :
    (place : NodeKey) (kind clock : ℕ) (o : Option Node) (s : Graph)
    → SameWork s (creating place kind clock o s).0
creating-SameWork place kind clock none s = (refl, refl, refl)
creating-SameWork place kind clock (some node) s = (refl, refl, refl)

pub setting-SameWork :
    (input clock : ℕ) (o : Option Node) (s : Graph)
    → SameWork s (or_same s (setting_input input clock o s))
setting-SameWork input clock none s = (refl, refl, refl)
setting-SameWork input clock (some node) s = ground arith

pub selecting-SameWork :
    (key clock : ℕ) (o : Option Node) (s : Graph) → SameWork s (or_same s (selecting key clock o s))
selecting-SameWork key clock none s = (refl, refl, refl)
selecting-SameWork key clock (some node) s = ground arith

pub ending-SameWork :
    (e : Ending) (clock : ℕ) (o : Option Node) (s : Graph) → SameWork s (ending_node e clock o s).0
ending-SameWork e clock none s = (refl, refl, refl)
ending-SameWork e clock (some node) s = ground arith

pub pausing-SameWork : (clock : ℕ) (o : Option Node) (s : Graph) → SameWork s (pausing clock o s).0
pausing-SameWork clock none s = (refl, refl, refl)
pausing-SameWork clock (some node) s = ground arith

same-view : (s t : Graph) (p : ChildKey) → SameWork s t → view t p ≡ view s p
same-view s t p h = rw (h.0, h.1) refl

SameWork-Inv : (s t : Graph) → SameWork s t → Inv s → Inv t
SameWork-Inv s t h v = record {
  placed = λ p. rw (h.0, h.1) (v.placed p);
  fresh = λ id le. rw (h.1) (v.fresh id (omega (arith, h.2)));
}

cancelled-Inv :
    (run clock : ℕ) (s : Graph) → Inv s → Inv (cancel_non_terminal_run_nodes run clock s).0
unfolding cancel_non_terminal_run_nodes
cancelled-Inv run clock s v = record {
  placed = λ p.
      cancel_children-placed run clock s.children
        (cancel_nodes run clock s.nodes s.last_timestamp).last_timestamp p s.attempts
      ∙ v.placed p;
  fresh = v.fresh;
}

-- Every operation keeps the invariant.
pub perform-Inv : (op : NodeOperation) (clock : ℕ) (s : Graph) → Inv s → Inv (perform op clock s)
unfolding perform
perform-Inv (create_one place kind) clock s v =
    SameWork-Inv s _ (creating-SameWork place kind clock (find place s.nodes) s) v
perform-Inv (set_input place input) clock s v =
    SameWork-Inv s _ (setting-SameWork input clock (find place s.nodes) s) v
perform-Inv (select_case place key) clock s v =
    SameWork-Inv s _ (selecting-SameWork key clock (find place s.nodes) s) v
perform-Inv (end_one e place) clock s v =
    SameWork-Inv s _ (ending-SameWork e clock (find place s.nodes) s) v
perform-Inv (wait place) clock s v =
    SameWork-Inv s _ (pausing-SameWork clock (find place s.nodes) s) v
perform-Inv (end_child_at e place) clock s v =
    ending_child-Inv e clock place (find place s.children) s refl v
perform-Inv (cancel_all run) clock s v = cancelled-Inv run clock s v
perform-Inv (ensure_children place inputs) clock s v =
    ensuring-Inv place inputs clock (find place s.nodes) s v
perform-Inv (attempt place input key) clock s v =
    attempting-Inv input key clock (find place s.children) s v
perform-Inv (ensure_attempt place input key) clock s v =
    ensuring_attempt-Inv input key clock (find place s.children) s v
perform-Inv (settle_current verdict id token) clock s v =
    settling-Inv verdict id token clock (find id s.attempts) s refl v
perform-Inv (elsewhere ids) clock s v = record {
  placed = v.placed;
  fresh = λ id h. v.fresh id (omega arith);
}

-- The store implements the accounts: after any operation the account of every child is what the
-- operation allows to make of the account before, so long as the invariant holds.
pub perform-Allowed :
    (op : NodeOperation) (clock : ℕ) (s : Graph) (p : ChildKey)
    → Inv s
    → Allowed op s.next_id p (view s p) (view (perform op clock s) p)
unfolding perform
perform-Allowed (create_one place kind) clock s p v =
    same-view s (perform (create_one place kind) clock s) p
      (creating-SameWork place kind clock (find place s.nodes) s)
perform-Allowed (set_input place input) clock s p v =
    same-view s (perform (set_input place input) clock s) p
      (setting-SameWork input clock (find place s.nodes) s)
perform-Allowed (select_case place key) clock s p v =
    same-view s (perform (select_case place key) clock s) p
      (selecting-SameWork key clock (find place s.nodes) s)
perform-Allowed (end_one e place) clock s p v =
    same-view s (perform (end_one e place) clock s) p
      (ending-SameWork e clock (find place s.nodes) s)
perform-Allowed (wait place) clock s p v =
    same-view s (perform (wait place) clock s) p (pausing-SameWork clock (find place s.nodes) s)
perform-Allowed (end_child_at e place) clock s p v =
    ending_child-view e clock place (find place s.children) s p refl
perform-Allowed (cancel_all run) clock s p v =
    cancel_children-ledger run clock s.children
      (cancel_nodes run clock s.nodes s.last_timestamp).last_timestamp p s.attempts
perform-Allowed (ensure_children place inputs) clock s p v =
    ensuring-IsOpened place inputs clock (find place s.nodes) s p
perform-Allowed (attempt place input key) clock s p v =
    attempting-view place input key clock (find place s.children) s p refl v
perform-Allowed (ensure_attempt place input key) clock s p v =
    ensuring_attempt-view place input key clock (find place s.children) s p refl v
perform-Allowed (settle_current verdict id token) clock s p v =
    settling-view verdict id token clock (find id s.attempts) s p refl v
perform-Allowed (elsewhere ids) clock s p v = refl
