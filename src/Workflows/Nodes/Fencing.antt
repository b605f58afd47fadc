-- ===== src/Workflows/Nodes/Fencing.antt =====
-- The fence over whole runs of the store: a worker that lost its child is stopped for good.
use neemata.Common.{
  ℕ, ◌≤◌, ◌<◌, ◌≡◌, refl, ◌∙◌, Bool, false, Option, none, some, List, [], ◌∷◌, arith, Bool-cases,
  inl, inr, ltb,
}
use neemata.Workflows.Nodes.Table.{find}
use neemata.Workflows.Nodes.Aggregate.{Ending}
use neemata.Workflows.Nodes.Children.{
  ending_child, ChildInput, ensuring, on_existing, node_children,
}
use neemata.Workflows.Nodes.Attempts.{
  Verdict, completed, failed, timed_out, settling, settling_child, child_settled, attempt_settled,
  mirroring, attempting, create_child_attempt, ensuring_attempt, or_last, under, attempt_added,
  node_of,
}
use neemata.Workflows.Nodes.Ledger.{Ledger, view, Inv, on, settle, closes}
use neemata.Workflows.Nodes.Operations.{
  NodeOperation, create_one, set_input, select_case, end_one, wait, end_child_at, cancel_all,
  ensure_children, attempt, ensure_attempt, settle_current, elsewhere, or_same, or_same_created,
  perform,
}
use neemata.Workflows.Nodes.Steps.{
  SameWork, perform-Inv, perform-Allowed, creating-SameWork, setting-SameWork, selecting-SameWork,
  ending-SameWork, pausing-SameWork,
}
use neemata.Workflows.Nodes.Ensuring.{reused, first}
use neemata.Workflows.Nodes.Lost.{
  Reach, Later, at_once, after, Graph-Reach-Inv, has_child, Allowed-lost,
}
use neemata.Workflows.Nodes.{
  NodeKey, Node, ChildKey, Child, Attempt, Graph, nodes_by_key, children_by_key, attempts_by_id,
}

abbrev Grows : Graph → Graph → Type 0
Grows s t = s.next_id ≤ t.next_id

same-Grows : (s t : Graph) → SameWork s t → Grows s t
same-Grows s t h = omega (arith, h.2)

ending_child-Grows :
    (e : Ending) (clock : ℕ) (o : Option Child) (s : Graph) → Grows s (ending_child e clock o s).0
unfolding ending_child
ending_child-Grows e clock none s = omega arith
ending_child-Grows e clock (some c) s = ground arith

mirroring-Grows : (clock : ℕ) (o : Option Node) (s : Graph) → Grows s (mirroring clock o s)
unfolding mirroring
mirroring-Grows clock none s = omega arith
mirroring-Grows clock (some node) s = ground arith

attempting-Grows :
    (input : ℕ) (key : Option ℕ) (clock : ℕ) (o : Option Child) (s : Graph)
    → Grows s (or_same s (attempting input key clock o s))
unfolding attempting create_child_attempt
attempting-Grows input key clock none s = omega arith
attempting-Grows input key clock (some c) s = ground (
  arith,
  mirroring-Grows clock (find (node_of c.place) s.nodes) (attempt_added c input key clock s),
)

ensuring_attempt-Grows :
    (input : ℕ) (key : Option ℕ) (clock : ℕ) (o : Option Child) (s : Graph)
    → Grows s (or_same_created s (ensuring_attempt input key clock o s))
unfolding ensuring_attempt
ensuring_attempt-Grows input key clock none s = omega arith
ensuring_attempt-Grows input key clock (some c) s = elim (Bool-cases (ltb 0 c.attempt_count)) [
  | inl h ↦ rw h (
      rw (reused (or_last (under c.current_attempt s.attempts) c.place s.attempts) s) (omega arith))
  | inr h ↦ rw h (
      rw (first (attempting input key clock (some c) s) s)
        (attempting-Grows input key clock (some c) s))
]

existing-Grows :
    (place : NodeKey) (inputs : List ChildInput) (clock : ℕ) (xs : List Child) (s : Graph)
    → Grows s (or_same_created s (on_existing place inputs clock xs s))
unfolding on_existing
existing-Grows place inputs clock [] s = omega arith
existing-Grows place inputs clock (x ∷ xs) s = ground arith

ensuring-Grows :
    (place : NodeKey) (inputs : List ChildInput) (clock : ℕ) (o : Option Node) (s : Graph)
    → Grows s (or_same_created s (ensuring place inputs clock o s))
unfolding ensuring
ensuring-Grows place inputs clock none s = omega arith
ensuring-Grows place inputs clock (some node) s =
    existing-Grows place inputs clock (node_children place s.children) s

child_settled-Grows :
    (v : Verdict) (clock : ℕ) (d : Child) (s : Graph) → Grows s (child_settled v clock d s)
child_settled-Grows (completed output) clock d s = omega arith
child_settled-Grows (failed error) clock d s = omega arith
child_settled-Grows (timed_out error) clock d s = omega arith

settling_child-Grows :
    (v : Verdict) (token clock : ℕ) (a : Attempt) (o : Option Child) (s : Graph)
    → Grows s (settling_child v token clock a o s).0
unfolding settling_child
settling_child-Grows v token clock a none s = omega arith
settling_child-Grows v token clock a (some d) s =
    ground (arith, child_settled-Grows v clock d (attempt_settled v clock a s))

settling-Grows :
    (v : Verdict) (token clock : ℕ) (o : Option Attempt) (s : Graph)
    → Grows s (settling v token clock o s).0
unfolding settling
settling-Grows v token clock none s = omega arith
settling-Grows v token clock (some a) s =
    settling_child-Grows v token clock a (find a.place s.children) s

perform-Grows : (op : NodeOperation) (clock : ℕ) (s : Graph) → Grows s (perform op clock s)
unfolding perform
perform-Grows (create_one place kind) clock s =
    same-Grows s (perform (create_one place kind) clock s)
      (creating-SameWork place kind clock (find place s.nodes) s)
perform-Grows (set_input place input) clock s =
    same-Grows s (perform (set_input place input) clock s)
      (setting-SameWork input clock (find place s.nodes) s)
perform-Grows (select_case place key) clock s =
    same-Grows s (perform (select_case place key) clock s)
      (selecting-SameWork key clock (find place s.nodes) s)
perform-Grows (end_one e place) clock s =
    same-Grows s (perform (end_one e place) clock s)
      (ending-SameWork e clock (find place s.nodes) s)
perform-Grows (wait place) clock s =
    same-Grows s (perform (wait place) clock s) (pausing-SameWork clock (find place s.nodes) s)
perform-Grows (end_child_at e place) clock s = ending_child-Grows e clock (find place s.children) s
perform-Grows (cancel_all run) clock s = omega arith
perform-Grows (ensure_children place inputs) clock s =
    ensuring-Grows place inputs clock (find place s.nodes) s
perform-Grows (attempt place input key) clock s =
    attempting-Grows input key clock (find place s.children) s
perform-Grows (ensure_attempt place input key) clock s =
    ensuring_attempt-Grows input key clock (find place s.children) s
perform-Grows (settle_current v id token) clock s =
    settling-Grows v token clock (find id s.attempts) s
perform-Grows (elsewhere ids) clock s = omega arith

later :
    {s t : Graph}
    → Later s t
    → (id token : ℕ) (p : ChildKey) → Inv s
    → id < s.next_id
    → has_child (view s p) id token ≡ false
    → Inv t × (id < t.next_id) × (has_child (view t p) id token ≡ false)
later at_once id token p v lt h = (v, lt, h)
later (after {t} l op clock) id token p v lt h =
    let (i, below, gone) = later l id token p v lt h in
    (
      perform-Inv op clock t i,
      omega (arith, perform-Grows op clock t),
      Allowed-lost op t.next_id id token p (view t p) (view (perform op clock t) p)
          (perform-Allowed op clock t p i) below gone,
    )

unsettled :
    (id token : ℕ) (closing : Bool) (o : Option Ledger)
    → has_child o id token ≡ false
    → on (settle id token closing) o ≡ o
unsettled id token closing none h = refl
unsettled id token closing (some l) h = rw h refl

-- In a state that the operations reach, let an attempt whose id was drawn not hold a child under a
-- token. Then it holds it in no later state, and to settle it under that token then leaves the
-- account of the child as it is.
pub stopped_for_good :
    {s t : Graph} (r : Reach s) (l : Later s t) (v : Verdict) (id token clock : ℕ) (p : ChildKey)
    → id < s.next_id
    → has_child (view s p) id token ≡ false
    → (has_child (view t p) id token ≡ false)
      × (view (perform (settle_current v id token) clock t) p ≡ view t p)
stopped_for_good {s} {t} r l v id token clock p lt h =
    let (i, below, gone) = later l id token p (Graph-Reach-Inv r) lt h in
    (
      gone,
      perform-Allowed (settle_current v id token) clock t p i
          ∙ unsettled id token (closes v) (view t p) gone,
    )
