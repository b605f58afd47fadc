-- ===== src/Workflows/Nodes/Opening.antt =====
-- What `ensureNodeChildren` does to the accounts: it opens those of the children that it creates.
use neemata.Common.{
  ℕ, ◌≡◌, refl, ◌⊎◌, true, false, ◌&&◌, Option, none, some, List, [], ◌∷◌, arith, ◌==◌, if_intro,
  Bool-cases, inl, inr, length,
}
use neemata.Workflows.Items.{now}
use neemata.Workflows.Nodes.Table.{find, put, find-put}
use neemata.Workflows.Nodes.Children.{
  ChildInput, is_of_node, at_node, node_children, new_child, create_children, on_existing,
  all_match, ensuring,
}
use neemata.Workflows.Nodes.Ledger.{Ledger, view, ledger, is_placed, Inv}
use neemata.Workflows.Nodes.Operations.{or_same_created, opened}
use neemata.Workflows.Nodes.Kept.{put_child-placed}
use neemata.Workflows.Nodes.{
  Node, NodeKey, ChildKey, Child, Attempt, Graph, nodes_by_key, children_by_key, same_child,
  same_child_eq,
}

-- The account is as it was, or was opened.
abbrev pub IsOpened : Option Ledger → Option Ledger → Type 0
IsOpened before after = (after ≡ before) ⊎ ((before ≡ none) × (after ≡ some opened))

-- A node without children has none under any key.
childless :
    (place : NodeKey) (cs : List Child) (key : ℕ)
    → node_children place cs ≡ []
    → find (at_node place key) cs ≡ none
unfolding find node_children
childless place [] key h = refl
childless place (c ∷ cs) key h = elim (Bool-cases (is_of_node place c)) [
  | inl e ↦ absurd (ground (arith, e, h))
  | inr ne ↦ rw (other) (childless place cs key (ground (arith, ne, h)))
]
  where
    other : same_child (at_node place key) c.place ≡ false
    other = ground (arith)

created-IsOpened :
    (place : NodeKey) (date : ℕ) (inputs : List ChildInput) (attempts : List Attempt) (p : ChildKey)
    (before : Option Ledger) (cs : List Child)
    → ((key : ℕ) → same_child p (at_node place key) ≡ true → before ≡ none)
    → IsOpened before (ledger attempts (find p cs))
    → IsOpened before (ledger attempts (find p (create_children place date inputs cs)))
unfolding create_children
created-IsOpened place date [] attempts p before cs new h = h
created-IsOpened place date (i ∷ inputs) attempts p before cs new h =
    created-IsOpened place date inputs attempts p before (put (new_child place date i) cs) new (
      rw (find-put p (new_child place date i) cs) (
        if_intro (λ o. IsOpened before (ledger attempts o)) (same_child p (at_node place i.key))
          (some (new_child place date i)) (find p cs) (λ e. inr (new i.key e, refl)) (λ _. h)))

created-placed :
    (place : NodeKey) (date : ℕ) (inputs : List ChildInput) (attempts : List Attempt)
    (cs : List Child)
    → ((p : ChildKey) → is_placed p (find p cs) attempts ≡ true)
    → (p : ChildKey) → is_placed p (find p (create_children place date inputs cs)) attempts ≡ true
unfolding create_children
created-placed place date [] attempts cs h = h
created-placed place date (i ∷ inputs) attempts cs h =
    created-placed place date inputs attempts (put (new_child place date i) cs)
      (put_child-placed (new_child place date i) cs attempts refl h)

existing-IsOpened :
    (place : NodeKey) (inputs : List ChildInput) (clock : ℕ) (xs : List Child) (s : Graph)
    (p : ChildKey)
    → node_children place s.children ≡ xs
    → IsOpened (view s p) (view (or_same_created s (on_existing place inputs clock xs s)) p)
unfolding on_existing
existing-IsOpened place inputs clock [] s p e =
    created-IsOpened place (now clock s.last_timestamp) inputs s.attempts p (view s p) s.children
      (λ key same.
        rw (same_child_eq p (at_node place key) same) (rw (childless place s.children key e) refl))
      (inl refl)
existing-IsOpened place inputs clock (x ∷ xs) s p e =
    elim (Bool-cases (length (x ∷ xs) == length inputs && all_match place inputs s.children)) [
      | inl h ↦ rw h (inl refl)
      | inr h ↦ rw h (inl refl)
    ]

existing-Inv :
    (place : NodeKey) (inputs : List ChildInput) (clock : ℕ) (xs : List Child) (s : Graph)
    → Inv s
    → Inv (or_same_created s (on_existing place inputs clock xs s))
unfolding on_existing
existing-Inv place inputs clock [] s v = record {
  placed = created-placed place (now clock s.last_timestamp) inputs s.attempts s.children v.placed;
  fresh = v.fresh;
}
existing-Inv place inputs clock (x ∷ xs) s v =
    elim (Bool-cases (length (x ∷ xs) == length inputs && all_match place inputs s.children)) [
      | inl h ↦ rw h v
      | inr h ↦ rw h v
    ]

pub ensuring-IsOpened :
    (place : NodeKey) (inputs : List ChildInput) (clock : ℕ) (o : Option Node) (s : Graph)
    (p : ChildKey)
    → IsOpened (view s p) (view (or_same_created s (ensuring place inputs clock o s)) p)
unfolding ensuring
ensuring-IsOpened place inputs clock none s p = inl refl
ensuring-IsOpened place inputs clock (some node) s p =
    existing-IsOpened place inputs clock (node_children place s.children) s p refl

pub ensuring-Inv :
    (place : NodeKey) (inputs : List ChildInput) (clock : ℕ) (o : Option Node) (s : Graph)
    → Inv s
    → Inv (or_same_created s (ensuring place inputs clock o s))
unfolding ensuring
ensuring-Inv place inputs clock none s v = v
ensuring-Inv place inputs clock (some node) s v =
    existing-Inv place inputs clock (node_children place s.children) s v
