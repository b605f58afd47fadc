-- ===== src/Workflows/Nodes/Attempting.antt =====
-- What a new attempt does to the accounts, and that it keeps the invariant.
use neemata.Common.{
  ℕ, suc, ◌≡◌, refl, ap, sym, ◌∙◌, true, false, ◌||◌, Option, none, some, List, arith, ◌==◌,
  if_intro, Bool-cases, inl, inr,
}
use neemata.Workflows.Items.{now}
use neemata.Workflows.Nodes.Status.{is_terminal_node, is_running, node_can_transition, running}
use neemata.Workflows.Nodes.Table.{find, put, find-put, find-key}
use neemata.Workflows.Nodes.Attempts.{
  attempt_added, attempted, new_attempt, mirrored, mirroring, node_of, create_child_attempt,
  attempting, under,
}
use neemata.Workflows.Nodes.Ledger.{
  Ledger, view, ledger, on, take, is_placed, current_placed, has_place, Inv,
}
use neemata.Workflows.Nodes.Operations.{or_same, at_place}
use neemata.Workflows.Nodes.Kept.{put_child-placed, add_attempt-placed, put_attempt-fresh}
use neemata.Workflows.Nodes.{
  Node, ChildKey, Child, Attempt, Graph, nodes_by_key, children_by_key, attempts_by_id, same_child,
  same_child_eq, same_child_refl, same_id_eq, same_id_refl,
}

-- Only the nodes differ.
pub mirroring-view :
    (clock : ℕ) (o : Option Node) (s : Graph) (p : ChildKey)
    → view (mirroring clock o s) p ≡ view s p
unfolding mirroring
mirroring-view clock none s p = refl
mirroring-view clock (some node) s p =
    if_intro (λ t. view t p ≡ view s p)
      (is_running node.status || node_can_transition node.status running) (mirrored clock node s) s
      (λ _. refl) (λ _. refl)

-- No child has an attempt under an id that is new.
under-add :
    (p : ChildKey) (o : Option ℕ) (b : Attempt) (attempts : List Attempt)
    → find b.id attempts ≡ none
    → current_placed p o attempts ≡ true
    → under o (put b attempts) ≡ under o attempts
under-add p none b attempts at h = refl
under-add p (some i) b attempts at h = rw (find-put i b attempts) (
    if_intro (λ o. o ≡ find i attempts) (i == b.id) (some b) (find i attempts)
      (λ e.
        let none_here : find i attempts ≡ none =
          ap (λ k. find k attempts) (same_id_eq i b.id e) ∙ at in
        absurd (ground (arith, sym (ap (has_place p) none_here) ∙ h)))
      (λ _. refl))

ledger-add :
    (p : ChildKey) (o : Option Child) (b : Attempt) (attempts : List Attempt)
    → find b.id attempts ≡ none
    → is_placed p o attempts ≡ true
    → ledger (put b attempts) o ≡ ledger attempts o
ledger-add p none b attempts at h = refl
ledger-add p (some c) b attempts at h = rw (under-add p c.current_attempt b attempts at h) refl

added-view :
    (c : Child) (input : ℕ) (key : Option ℕ) (clock : ℕ) (s : Graph) (p : ChildKey)
    → find c.place s.children ≡ some c
    → is_terminal_node c.status ≡ false
    → Inv s
    → view (attempt_added c input key clock s) p
      ≡ at_place c.place p (take s.next_id (suc s.next_id)) (view s p)
added-view c input key clock s p at live v = elim (Bool-cases (same_child p c.place)) [
  | inl e ↦
      rw
        (
          same_child_eq p c.place e,
          find-put c.place (attempted c s.next_id (now clock (now clock s.last_timestamp)))
              s.children,
          same_child_refl c.place,
          at,
          live,
        )
        (rw
          (find-put s.next_id (new_attempt c input key s.next_id (now clock s.last_timestamp))
            s.attempts)
          (rw (same_id_refl s.next_id) refl))
  | inr ne ↦
      rw
        (find-put p (attempted c s.next_id (now clock (now clock s.last_timestamp))) s.children, ne)
        (ledger-add p (find p s.children)
          (new_attempt c input key s.next_id (now clock s.last_timestamp)) s.attempts
          (v.fresh s.next_id (omega arith)) (v.placed p))
]

mirroring-Inv : (clock : ℕ) (o : Option Node) (s : Graph) → Inv s → Inv (mirroring clock o s)
unfolding mirroring
mirroring-Inv clock none s v = v
mirroring-Inv clock (some node) s v =
    if_intro Inv (is_running node.status || node_can_transition node.status running)
      (mirrored clock node s) s (λ _. record { placed = v.placed; fresh = v.fresh }) (λ _. v)

added-Inv :
    (c : Child) (input : ℕ) (key : Option ℕ) (clock : ℕ) (s : Graph)
    → Inv s
    → Inv (attempt_added c input key clock s)
added-Inv c input key clock s v =
    let a : Attempt = new_attempt c input key s.next_id (now clock s.last_timestamp) in
    record {
      placed =
          put_child-placed (attempted c s.next_id (now clock (now clock s.last_timestamp)))
            s.children (put a s.attempts)
            (rw (find-put s.next_id a s.attempts)
              (rw (same_id_refl s.next_id) (same_child_refl c.place)))
            (λ p.
              add_attempt-placed a s.attempts p (find p s.children)
                (v.fresh s.next_id (omega arith)) (v.placed p));
      fresh =
          λ id h. put_attempt-fresh a s.attempts id (ground (arith, h)) (v.fresh id (omega arith));
    }

-- Where nothing changes, an account that the operation would leave alone is as it was.
pub unmoved :
    (place p : ChildKey) (f : Ledger → Ledger) (s : Graph)
    → on f (view s place) ≡ view s place
    → view s p ≡ at_place place p f (view s p)
unmoved place p f s h = elim (Bool-cases (same_child p place)) [
  | inl e ↦ rw (same_child_eq p place e) (rw (same_child_refl place) (sym h))
  | inr ne ↦ rw ne refl
]

pub attempting-view :
    (place : ChildKey) (input : ℕ) (key : Option ℕ) (clock : ℕ) (o : Option Child) (s : Graph)
    (p : ChildKey)
    → find place s.children ≡ o
    → Inv s
    → view (or_same s (attempting input key clock o s)) p
      ≡ at_place place p (take s.next_id (suc s.next_id)) (view s p)
unfolding attempting create_child_attempt
attempting-view place input key clock none s p at v =
    unmoved place p (take s.next_id (suc s.next_id)) s (rw at refl)
attempting-view place input key clock (some c) s p at v =
    elim (Bool-cases (is_terminal_node c.status)) [
      | inl over ↦ rw over (unmoved place p (take s.next_id (suc s.next_id)) s (rw (at, over) refl))
      | inr live ↦
          let e : place ≡ c.place = find-key place s.children at in
          rw live (
            mirroring-view clock (find (node_of c.place) s.nodes)
              (attempt_added c input key clock s) p
            ∙ rw e (
                added-view c input key clock s p (ap (λ k. find k s.children) (sym e) ∙ at) live v))
    ]

pub attempting-Inv :
    (input : ℕ) (key : Option ℕ) (clock : ℕ) (o : Option Child) (s : Graph)
    → Inv s
    → Inv (or_same s (attempting input key clock o s))
unfolding attempting create_child_attempt
attempting-Inv input key clock none s v = v
attempting-Inv input key clock (some c) s v = elim (Bool-cases (is_terminal_node c.status)) [
  | inl over ↦ rw over v
  | inr live ↦ rw live (
      mirroring-Inv clock (find (node_of c.place) s.nodes) (attempt_added c input key clock s)
        (added-Inv c input key clock s v))
]
