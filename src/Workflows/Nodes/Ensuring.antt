-- ===== src/Workflows/Nodes/Ensuring.antt =====
-- What `ensureChildAttempt` and `ensureNodeChildren` do to the accounts.
use neemata.Common.{
  ℕ, suc, ◌≡◌, refl, ◌∙◌, false, Option, none, some, ltb, Bool-cases, inl, inr, ok, err,
}
use neemata.Workflows.Nodes.Table.{find}
use neemata.Workflows.Nodes.Attempts.{
  Attempting, attempting, ensuring_attempt, or_last, under, reusing, created_first,
}
use neemata.Workflows.Nodes.Ledger.{view, take, Inv}
use neemata.Workflows.Nodes.Operations.{or_same, or_same_created, at_place, take_first}
use neemata.Workflows.Nodes.Attempting.{unmoved, attempting-view, attempting-Inv}
use neemata.Workflows.Nodes.{
  ChildKey, Child, Attempt, Graph, nodes_by_key, children_by_key, attempts_by_id, same_child,
  same_child_eq, same_child_refl,
}

pub reused : (o : Option Attempt) (s : Graph) → or_same_created s (reusing o s) ≡ s
reused none s = refl
reused (some a) s = refl

pub first : (r : Attempting) (s : Graph) → or_same_created s (created_first r) ≡ or_same s r
first (ok (t, a)) s = refl
first (err e) s = refl

take_first-untaken :
    (place p : ChildKey) (id token : ℕ) (c : Child) (s : Graph)
    → find place s.children ≡ some c
    → ltb 0 c.attempt_count ≡ false
    → at_place place p (take id token) (view s p)
      ≡ at_place place p (take_first id token) (view s p)
take_first-untaken place p id token c s at h = elim (Bool-cases (same_child p place)) [
  | inl e ↦ rw (same_child_eq p place e) (rw (same_child_refl place) (rw at (rw h refl)))
  | inr ne ↦ rw ne refl
]

pub ensuring_attempt-view :
    (place : ChildKey) (input : ℕ) (key : Option ℕ) (clock : ℕ) (o : Option Child) (s : Graph)
    (p : ChildKey)
    → find place s.children ≡ o
    → Inv s
    → view (or_same_created s (ensuring_attempt input key clock o s)) p
      ≡ at_place place p (take_first s.next_id (suc s.next_id)) (view s p)
unfolding ensuring_attempt
ensuring_attempt-view place input key clock none s p at v =
    unmoved place p (take_first s.next_id (suc s.next_id)) s (rw at refl)
ensuring_attempt-view place input key clock (some c) s p at v =
    elim (Bool-cases (ltb 0 c.attempt_count)) [
      | inl h ↦ rw h (
          rw (reused (or_last (under c.current_attempt s.attempts) c.place s.attempts) s)
            (unmoved place p (take_first s.next_id (suc s.next_id)) s (rw at (rw h refl))))
      | inr h ↦ rw h (
          rw (first (attempting input key clock (some c) s) s) (
            attempting-view place input key clock (some c) s p at v
            ∙ take_first-untaken place p s.next_id (suc s.next_id) c s at h))
    ]

pub ensuring_attempt-Inv :
    (input : ℕ) (key : Option ℕ) (clock : ℕ) (o : Option Child) (s : Graph)
    → Inv s
    → Inv (or_same_created s (ensuring_attempt input key clock o s))
unfolding ensuring_attempt
ensuring_attempt-Inv input key clock none s v = v
ensuring_attempt-Inv input key clock (some c) s v = elim (Bool-cases (ltb 0 c.attempt_count)) [
  | inl h ↦ rw h (rw (reused (or_last (under c.current_attempt s.attempts) c.place s.attempts) s) v)
  | inr h ↦ rw h (
      rw (first (attempting input key clock (some c) s) s)
        (attempting-Inv input key clock (some c) s v))
]
