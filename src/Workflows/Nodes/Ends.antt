-- ===== src/Workflows/Nodes/Ends.antt =====
-- What ending a child and cancelling the children of a run do to the accounts: they close them.
use neemata.Common.{
  ℕ, ◌≡◌, refl, ap, sym, ◌∙◌, subst, true, false, not, ◌||◌, Option, none, some, List, [], ◌∷◌,
  arith, ◌⊎◌, ◌==◌, if◌then◌else◌, Bool-cases, inl, inr,
}
use neemata.Workflows.Items.{now}
use neemata.Workflows.Nodes.Status.{is_terminal_node}
use neemata.Workflows.Nodes.Table.{find, find-put, find-key}
use neemata.Workflows.Nodes.Aggregate.{Ending, complete, fail, cancel, ending_status}
use neemata.Workflows.Nodes.Children.{ended_child, ending_child, cancel_children}
use neemata.Workflows.Nodes.Ledger.{
  Ledger, view, ledger, ledger_of, on, close, is_placed, current_placed, Inv,
}
use neemata.Workflows.Nodes.Operations.{at_place}
use neemata.Workflows.Nodes.Attempting.{unmoved}
use neemata.Workflows.Nodes.Kept.{put_child-placed}
use neemata.Workflows.Nodes.{
  ChildKey, Child, Attempt, Graph, children_by_key, attempts_by_id, same_child, same_child_eq,
  same_child_refl,
}

ending_terminal : (e : Ending) → is_terminal_node (ending_status e) ≡ true
ending_terminal (complete output) = refl
ending_terminal (fail error) = refl
ending_terminal cancel = refl

-- An ended child is closed, and one that was over already stays so.
ended-ledger :
    (e : Ending) (date : ℕ) (c : Child) (attempts : List Attempt)
    → some (ledger_of attempts (ended_child e date c)) ≡ some (close (ledger_of attempts c))
ended-ledger e date c attempts = rw (ending_terminal e) refl

over-ledger :
    (c : Child) (attempts : List Attempt)
    → is_terminal_node c.status ≡ true
    → some (ledger_of attempts c) ≡ some (close (ledger_of attempts c))
over-ledger c attempts h = rw h refl

pub ending_child-view :
    (e : Ending) (clock : ℕ) (place : ChildKey) (o : Option Child) (s : Graph) (p : ChildKey)
    → find place s.children ≡ o
    → view (ending_child e clock o s).0 p ≡ at_place place p close (view s p)
unfolding ending_child
ending_child-view e clock place none s p at = unmoved place p close s (rw at refl)
ending_child-view e clock place (some c) s p at = elim (Bool-cases (is_terminal_node c.status)) [
  | inl over ↦ rw over (unmoved place p close s (rw at (sym (over-ledger c s.attempts over))))
  | inr live ↦
      let own : place ≡ c.place = find-key place s.children at in
      rw live (
        rw (find-put p (ended_child e (now clock s.last_timestamp) c) s.children) (
          rw own (elim (Bool-cases (same_child p c.place)) [
            | inl e' ↦ rw (same_child_eq p c.place e') (
                rw (same_child_refl c.place) (
                  ended-ledger e (now clock s.last_timestamp) c s.attempts
                  ∙ rw (ap (λ k. find k s.children) (sym own) ∙ at) refl))
            | inr ne ↦ rw ne refl
          ])))
]

pub ending_child-Inv :
    (e : Ending) (clock : ℕ) (place : ChildKey) (o : Option Child) (s : Graph)
    → find place s.children ≡ o
    → Inv s
    → Inv (ending_child e clock o s).0
unfolding ending_child
ending_child-Inv e clock place none s at v = v
ending_child-Inv e clock place (some c) s at v = elim (Bool-cases (is_terminal_node c.status)) [
  | inl over ↦ rw over v
  | inr live ↦ rw live (record {
    placed =
        put_child-placed (ended_child e (now clock s.last_timestamp) c) s.children s.attempts
          (subst (λ k. current_placed k c.current_attempt s.attempts ≡ true)
            (find-key place s.children at)
            (sym (ap (λ o. is_placed place o s.attempts) at) ∙ v.placed place))
          v.placed;
    fresh = v.fresh;
  })
]

abbrev by_run : ℕ → ChildKey → Option Ledger → Option Ledger
by_run run p o = if p.run == run then on close o else o

pub cancel_children-ledger :
    (run clock : ℕ) (cs : List Child) (last : ℕ) (p : ChildKey) (attempts : List Attempt)
    → ledger attempts (find p (cancel_children run clock cs last).0)
      ≡ by_run run p (ledger attempts (find p cs))
unfolding find cancel_children
cancel_children-ledger run clock [] last p attempts = ground arith
cancel_children-ledger run clock (c ∷ cs) last p attempts =
    elim (Bool-cases (not (c.place.run == run) || is_terminal_node c.status)) [
      | inl stay ↦ rw stay (elim (Bool-cases (same_child p c.place)) [
        | inl e ↦
            rw e (rw (same_child_eq p c.place e) (kept (Bool-cases (c.place.run == run)) stay))
        | inr ne ↦ rw ne (cancel_children-ledger run clock cs last p attempts)
      ])
      | inr goes ↦ rw goes (elim (Bool-cases (same_child p c.place)) [
        | inl e ↦
            let mine : (c.place.run == run) ≡ true = ground (arith, goes) in
            rw e (
              rw (same_child_eq p c.place e)
                (rw mine (ended-ledger cancel (now clock last) c attempts)))
        | inr ne ↦ rw ne (cancel_children-ledger run clock cs (now clock last) p attempts)
      ])
    ]
  where
    kept :
        ((c.place.run == run) ≡ true) ⊎ ((c.place.run == run) ≡ false)
        → (not (c.place.run == run) || is_terminal_node c.status) ≡ true
        → some (ledger_of attempts c) ≡ by_run run c.place (some (ledger_of attempts c))
    kept (inl mine) stay = rw mine (over-ledger c attempts (ground (arith, mine, stay)))
    kept (inr other) stay = rw other refl

pub cancel_children-placed :
    (run clock : ℕ) (cs : List Child) (last : ℕ) (p : ChildKey) (attempts : List Attempt)
    → is_placed p (find p (cancel_children run clock cs last).0) attempts
      ≡ is_placed p (find p cs) attempts
unfolding find cancel_children
cancel_children-placed run clock [] last p attempts = refl
cancel_children-placed run clock (c ∷ cs) last p attempts =
    elim (Bool-cases (not (c.place.run == run) || is_terminal_node c.status)) [
      | inl stay ↦ rw stay (elim (Bool-cases (same_child p c.place)) [
        | inl e ↦ rw e refl
        | inr ne ↦ rw ne (cancel_children-placed run clock cs last p attempts)
      ])
      | inr goes ↦ rw goes (elim (Bool-cases (same_child p c.place)) [
        | inl e ↦ rw e refl
        | inr ne ↦ rw ne (cancel_children-placed run clock cs (now clock last) p attempts)
      ])
    ]
