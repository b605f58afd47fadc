-- ===== src/Workflows/Nodes/Settled.antt =====
-- Settling an attempt keeps the invariant.
use neemata.Common.{
  ℕ, ◌≡◌, refl, ap, sym, ◌∙◌, subst, true, false, Option, none, some, arith, ◌==◌, Bool-cases, inl,
  inr,
}
use neemata.Workflows.Items.{now}
use neemata.Workflows.Nodes.Table.{find, find-key}
use neemata.Workflows.Nodes.Aggregate.{complete}
use neemata.Workflows.Nodes.Children.{ended_child}
use neemata.Workflows.Nodes.Attempts.{
  Verdict, completed, failed, timed_out, passes_fence, settled, child_settled, attempt_settled,
  settling_child, settling,
}
use neemata.Workflows.Nodes.Ledger.{is_placed, current_placed, Inv}
use neemata.Workflows.Nodes.Kept.{put_child-placed, put_attempt-placed, put_attempt-fresh}
use neemata.Workflows.Nodes.{Child, Attempt, Graph, children_by_key, attempts_by_id, same_id_eq}

attempt_settled-Inv :
    (v : Verdict) (clock : ℕ) (a : Attempt) (s : Graph)
    → find a.id s.attempts ≡ some a
    → Inv s
    → Inv (attempt_settled v clock a s)
attempt_settled-Inv v clock a s at i =
    let b : Attempt = settled v (now clock s.last_timestamp) a in
    record {
      placed = λ p. put_attempt-placed a b s.attempts p (find p s.children) at refl ∙ i.placed p;
      fresh = λ id h. put_attempt-fresh b s.attempts id (other id (i.fresh id h)) (i.fresh id h);
    }
  where
    other : (id : ℕ) → find id s.attempts ≡ none → (id == a.id) ≡ false
    other id h = elim (Bool-cases (id == a.id)) [
      | inl e ↦
          absurd (ground (arith, sym h ∙ ap (λ k. find k s.attempts) (same_id_eq id a.id e) ∙ at))
      | inr ne ↦ ne
    ]

child_settled-Inv :
    (v : Verdict) (clock : ℕ) (d : Child) (s : Graph)
    → current_placed d.place d.current_attempt s.attempts ≡ true
    → Inv s
    → Inv (child_settled v clock d s)
child_settled-Inv (completed output) clock d s own i = record {
  placed =
      put_child-placed (ended_child (complete output) (now clock s.last_timestamp) d) s.children
        s.attempts own i.placed;
  fresh = i.fresh;
}
child_settled-Inv (failed error) clock d s own i = i
child_settled-Inv (timed_out error) clock d s own i = i

settling_child-Inv :
    (v : Verdict) (token clock : ℕ) (a : Attempt) (o : Option Child) (s : Graph)
    → find a.id s.attempts ≡ some a
    → find a.place s.children ≡ o
    → Inv s
    → Inv (settling_child v token clock a o s).0
unfolding settling_child
settling_child-Inv v token clock a none s at here i = i
settling_child-Inv v token clock a (some d) s at here i =
    let t : Graph = attempt_settled v clock a s in
    let kept : Inv t = attempt_settled-Inv v clock a s at i in
    elim (Bool-cases (passes_fence token a (some d))) [
      | inr h ↦ rw h i
      | inl h ↦ rw h (
          child_settled-Inv v clock d t
            (subst (λ k. current_placed k d.current_attempt t.attempts ≡ true)
              (find-key a.place s.children here)
              (sym (ap (λ o. is_placed a.place o t.attempts) here) ∙ kept.placed a.place))
            kept)
    ]

pub settling-Inv :
    (v : Verdict) (id token clock : ℕ) (o : Option Attempt) (s : Graph)
    → find id s.attempts ≡ o
    → Inv s
    → Inv (settling v token clock o s).0
unfolding settling
settling-Inv v id token clock none s at i = i
settling-Inv v id token clock (some a) s at i =
    settling_child-Inv v token clock a (find a.place s.children) s
      (ap (λ k. find k s.attempts) (sym (find-key id s.attempts at)) ∙ at) refl i
