-- ===== src/Workflows/Nodes/Refinement.antt =====
-- The store keeps the accounts: each operation on an attempt is one on the account of its child.
use neemata.Common.{
  ℕ, ◌≡◌, refl, ap, sym, ◌∙◌, subst, Bool, true, false, ◌&&◌, Option, none, some, List, Bool-cases,
  inl, inr,
}
use neemata.Workflows.Items.{now}
use neemata.Workflows.Nodes.Table.{find, put, find-put, find-key}
use neemata.Workflows.Nodes.Aggregate.{complete}
use neemata.Workflows.Nodes.Children.{ended_child}
use neemata.Workflows.Nodes.Attempts.{
  Verdict, completed, failed, timed_out, passes_fence, settled, child_settled, attempt_settled,
  settling_child, settling,
}
use neemata.Workflows.Nodes.Ledger.{view, ledger, ledger_of, on, settle, closes, is_placed, Inv}
use neemata.Workflows.Nodes.Settling.{
  hold, held-fence, unheld, untouched, under-put, fence_held, released,
}
use neemata.Workflows.Nodes.{
  ChildKey, Child, Attempt, Graph, children_by_key, attempts_by_id, same_child, same_child_eq,
  same_child_refl,
}

-- The child of the settled attempt.
settled_here :
    (v : Verdict) (clock token : ℕ) (a : Attempt) (d : Child) (s : Graph)
    → find a.id s.attempts ≡ some a
    → d.place ≡ a.place
    → find a.place s.children ≡ some d
    → passes_fence token a (some d) ≡ true
    → view (child_settled v clock d (attempt_settled v clock a s)) a.place
      ≡ on (settle a.id token (closes v)) (some (ledger_of s.attempts d))
unfolding hold
settled_here (completed output) clock token a d s at e here h =
    rw
      (find-put a.place (ended_child (complete output) (now clock (now clock s.last_timestamp)) d)
        s.children)
      (rw (subst (λ k. same_child a.place k ≡ true) (sym e) (same_child_refl a.place))
        (rw (fence_held token a d.status d.current_attempt s.attempts at h) refl))
settled_here (failed error) clock token a d s at e here h =
    rw here (released (failed error) (now clock s.last_timestamp) token a d s.attempts at h)
settled_here (timed_out error) clock token a d s at e here h =
    rw here (released (timed_out error) (now clock s.last_timestamp) token a d s.attempts at h)

ledger-put :
    (p : ChildKey) (o : Option Child) (a b : Attempt) (attempts : List Attempt)
    → find b.id attempts ≡ some a
    → same_child p a.place ≡ false
    → is_placed p o attempts ≡ true
    → ledger (put b attempts) o ≡ ledger attempts o
ledger-put p none a b attempts at ne ok = refl
ledger-put p (some c) a b attempts at ne ok =
    rw (under-put p b.id c.current_attempt a b attempts at refl ne ok) refl

-- The other children do not see it.
settled_elsewhere :
    (v : Verdict) (clock : ℕ) (a : Attempt) (d : Child) (s : Graph) (p : ChildKey)
    → find a.id s.attempts ≡ some a
    → d.place ≡ a.place
    → same_child p a.place ≡ false
    → Inv s
    → view (child_settled v clock d (attempt_settled v clock a s)) p ≡ view s p
settled_elsewhere (completed output) clock a d s p at e ne ok =
    rw
      (find-put p (ended_child (complete output) (now clock (now clock s.last_timestamp)) d)
        s.children)
      (rw (subst (λ k. same_child p k ≡ false) (sym e) ne) (
        ledger-put p (find p s.children) a
          (settled (completed output) (now clock s.last_timestamp) a) s.attempts at ne
          (ok.placed p)))
settled_elsewhere (failed error) clock a d s p at e ne ok =
    ledger-put p (find p s.children) a (settled (failed error) (now clock s.last_timestamp) a)
      s.attempts at ne (ok.placed p)
settled_elsewhere (timed_out error) clock a d s p at e ne ok =
    ledger-put p (find p s.children) a (settled (timed_out error) (now clock s.last_timestamp) a)
      s.attempts at ne (ok.placed p)

-- An attempt that does not pass the fence with a child there holds none.
stopped :
    (id token : ℕ) (closing : Bool) (a : Attempt) (s : Graph) (p : ChildKey)
    → find id s.attempts ≡ some a
    → Inv s
    → ((c : Child)
        → find p s.children ≡ some c
        → (same_child p a.place && passes_fence token a (some c)) ≡ false)
    → view s p ≡ on (settle id token closing) (view s p)
unfolding hold
stopped id token closing a s p at ok blocked =
    untouched id token closing s.attempts (find p s.children) (λ c e.
      held-fence id token p c.status c.current_attempt a s.attempts at
        (sym (ap (λ x. is_placed p x s.attempts) e) ∙ ok.placed p)
      ∙ blocked c e)

blocked_child :
    (token : ℕ) (a : Attempt) (o : Option Child) (s : Graph) (p : ChildKey)
    → find a.place s.children ≡ o
    → passes_fence token a o ≡ false
    → (c : Child) → find p s.children ≡ some c
    → (same_child p a.place && passes_fence token a (some c)) ≡ false
blocked_child token a o s p here h c e = elim (Bool-cases (same_child p a.place)) [
  | inl same ↦
      let there : o ≡ some c =
        sym here ∙ ap (λ k. find k s.children) (sym (same_child_eq p a.place same)) ∙ e in
      rw same (subst (λ x. passes_fence token a x ≡ false) there h)
  | inr ne ↦ rw ne refl
]

settled_at :
    (v : Verdict) (id clock token : ℕ) (a : Attempt) (o : Option Child) (s : Graph) (p : ChildKey)
    → find id s.attempts ≡ some a
    → find a.place s.children ≡ o
    → Inv s
    → view (settling_child v token clock a o s).0 p ≡ on (settle id token (closes v)) (view s p)
unfolding settling_child
settled_at v id clock token a none s p at here ok =
    stopped id token (closes v) a s p at ok (blocked_child token a none s p here refl)
settled_at v id clock token a (some d) s p at here ok =
    let e : d.place ≡ a.place = sym (find-key a.place s.children here) in
    let same_id : id ≡ a.id = find-key id s.attempts at in
    let own : find a.id s.attempts ≡ some a = ap (λ k. find k s.attempts) (sym same_id) ∙ at in
    elim (Bool-cases (passes_fence token a (some d))) [
      | inr h ↦
          rw h (stopped id token (closes v) a s p at ok (blocked_child token a (some d) s p here h))
      | inl h ↦ rw h (elim (Bool-cases (same_child p a.place)) [
        | inl same ↦
            rw (same_child_eq p a.place same, here, same_id)
              (settled_here v clock token a d s own e here h)
        | inr ne ↦
            settled_elsewhere v clock a d s p own e ne ok
            ∙ stopped id token (closes v) a s p at ok (λ c e'. rw ne refl)
      ])
    ]

pub settling-view :
    (v : Verdict) (id token clock : ℕ) (o : Option Attempt) (s : Graph) (p : ChildKey)
    → find id s.attempts ≡ o
    → Inv s
    → view (settling v token clock o s).0 p ≡ on (settle id token (closes v)) (view s p)
unfolding settling hold
settling-view v id token clock none s p at ok =
    untouched id token (closes v) s.attempts (find p s.children)
      (λ c e. unheld id token c.status c.current_attempt s.attempts at)
settling-view v id token clock (some a) s p at ok =
    settled_at v id clock token a (find a.place s.children) s p at refl ok
