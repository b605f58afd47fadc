-- ===== src/Workflows/Nodes/Settling.antt =====
-- What settling an attempt does to the account of every child.
use neemata.Common.{
  ℕ, ◌≡◌, refl, ap, sym, ◌∙◌, true, false, not, ◌&&◌, Option, none, some, List, arith, ◌==◌,
  if◌then◌else◌, Bool-cases, inl, inr, Bool,
}
use neemata.Workflows.Nodes.Status.{NodeStatus, is_terminal_node, is_started}
use neemata.Workflows.Nodes.Table.{find, find-key, put, find-put}
use neemata.Workflows.Nodes.Attempts.{
  is_current, under, Verdict, completed, failed, timed_out, passes_fence, settled,
}
use neemata.Workflows.Nodes.Ledger.{
  Holder, holding, is_held, current_placed, has_place, ledger, ledger_of, on, settle,
}
use neemata.Workflows.Nodes.{
  ChildKey, Attempt, children_by_key, attempts_by_id, same_child, same_id_eq, Child,
  same_child_refl,
}

unfoldable pub hold : NodeStatus → Option Attempt → Option Holder
hold status o = if is_terminal_node status then none else holding o

-- The account's test on the holder, for a child whose current attempt is found, or is not.
held_found :
    (id token : ℕ) (p : ChildKey) (status : NodeStatus) (a : Attempt)
    → id ≡ a.id
    → same_child p a.place ≡ true
    → is_held (hold status (some a)) id token ≡ (
        same_child p a.place
        && (a.lease_token == token
            && is_started a.status
            && not (is_terminal_node status)
            && id == a.id))
unfolding hold
held_found id token p status a e ok = ground arith

unheld_other :
    (id token : ℕ) (status : NodeStatus) (o : Option Attempt) (i : ℕ) (attempts : List Attempt)
    → find i attempts ≡ o
    → (i == id) ≡ false
    → is_held (hold status o) id token ≡ false
unfolding hold
unheld_other id token status none i attempts at ne = ground arith
unheld_other id token status (some b) i attempts at ne = ground (arith, find-key i attempts at)

-- The holder of a child is the attempt that passes the fence and has the child's place.
pub held-fence :
    (id token : ℕ) (p : ChildKey) (status : NodeStatus) (current : Option ℕ) (a : Attempt)
    (attempts : List Attempt)
    → find id attempts ≡ some a
    → current_placed p current attempts ≡ true
    → is_held (hold status (under current attempts)) id token ≡ (
        same_child p a.place
        && (a.lease_token == token
            && is_started a.status
            && not (is_terminal_node status)
            && is_current current a.id))
unfolding hold
held-fence id token p status none a attempts at ok = ground arith
held-fence id token p status (some i) a attempts at ok = elim (Bool-cases (i == id)) [
  | inl e ↦
      let here : find i attempts ≡ some a = ap (λ k. find k attempts) (same_id_eq i id e) ∙ at in
      rw here (
        rw (same_id_eq i id e) (
          held_found id token p status a (find-key id attempts at)
            (sym (ap (has_place p) here) ∙ ok)))
  | inr ne ↦
      unheld_other id token status (find i attempts) i attempts refl ne
      ∙ ground (arith, ne, find-key id attempts at)
]

pub unheld :
    (id token : ℕ) (status : NodeStatus) (current : Option ℕ) (attempts : List Attempt)
    → find id attempts ≡ none
    → is_held (hold status (under current attempts)) id token ≡ false
unfolding hold
unheld id token status none attempts at = ground arith
unheld id token status (some i) attempts at = elim (Bool-cases (i == id)) [
  | inl e ↦ rw (same_id_eq i id e) (rw at (ground arith))
  | inr ne ↦ unheld_other id token status (find i attempts) i attempts refl ne
]

-- An account that the attempt does not hold is left alone.
pub untouched :
    (id token : ℕ) (closing : Bool) (attempts : List Attempt) (o : Option Child)
    → ((c : Child) → o ≡ some c → is_held (ledger_of attempts c).holder id token ≡ false)
    → ledger attempts o ≡ on (settle id token closing) (ledger attempts o)
untouched id token closing attempts none h = refl
untouched id token closing attempts (some c) h = rw (h c refl) refl

-- Another child's current attempt is not the one that is set.
pub under-put :
    (p : ChildKey) (id : ℕ) (current : Option ℕ) (a b : Attempt) (attempts : List Attempt)
    → find id attempts ≡ some a
    → b.id ≡ id
    → same_child p a.place ≡ false
    → current_placed p current attempts ≡ true
    → under current (put b attempts) ≡ under current attempts
under-put p id none a b attempts at e ne ok = refl
under-put p id (some i) a b attempts at e ne ok = elim (Bool-cases (i == b.id)) [
  | inl h ↦
      let there : find i attempts ≡ some a =
        ap (λ k. find k attempts) (same_id_eq i b.id h ∙ e) ∙ at in
      absurd (ground (arith, ne, sym (ap (has_place p) there) ∙ ok))
  | inr h ↦ find-put i b attempts ∙ rw h refl
]

-- Whoever passes the fence holds the child.
pub fence_held :
    (token : ℕ) (a : Attempt) (status : NodeStatus) (current : Option ℕ) (attempts : List Attempt)
    → find a.id attempts ≡ some a
    → (a.lease_token == token
        && is_started a.status
        && not (is_terminal_node status)
        && is_current current a.id)
      ≡ true
    → is_held (hold status (under current attempts)) a.id token ≡ true
fence_held token a status current attempts at h =
    held-fence a.id token a.place status current a attempts at (placed current (ground (arith, h)))
    ∙ rw (same_child_refl a.place, h) refl
  where
    placed : (o : Option ℕ) → is_current o a.id ≡ true → current_placed a.place o attempts ≡ true
    placed none e = refl
    placed (some i) e = rw (same_id_eq i a.id e) (rw at (same_child_refl a.place))

-- A settled attempt is not running.
pub settled_unheld :
    (v : Verdict) (date : ℕ) (a : Attempt) (status : NodeStatus) (current : Option ℕ)
    (attempts : List Attempt)
    → is_current current a.id ≡ true
    → hold status (under current (put (settled v date a) attempts)) ≡ none
unfolding hold
settled_unheld v date a status none attempts h = absurd (ground (arith, h))
settled_unheld v date a status (some i) attempts h =
    rw (find-put i (settled v date a) attempts) (rw h (gone v))
  where
    gone : (v : Verdict) → hold status (some (settled v date a)) ≡ none
    gone (completed output) = ground arith
    gone (failed error) = ground arith
    gone (timed_out error) = ground arith

-- An attempt that only settles lets its child go.
pub released :
    (v : Verdict) (date token : ℕ) (a : Attempt) (d : Child) (attempts : List Attempt)
    → find a.id attempts ≡ some a
    → passes_fence token a (some d) ≡ true
    → some (ledger_of (put (settled v date a) attempts) d)
      ≡ some (settle a.id token false (ledger_of attempts d))
unfolding hold
released v date token a d attempts at h =
    let live : is_terminal_node d.status ≡ false = ground (arith, h) in
    rw (fence_held token a d.status d.current_attempt attempts at h) (
      rw (settled_unheld v date a d.status d.current_attempt attempts (ground (arith, h)))
        (rw live refl))
