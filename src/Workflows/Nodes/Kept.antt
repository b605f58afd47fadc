-- ===== src/Workflows/Nodes/Kept.antt =====
-- Setting one entry keeps the invariant of nodes, children and attempts.
use neemata.Common.{
  ℕ, ◌≡◌, refl, ap, sym, ◌∙◌, subst, true, false, Option, none, some, List, arith, ◌==◌, if_intro,
}
use neemata.Workflows.Nodes.Table.{find, put, find-put}
use neemata.Workflows.Nodes.Ledger.{is_placed, current_placed, has_place}
use neemata.Workflows.Nodes.{
  ChildKey, Child, Attempt, children_by_key, attempts_by_id, same_child, same_child_eq, same_id_eq,
}

-- Setting a child whose current attempt is one of its own.
pub put_child-placed :
    (c : Child) (cs : List Child) (attempts : List Attempt)
    → current_placed c.place c.current_attempt attempts ≡ true
    → ((p : ChildKey) → is_placed p (find p cs) attempts ≡ true)
    → (p : ChildKey) → is_placed p (find p (put c cs)) attempts ≡ true
put_child-placed c cs attempts own v p = rw (find-put p c cs) (
    if_intro (λ o. is_placed p o attempts ≡ true) (same_child p c.place) (some c) (find p cs)
      (λ e.
        subst (λ k. current_placed k c.current_attempt attempts ≡ true)
          (sym (same_child_eq p c.place e)) own)
      (λ _. v p))

-- Setting an attempt anew at its place.
current_placed-put :
    (p : ChildKey) (o : Option ℕ) (a b : Attempt) (attempts : List Attempt)
    → find b.id attempts ≡ some a
    → b.place ≡ a.place
    → current_placed p o (put b attempts) ≡ current_placed p o attempts
current_placed-put p none a b attempts at e = refl
current_placed-put p (some i) a b attempts at e = rw (find-put i b attempts) (
    if_intro (λ o. has_place p o ≡ has_place p (find i attempts)) (i == b.id) (some b)
      (find i attempts) (λ h. rw (same_id_eq i b.id h, at) (ap (same_child p) e)) (λ _. refl))

pub put_attempt-placed :
    (a b : Attempt) (attempts : List Attempt) (p : ChildKey) (o : Option Child)
    → find b.id attempts ≡ some a
    → b.place ≡ a.place
    → is_placed p o (put b attempts) ≡ is_placed p o attempts
put_attempt-placed a b attempts p none at e = refl
put_attempt-placed a b attempts p (some c) at e =
    current_placed-put p c.current_attempt a b attempts at e

-- Adding an attempt under a new id.
current_placed-add :
    (p : ChildKey) (o : Option ℕ) (b : Attempt) (attempts : List Attempt)
    → find b.id attempts ≡ none
    → current_placed p o attempts ≡ true
    → current_placed p o (put b attempts) ≡ true
current_placed-add p none b attempts at h = refl
current_placed-add p (some i) b attempts at h = rw (find-put i b attempts) (
    if_intro (λ o. has_place p o ≡ true) (i == b.id) (some b) (find i attempts)
      (λ e. absurd (
        ground (
          arith,
          sym (ap (has_place p) (ap (λ k. find k attempts) (same_id_eq i b.id e) ∙ at)) ∙ h,
        )))
      (λ _. h))

pub add_attempt-placed :
    (b : Attempt) (attempts : List Attempt) (p : ChildKey) (o : Option Child)
    → find b.id attempts ≡ none
    → is_placed p o attempts ≡ true
    → is_placed p o (put b attempts) ≡ true
add_attempt-placed b attempts p none at h = refl
add_attempt-placed b attempts p (some c) at h =
    current_placed-add p c.current_attempt b attempts at h

-- An id that is not an entry's is as new after setting it.
pub put_attempt-fresh :
    (b : Attempt) (attempts : List Attempt) (id : ℕ)
    → (id == b.id) ≡ false
    → find id attempts ≡ none
    → find id (put b attempts) ≡ none
put_attempt-fresh b attempts id ne h = find-put id b attempts ∙ rw ne h
