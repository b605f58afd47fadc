-- ===== src/Workflows/Nodes/Lost.antt =====
-- A worker that lost its child, or never had it, does not get it back.
use neemata.Common.{
  ℕ, suc, ◌<◌, ◌≡◌, refl, Bool, false, Option, none, some, [], arith, ◌==◌, if_intro, inl, inr, ltb,
}
use neemata.Workflows.Nodes.Table.{find}
use neemata.Workflows.Nodes.Ledger.{Ledger, Inv, is_held, on, take, settle, close, closes}
use neemata.Workflows.Nodes.Operations.{
  NodeOperation, create_one, set_input, select_case, end_one, wait, end_child_at, cancel_all,
  ensure_children, attempt, ensure_attempt, settle_current, elsewhere, perform, Allowed, at_place,
  take_first,
}
use neemata.Workflows.Nodes.Steps.{perform-Inv}
use neemata.Workflows.Nodes.{
  ChildKey, Graph, nodes_by_key, children_by_key, attempts_by_id, same_child,
}

abbrev pub empty_graph : Graph
empty_graph = record { nodes = []; children = []; attempts = []; next_id = 1; last_timestamp = 0 }

pub data Reach : Graph → Type 0 where
  start : Reach empty_graph
  step : {s : Graph} → Reach s → (op : NodeOperation) (clock : ℕ) → Reach (perform op clock s)

-- What happens after a state.
pub data Later (s : Graph) : Graph → Type 0 where
  at_once : Later s s
  after : {t : Graph} → Later s t → (op : NodeOperation) (clock : ℕ) → Later s (perform op clock t)

empty-Inv : Inv empty_graph
unfolding find
empty-Inv = record { placed = λ p. refl; fresh = λ id h. refl }

pub Graph-Reach-Inv : {s : Graph} → Reach s → Inv s
Graph-Reach-Inv start = empty-Inv
Graph-Reach-Inv (step r op clock) = perform-Inv op clock _ (Graph-Reach-Inv r)

-- Whether the worker of an attempt, known by its token, holds the child of an account.
abbrev pub has_child : Option Ledger → ℕ → ℕ → Bool
has_child none id token = false
has_child (some l) id token = is_held l.holder id token

settle-lost :
    (id token i t : ℕ) (closing : Bool) (o : Option Ledger)
    → has_child o id token ≡ false
    → has_child (on (settle i t closing) o) id token ≡ false
settle-lost id token i t closing none h = refl
settle-lost id token i t closing (some l) h =
    if_intro (λ x. is_held x.holder id token ≡ false) (is_held l.holder i t) _ l (λ _. refl)
      (λ _. h)

close-lost : (id token : ℕ) (o : Option Ledger) → has_child (on close o) id token ≡ false
close-lost id token none = refl
close-lost id token (some l) = refl

take-lost :
    (id token n t : ℕ) (l : Ledger)
    → id < n
    → is_held l.holder id token ≡ false
    → is_held (take n t l).holder id token ≡ false
take-lost id token n t l lt h =
    if_intro (λ x. is_held x.holder id token ≡ false) l.closed l _ (λ _. h) (λ _. ground arith)

take_first-lost :
    (id token n t : ℕ) (l : Ledger)
    → id < n
    → is_held l.holder id token ≡ false
    → is_held (take_first n t l).holder id token ≡ false
take_first-lost id token n t l lt h =
    if_intro (λ x. is_held x.holder id token ≡ false) (ltb 0 l.taken) l (take n t l) (λ _. h)
      (λ _. take-lost id token n t l lt h)

at_place-lost :
    (id token : ℕ) (place p : ChildKey) (f : Ledger → Ledger) (o : Option Ledger)
    → ((l : Ledger) → is_held l.holder id token ≡ false → is_held (f l).holder id token ≡ false)
    → has_child o id token ≡ false
    → has_child (at_place place p f o) id token ≡ false
at_place-lost id token place p f none k h = ground arith
at_place-lost id token place p f (some l) k h =
    if_intro (λ x. has_child x id token ≡ false) (same_child p place) (some (f l)) (some l)
      (λ _. k l h) (λ _. h)

-- No operation gives a child to a worker whose attempt is not new.
pub Allowed-lost :
    (op : NodeOperation) (n id token : ℕ) (p : ChildKey) (b a : Option Ledger)
    → Allowed op n p b a
    → id < n
    → has_child b id token ≡ false
    → has_child a id token ≡ false
Allowed-lost (create_one place kind) n id token p b a e lt h = rw e h
Allowed-lost (set_input place input) n id token p b a e lt h = rw e h
Allowed-lost (select_case place key) n id token p b a e lt h = rw e h
Allowed-lost (end_one x place) n id token p b a e lt h = rw e h
Allowed-lost (wait place) n id token p b a e lt h = rw e h
Allowed-lost (end_child_at x place) n id token p b a e lt h =
    rw e (at_place-lost id token place p close b (λ l k. refl) h)
Allowed-lost (cancel_all run) n id token p b a e lt h = rw e (
    if_intro (λ x. has_child x id token ≡ false) (p.run == run) (on close b) b
      (λ _. close-lost id token b) (λ _. h))
Allowed-lost (ensure_children place inputs) n id token p b a (inl e) lt h = rw e h
Allowed-lost (ensure_children place inputs) n id token p b a (inr e) lt h = rw (e.1) refl
Allowed-lost (attempt place input key) n id token p b a e lt h = rw e (
    at_place-lost id token place p (take n (suc n)) b (λ l k. take-lost id token n (suc n) l lt k)
      h)
Allowed-lost (ensure_attempt place input key) n id token p b a e lt h = rw e (
    at_place-lost id token place p (take_first n (suc n)) b
      (λ l k. take_first-lost id token n (suc n) l lt k) h)
Allowed-lost (settle_current v i t) n id token p b a e lt h =
    rw e (settle-lost id token i t (closes v) b h)
Allowed-lost (elsewhere ids) n id token p b a e lt h = rw e h
