-- ===== src/Workflows/Nodes/Ledger.antt =====
-- What the store of packages/workflows/src/runtime/in-memory.ts promises to a worker: for each
-- child an account of how many attempts were taken, of who holds the running one, and of whether
-- the child is closed. The status, the dates and the values are forgotten.
use neemata.Common.{
  ℕ, suc, ◌≤◌, ◌≡◌, Bool, true, false, ◌&&◌, Option, none, some, List, ◌==◌, if◌then◌else◌,
}
use neemata.Workflows.Nodes.Status.{is_terminal_node, is_started}
use neemata.Workflows.Nodes.Table.{find}
use neemata.Workflows.Nodes.Attempts.{Verdict, completed, under}
use neemata.Workflows.Nodes.{
  ChildKey, Child, Attempt, Graph, children_by_key, attempts_by_id, same_child,
}

-- A worker is known by its attempt and by the token that it got with it.
pub record Holder : Type 0 where
  pub attempt : ℕ
  pub token : ℕ

pub record Ledger : Type 0 where
  pub taken : ℕ
  pub holder : Option Holder
  pub closed : Bool

-- A new attempt takes the child over from whoever held it.
abbrev pub take : ℕ → ℕ → Ledger → Ledger
take id token l = if l.closed then l else record {
  taken = suc l.taken;
  holder = some (record { attempt = id; token = token });
  closed = false;
}

abbrev pub is_held : Option Holder → ℕ → ℕ → Bool
is_held none id token = false
is_held (some h) id token = h.attempt == id && h.token == token

-- Only the holder settles, and is no longer the holder; to complete closes the child.
abbrev pub settle : ℕ → ℕ → Bool → Ledger → Ledger
settle id token closes l =
    if is_held l.holder id token then record l { holder = none; closed = closes } else l

abbrev pub close : Ledger → Ledger
close l = record l { holder = none; closed = true }

abbrev pub closes : Verdict → Bool
closes (completed output) = true
closes other = false

abbrev pub holding : Option Attempt → Option Holder
holding none = none
holding (some a) =
    if is_started a.status then some (record { attempt = a.id; token = a.lease_token }) else none

abbrev pub ledger_of : List Attempt → Child → Ledger
ledger_of attempts child = record {
  taken = child.attempt_count;
  holder =
      if is_terminal_node child.status
      then none
      else holding (under child.current_attempt attempts);
  closed = is_terminal_node child.status;
}

abbrev pub on : (Ledger → Ledger) → Option Ledger → Option Ledger
on f none = none
on f (some l) = some (f l)

abbrev pub ledger : List Attempt → Option Child → Option Ledger
ledger attempts none = none
ledger attempts (some child) = some (ledger_of attempts child)

-- The abstract view of a state, for each place of a child.
abbrev pub view : Graph → ChildKey → Option Ledger
view s place = ledger s.attempts (find place s.children)

-- A child's current attempt is an attempt of this child.
abbrev pub has_place : ChildKey → Option Attempt → Bool
has_place place none = false
has_place place (some a) = same_child place a.place

abbrev pub current_placed : ChildKey → Option ℕ → List Attempt → Bool
current_placed place none attempts = true
current_placed place (some id) attempts = has_place place (find id attempts)

abbrev pub is_placed : ChildKey → Option Child → List Attempt → Bool
is_placed place none attempts = true
is_placed place (some child) attempts = current_placed place child.current_attempt attempts

-- Every current attempt is one of its child, and an id is new while the counter has not passed it.
pub record Inv (s : Graph) : Type 0 where
  pub placed : (place : ChildKey) → is_placed place (find place s.children) s.attempts ≡ true
  pub fresh : (id : ℕ) → s.next_id ≤ id → find id s.attempts ≡ none
