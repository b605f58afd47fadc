-- ===== src/Workflows/Nodes.antt =====
-- packages/workflows/src/runtime/in-memory.ts and state.ts: the nodes of the store, their children
-- and the attempts. Ids, names, keys and values are numbers, a value its canonical JSON and an
-- error what `toStoredError` makes of it. A key `run:node` or `run:node:child` is the record of its
-- parts, which it spells so long as names hold no colon.
pub mod Status
pub mod Table
pub mod Aggregate
pub mod Children
pub mod Attempts
pub mod Ledger
pub mod Settling
pub mod Refinement
pub mod Operations
pub mod Kept
pub mod Attempting
pub mod Ensuring
pub mod Opening
pub mod Ends
pub mod Settled
pub mod Steps
pub mod Lost
pub mod Fencing
mod Tests
use neemata.Common.{ℕ, ◌≡◌, Bool, true, ◌&&◌, Option, List, arith, ◌==◌}
use neemata.Workflows.Nodes.Status.{NodeStatus, AttemptStatus}
use neemata.Workflows.Nodes.Table.{Keyed}

pub record NodeKey : Type 0 where
  pub run : ℕ
  pub name : ℕ

pub record ChildKey : Type 0 where
  pub run : ℕ
  pub node : ℕ
  pub key : ℕ

-- `StoredNode`.
pub record Node : Type 0 where
  pub place : NodeKey
  pub kind : ℕ
  pub status : NodeStatus
  pub input : Option ℕ
  pub output : Option ℕ
  pub error : Option ℕ
  pub selected_case : Option ℕ
  pub version : ℕ
  pub created_at : ℕ
  pub updated_at : ℕ

-- `StoredNodeChild`, less its `input`, which no operation writes.
pub record Child : Type 0 where
  pub place : ChildKey
  pub kind : ℕ
  pub status : NodeStatus
  pub ordinal : ℕ
  pub item_key : Option ℕ
  pub item : Option ℕ
  pub output : Option ℕ
  pub error : Option ℕ
  pub child_run : Option ℕ
  pub current_attempt : Option ℕ
  pub attempt_count : ℕ
  pub version : ℕ
  pub created_at : ℕ
  pub updated_at : ℕ

-- `StoredAttempt`, less the worker and the heartbeat, which no operation writes.
pub record Attempt : Type 0 where
  pub id : ℕ
  pub place : ChildKey
  pub status : AttemptStatus
  pub lease_token : ℕ
  pub attempt_number : ℕ
  pub input : ℕ
  pub idempotency_key : Option ℕ
  pub output : Option ℕ
  pub error : Option ℕ
  pub dispatched_at : ℕ
  pub completed_at : Option ℕ

-- The maps of `createInMemoryWorkflowRuntime` for these, with its counters.
pub record Graph : Type 0 where
  pub nodes : List Node
  pub children : List Child
  pub attempts : List Attempt
  pub next_id : ℕ
  pub last_timestamp : ℕ

pub data NodeError : Type 0 where
  missing_node missing_child terminal_child missing_attempt : NodeError
  conflicting_case conflicting_children : NodeError

abbrev pub same_node : NodeKey → NodeKey → Bool
same_node a b = a.run == b.run && a.name == b.name

abbrev pub same_child : ChildKey → ChildKey → Bool
same_child a b = a.run == b.run && (a.node == b.node && a.key == b.key)

pub same_node_refl : (a : NodeKey) → same_node a a ≡ true
same_node_refl a = ground arith

pub same_child_refl : (a : ChildKey) → same_child a a ≡ true
same_child_refl a = ground arith

pub same_id_refl : (a : ℕ) → (a == a) ≡ true
same_id_refl a = ground arith

pub same_id_eq : (a b : ℕ) → (a == b) ≡ true → a ≡ b
same_id_eq a b h = ground arith

pub same_node_eq : (a b : NodeKey) → same_node a b ≡ true → a ≡ b
same_node_eq a b h = ground arith

pub same_child_eq : (a b : ChildKey) → same_child a b ≡ true → a ≡ b
same_child_eq a b h = ground arith

instance abbrev pub nodes_by_key : Keyed Node
nodes_by_key = record {
  Key = NodeKey;
  same = same_node;
  key_of = λ n. n.place;
  same_refl = same_node_refl;
  same_eq = same_node_eq;
}

instance abbrev pub children_by_key : Keyed Child
children_by_key = record {
  Key = ChildKey;
  same = same_child;
  key_of = λ c. c.place;
  same_refl = same_child_refl;
  same_eq = same_child_eq;
}

instance abbrev pub attempts_by_id : Keyed Attempt
attempts_by_id = record {
  Key = ℕ;
  same = ◌==◌;
  key_of = λ a. a.id;
  same_refl = same_id_refl;
  same_eq = same_id_eq;
}
