-- ===== src/Workflows/Nodes/Status.antt =====
-- packages/workflows/src/runtime/transitions.ts and status.ts: the state machines of nodes, of
-- their children and of attempts.
use neemata.Common.{ℕ, Bool, true, false, ◌||◌, List, [], ◌∷◌, ◌==◌}

-- `RuntimeNodeStatus`.
pub data NodeStatus : Type 0 where
  pending running waiting cancelling completed failed cancelled : NodeStatus

-- `RuntimeAttemptStatus`.
pub data AttemptStatus : Type 0 where
  started completed failed timed_out cancelled : AttemptStatus

abbrev number_of : NodeStatus → ℕ
number_of pending = 0
number_of running = 1
number_of waiting = 2
number_of cancelling = 3
number_of completed = 4
number_of failed = 5
number_of cancelled = 6

abbrev includes : List NodeStatus → NodeStatus → Bool
includes [] s = false
includes (x ∷ xs) s = number_of x == number_of s || includes xs s

-- `NODE_TRANSITIONS`.
abbrev pub node_transitions : NodeStatus → List NodeStatus
node_transitions pending = running ∷ waiting ∷ cancelling ∷ cancelled ∷ failed ∷ completed ∷ []
node_transitions running = waiting ∷ cancelling ∷ cancelled ∷ failed ∷ completed ∷ []
node_transitions waiting = running ∷ cancelling ∷ cancelled ∷ failed ∷ completed ∷ []
node_transitions cancelling = cancelled ∷ failed ∷ completed ∷ []
node_transitions completed = []
node_transitions failed = []
node_transitions cancelled = []

-- `canTransition(NODE_TRANSITIONS, from, to)`.
abbrev pub node_can_transition : NodeStatus → NodeStatus → Bool
node_can_transition from to = includes (node_transitions from) to

-- `isTerminalNodeStatus`.
abbrev pub is_terminal_node : NodeStatus → Bool
is_terminal_node completed = true
is_terminal_node failed = true
is_terminal_node cancelled = true
is_terminal_node other = false

abbrev pub is_waiting : NodeStatus → Bool
is_waiting waiting = true
is_waiting other = false

abbrev pub is_running : NodeStatus → Bool
is_running running = true
is_running other = false

abbrev pub is_started : AttemptStatus → Bool
is_started started = true
is_started other = false
