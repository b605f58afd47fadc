-- ===== src/Workflows/Transitions.antt =====
-- packages/workflows/src/runtime/transitions.ts and status.ts: the state machine of runs.
use neemata.Common.{ℕ, ◌≡◌, refl, Bool, true, false, not, ◌||◌, List, [], ◌∷◌, ◌==◌}

-- `RuntimeRunStatus`.
pub data RunStatus : Type 0 where
  queued running waiting cancelling completed failed cancelled : RunStatus

abbrev number_of : RunStatus → ℕ
number_of queued = 0
number_of running = 1
number_of waiting = 2
number_of cancelling = 3
number_of completed = 4
number_of failed = 5
number_of cancelled = 6

abbrev pub includes : List RunStatus → RunStatus → Bool
includes [] s = false
includes (x ∷ xs) s = number_of x == number_of s || includes xs s

-- `RUN_TRANSITIONS`.
abbrev pub run_transitions : RunStatus → List RunStatus
run_transitions queued = running ∷ cancelling ∷ cancelled ∷ failed ∷ completed ∷ []
run_transitions running = waiting ∷ cancelling ∷ cancelled ∷ failed ∷ completed ∷ []
run_transitions waiting = running ∷ cancelling ∷ cancelled ∷ failed ∷ completed ∷ []
run_transitions cancelling = cancelled ∷ failed ∷ completed ∷ []
run_transitions completed = []
run_transitions failed = []
run_transitions cancelled = []

abbrev pub can_transition : RunStatus → RunStatus → Bool
can_transition from to = includes (run_transitions from) to

abbrev keys : List RunStatus
keys = queued ∷ running ∷ waiting ∷ cancelling ∷ completed ∷ failed ∷ cancelled ∷ []

abbrev sources_in : List RunStatus → RunStatus → List RunStatus
sources_in [] to = []
sources_in (from ∷ rest) to = elim (can_transition from to) [
  | true ↦ from ∷ sources_in rest to
  | false ↦ sources_in rest to
]

-- `transitionSources`, the statuses that the queries of the other adapter ask for.
pub transition_sources : RunStatus → List RunStatus
transition_sources to = sources_in keys to

abbrev pub is_terminal : RunStatus → Bool
is_terminal completed = true
is_terminal failed = true
is_terminal cancelled = true
is_terminal other = false

pub every :
    (P : RunStatus → Type 0)
    → P queued
    → P running
    → P waiting
    → P cancelling
    → P completed
    → P failed
    → P cancelled
    → (s : RunStatus) → P s
every P a b c d e f g queued = a
every P a b c d e f g running = b
every P a b c d e f g waiting = c
every P a b c d e f g cancelling = d
every P a b c d e f g completed = e
every P a b c d e f g failed = f
every P a b c d e f g cancelled = g

abbrev AgreeAt : RunStatus → RunStatus → Type 0
unfolding transition_sources
AgreeAt to from = includes (transition_sources to) from ≡ can_transition from to

-- A status is among the sources of another exactly if the table allows the transition, and a status
-- is terminal exactly if the table allows none to `cancelled` from it.
pub sources-agree :
    (from to : RunStatus)
    → (includes (transition_sources to) from ≡ can_transition from to)
      × (not (is_terminal from) ≡ can_transition from cancelled)
unfolding transition_sources
sources-agree from to = (
  every (λ t. (f : RunStatus) → AgreeAt t f)
      (every (AgreeAt queued) refl refl refl refl refl refl refl)
      (every (AgreeAt running) refl refl refl refl refl refl refl)
      (every (AgreeAt waiting) refl refl refl refl refl refl refl)
      (every (AgreeAt cancelling) refl refl refl refl refl refl refl)
      (every (AgreeAt completed) refl refl refl refl refl refl refl)
      (every (AgreeAt failed) refl refl refl refl refl refl refl)
      (every (AgreeAt cancelled) refl refl refl refl refl refl refl) to from,
  every (λ f. not (is_terminal f) ≡ can_transition f cancelled) refl refl refl refl refl refl refl
      from,
)
