-- ===== src/Workflows/Runs/Tests.antt =====
-- The runs of the store at a concrete history.
use neemata.Common.{ℕ, ◌≡◌, refl, ◌⊎◌, true, false, none, some}
use neemata.Workflows.Transitions.{is_terminal, running}
use neemata.Workflows.Runs.{
  active_scope, Run, CreateRunInput, Store, create_run, check_idempotency, check_unique,
  on_conflict, insert_run, operate, operating, update_run, mark_running, complete,
}
use neemata.Workflows.Runs.Unique.{after, is_live_with}
use neemata.Workflows.Runs.Steps.{Reach, here, next, creates, operates, empty_store, one_active_run}
use neemata.Workflows.Runs.Moves.{Follows, operate-moves}

abbrev nightly : CreateRunInput
nightly = record {
  shape = 5;
  root = none;
  idempotency_key = none;
  unique = some (record { scope = active_scope; key = 77; joins = false });
}

-- The second run of the same key is refused, and the first one marked running.
abbrev busy : Store
busy = operate mark_running 1 30 (
    after (after empty_store (create_run 10 nightly empty_store))
      (create_run 20 nightly (after empty_store (create_run 10 nightly empty_store))))

busy_reached : Reach empty_store busy
busy_reached =
    next (next (next here (creates 10 nightly)) (creates 20 nightly)) (operates mark_running 1 30)

abbrev nightly_run : Run
nightly_run = record {
  id = 1;
  status = running;
  shape = 5;
  root = 1;
  unique = some (record { scope = active_scope; key = 77; joins = false });
  output = none;
  error = none;
  version = 2;
  updated_at = 30;
}

busy_run : busy.runs 1 ≡ some nightly_run
unfolding create_run check_idempotency check_unique on_conflict insert_run operate operating
    update_run
busy_run = refl

busy_live : is_live_with 77 (busy.runs 1) ≡ true
unfolding create_run check_idempotency check_unique on_conflict insert_run operate operating
    update_run
busy_live = refl

abbrev the_run : ℕ
the_run = 1

one_active_run_example : the_run ≡ the_run
one_active_run_example = one_active_run busy 1 1 77 busy_reached busy_live busy_live

operate-moves_example :
    Follows (complete 8) 1 1 busy nightly_run ((operate (complete 8) 1 40 busy).runs 1)
    × ((is_terminal running ≡ false) ⊎ ((operate (complete 8) 1 40 busy).runs 1 ≡ some nightly_run))
operate-moves_example = operate-moves (complete 8) 1 40 busy 1 nightly_run busy_run
