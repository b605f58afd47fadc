-- ===== src/Calls/Tests.antt =====
-- The calls of two connections.
use neemata.Common.{occurrences, ◌+◌, ◌≡◌, ◌&&◌, not, none, some, [], ◌∷◌, ◌==◌, if◌then◌else◌}
use neemata.Calls.{
  Calls, set_call, get_call, delete_call, abort_call, close_calls, refuses, controls,
  operations-find_call, close_calls-aborts,
}

-- Call 7 of connection 1, and call 7 of connection 2.
abbrev open_calls : Calls
open_calls = record {
  rpcs =
      record { connection = 1; call = 7; controller = 50 }
      ∷ record { connection = 2; call = 7; controller = 51 }
      ∷ [];
  aborted = [];
}

operations-find_call_example :
    (get_call 1 7 (set_call 1 7 60 open_calls)
      ≡ (if 1 == 1 && 7 == 7 then some 60 else get_call 1 7 open_calls))
    × (get_call 1 7 (delete_call 1 7 (some 49) open_calls) ≡ (
        if 1 == 1 && 7 == 7 && not (refuses (some 49) (get_call 1 7 open_calls))
        then none
        else get_call 1 7 open_calls))
    × (get_call 1 7 (abort_call 1 7 open_calls) ≡ get_call 1 7 open_calls)
    × (get_call 1 7 (close_calls 1 open_calls) ≡ (if 1 == 1 then none else get_call 1 7 open_calls))
operations-find_call_example = operations-find_call 1 7 1 7 60 (some 49) open_calls

close_calls-aborts_example :
    occurrences 50 (close_calls 1 open_calls).aborted
    ≡ controls 1 50 open_calls.rpcs + occurrences 50 open_calls.aborted
close_calls-aborts_example = close_calls-aborts 1 50 open_calls
