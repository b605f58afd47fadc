-- ===== src/Streaming/Pump/Tests.antt =====
-- Downloads at concrete histories.
use neemata.Common.{◌+◌, ◌≤◌, ◌≡◌, refl, ◌⊎◌, Bool, true, false, List, [], ◌∷◌, ◌++◌, length}
use neemata.Wire.Bytes.{Bytes}
use neemata.Streaming.Pump.{
  Frame, chunk, end, create, Event, readable, source_end, grants, run, step, pump, pump_loop,
  turn_from, spend, deliver, advance, grant, grant_open, fail, finish, read_source,
}
use neemata.Streaming.Pump.Frames.{bytes_sent, waiting, IsClosedOnce, OnlyErrors}
use neemata.Streaming.Pump.Steps.{produced, granted_in}
use neemata.Streaming.Pump.Runs.{run_safe, run_complete, run_live}

-- A transport that drops nothing.
abbrev reliable : List Frame → Bytes → Bool
reliable sent bytes = false

-- Three bytes against a credit of two, then the rest and the end.
abbrev opening : List Event
opening = readable (1 ∷ 2 ∷ 3 ∷ []) ∷ grants 2 ∷ []

abbrev whole : List Event
whole =
    readable (1 ∷ 2 ∷ 3 ∷ []) ∷ grants 2 ∷ readable (4 ∷ []) ∷ source_end ∷ grants 2 ∷ grants 1 ∷ []

opening_sent : (run reliable create opening).sent ≡ chunk (1 ∷ 2 ∷ []) ∷ []
unfolding run step pump pump_loop turn_from spend deliver advance grant grant_open fail finish
    read_source
opening_sent = refl

whole_sent :
    (run reliable create whole).sent
    ≡ chunk (1 ∷ 2 ∷ []) ∷ chunk (3 ∷ []) ∷ chunk (4 ∷ []) ∷ end ∷ []
unfolding run step pump pump_loop turn_from spend deliver advance grant grant_open fail finish
    read_source
whole_sent = refl

opening_unfinished : (run reliable create opening).finished ≡ false
unfolding run step pump pump_loop turn_from spend deliver advance grant grant_open fail finish
    read_source
opening_unfinished = refl

opening_granted : (run reliable create opening).granted ≡ true
unfolding run step pump pump_loop turn_from spend deliver advance grant grant_open fail finish
    read_source
opening_granted = refl

run_safe_example :
    let s = run reliable create whole in
    ((rest : Bytes) × (bytes_sent s.sent ++ rest ≡ produced whole))
    × (length (bytes_sent s.sent) + s.credits ≤ granted_in whole)
    × IsClosedOnce s.sent
    × ((s.granted ≡ true) ⊎ OnlyErrors s.sent)
run_safe_example = run_safe reliable whole

run_complete_example :
    bytes_sent (run reliable create opening).sent ++ waiting (run reliable create opening)
    ≡ produced opening
run_complete_example = run_complete reliable opening opening_unfinished

run_live_example :
    ((run reliable create opening).credits ≡ 0)
    ⊎ (bytes_sent (run reliable create opening).sent ≡ produced opening)
run_live_example = run_live reliable opening opening_unfinished opening_granted
