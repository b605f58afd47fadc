-- ===== src/Workflows/Schedules/Tests.antt =====
-- A schedule that runs every 100 milliseconds.
use neemata.Common.{ℕ, ◌+◌, ◌≡◌, refl, true, false, none, some, [], ◌∷◌, arith}
use neemata.Workflows.Schedules.{every, Definition, Life, reconciles, fires, fires_at, occur}
use neemata.Workflows.Schedules.Grid.{is_descending}
use neemata.Workflows.Schedules.Kept.{is_ahead}
use neemata.Workflows.Schedules.Slots.{Reach, start, next, slots_ascend}

-- A cron parser that knows only the expression for every millisecond.
abbrev each_millisecond : ℕ → ℕ → ℕ
each_millisecond expression date = date + 1

abbrev hundred : Definition
hundred = record { cadence = every 100; immediately = false; enabled = true }

abbrev nothing_yet : Life
nothing_yet = record { schedule = none; fired = []; last_timestamp = 0 }

-- Reconciled at 1000, fired at 1100, and late at 1350, when two slots were missed.
abbrev fired_twice : Life
fired_twice = occur each_millisecond (fires 1350 1350) (
    occur each_millisecond (fires_at 1100 1105)
      (occur each_millisecond (reconciles (some hundred) 1000) nothing_yet))

twice_reached : Reach each_millisecond (λ e d. omega arith) fired_twice
twice_reached =
    next (next (next start (reconciles (some hundred) 1000) refl) (fires_at 1100 1105) refl)
      (fires 1350 1350) refl

slots_fired : fired_twice.fired ≡ 1200 ∷ 1100 ∷ []
unfolding occur
slots_fired = refl

slots_ascend_example :
    (is_descending fired_twice.fired ≡ true)
    × (is_ahead each_millisecond (λ e d. omega arith) fired_twice.schedule fired_twice.fired ≡ true)
slots_ascend_example = slots_ascend each_millisecond (λ e d. omega arith) twice_reached
