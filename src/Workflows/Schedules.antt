-- ===== src/Workflows/Schedules.antt =====
-- packages/workflows/src/runtime/scheduler.ts and in-memory.ts: the life of one schedule. `reconcile`,
-- `fireDue` and `setEnabled` treat the schedules one by one; that a due schedule may wait, as only
-- so many are fired at once, is that it is not fired. Each operation is taken whole, and the runs of
-- a slot are started without an error; they are left out, as are the id, the name, the runnable, its
-- input and its tags. Times are milliseconds.
pub mod Grid
pub mod Kept
pub mod Slots
mod Tests
use neemata.Common.{
  ℕ, zero, suc, ◌+◌, ◌-◌, ◌*◌, ◌/◌, Bool, true, false, not, ◌&&◌, ◌||◌, Option, none, some, List,
  [], ◌∷◌, leb, ◌==◌, if◌then◌else◌,
}
use neemata.Workflows.Items.{now}

-- A cron expression, by its number, or a distance; exactly one of the two is given.
pub data Cadence : Type 0 where
  cron : (expression : ℕ) → Cadence
  every : (ms : ℕ) → Cadence

-- `StoredWorkflowSchedule`.
pub record Schedule : Type 0 where
  pub cadence : Cadence
  pub enabled : Bool
  pub next_run_at : ℕ
  pub last_slot_at : Option ℕ
  pub created_at : ℕ
  pub updated_at : ℕ

-- `ScheduleDefinition`.
pub record Definition : Type 0 where
  pub cadence : Cadence
  pub immediately : Bool
  pub enabled : Bool

-- A schedule, if it is stored, with the slots that were fired, newest first.
pub record Life : Type 0 where
  pub schedule : Option Schedule
  pub fired : List ℕ
  pub last_timestamp : ℕ

abbrev pub same_cadence : Cadence → Cadence → Bool
same_cadence (cron a) (cron b) = a == b
same_cadence (every a) (every b) = a == b
same_cadence a b = false

-- A distance has to be positive.
abbrev pub has_period : Cadence → Bool
has_period (cron expression) = true
has_period (every zero) = false
has_period (every (suc n)) = true

abbrev pub is_slot_due : Schedule → ℕ → Bool
is_slot_due s date = s.enabled && leb s.next_run_at date

-- The next slot of a distance; none is the error that it is not positive.
abbrev pub after_missed : ℕ → ℕ → ℕ → Option ℕ
after_missed zero date base = none
after_missed (suc n) date base =
    let missed = (date - base) / suc n in some (base + (missed + 1) * suc n)

-- `next_cron` is the cron parser's.
module _ (next_cron : ℕ → ℕ → ℕ) where
  -- `nextScheduleRunAt`; none is its error.
  unfoldable pub next_schedule_run_at : Cadence → ℕ → ℕ → Option ℕ
  next_schedule_run_at (cron expression) date base = some (next_cron expression date)
  next_schedule_run_at (every ms) date base = after_missed ms date base

  -- `normalizeScheduleDefinition`, as far as the next slot; `has_period` is `normalizeScheduleCadence`.
  abbrev pub first_run_at : Definition → ℕ → Option ℕ
  unfolding next_schedule_run_at
  first_run_at d date =
      if has_period d.cadence
      then if d.immediately then some date else next_schedule_run_at d.cadence date date
      else none

  abbrev pub resets : Schedule → Definition → ℕ → Bool
  resets s d date =
      not (same_cadence s.cadence d.cadence)
      || (not s.enabled && (d.enabled && leb s.next_run_at date))

  abbrev pub reconciled : Option Schedule → Definition → ℕ → ℕ → Schedule
  reconciled none d first date = record {
    cadence = d.cadence;
    enabled = d.enabled;
    next_run_at = first;
    last_slot_at = none;
    created_at = date;
    updated_at = date;
  }
  reconciled (some s) d first date = record {
    cadence = d.cadence;
    enabled = d.enabled;
    next_run_at = if resets s d date then first else s.next_run_at;
    last_slot_at = s.last_slot_at;
    created_at = s.created_at;
    updated_at = date;
  }

  abbrev pub put_schedule : ℕ → Schedule → Life → Life
  put_schedule date s l = record l { schedule = some s; last_timestamp = date }

  abbrev pub reconciling : Definition → Option ℕ → ℕ → Life → Life
  reconciling d none date l = record l { last_timestamp = date }
  reconciling d (some first) date l = put_schedule date (reconciled l.schedule d first date) l

  -- One entry of `reconcile`, and none: the schedule goes with its definition.
  abbrev pub reconcile : Option Definition → ℕ → Life → Life
  unfolding first_run_at
  reconcile none clock l = record l { schedule = none; last_timestamp = now clock l.last_timestamp }
  reconcile (some d) clock l =
      let date = now clock l.last_timestamp in reconciling d (first_run_at d date) date l

  abbrev pub fired_schedule : ℕ → ℕ → Schedule → Schedule
  fired_schedule next date s = record s {
    last_slot_at = some s.next_run_at;
    next_run_at = next;
    updated_at = date;
  }

  -- The runs of the slot are started, and the schedule gets its next slot.
  abbrev pub firing : Option ℕ → Schedule → ℕ → ℕ → Life → Life
  firing none s date later l = record l { fired = s.next_run_at ∷ l.fired }
  firing (some next) s date later l = record (put_schedule later (fired_schedule next later s) l) {
    fired = s.next_run_at ∷ l.fired;
  }

  abbrev pub fire_stored : Option Schedule → ℕ → ℕ → Life → Life
  unfolding next_schedule_run_at
  fire_stored none date later l = l
  fire_stored (some s) date later l =
      if is_slot_due s date
      then firing (next_schedule_run_at s.cadence date s.next_run_at) s date later l
      else l

  -- `fireDue` without a date.
  abbrev pub fire_due : ℕ → ℕ → Life → Life
  unfolding fire_stored
  fire_due clock clock_after l =
      let date = now clock l.last_timestamp in
      fire_stored l.schedule date (now clock_after date) (record l { last_timestamp = date })

  -- `fireDue` for a date of the caller's.
  abbrev pub fire_due_at : ℕ → ℕ → Life → Life
  unfolding fire_stored
  fire_due_at date clock_after l = fire_stored l.schedule date (now clock_after l.last_timestamp) l

  -- A schedule that is switched on when its slot has passed gets the next one.
  abbrev pub restarts : Bool → ℕ → Schedule → Bool
  restarts enabled date s = enabled && (not s.enabled && leb s.next_run_at date)

  abbrev pub switched : Bool → ℕ → ℕ → Schedule → Schedule
  switched enabled next date s = record s {
    enabled = enabled;
    next_run_at = next;
    updated_at = date;
  }

  -- The new slot, and none: its error.
  abbrev pub switching_to : Bool → Option ℕ → Schedule → ℕ → Life → Life
  switching_to enabled none s date l = record l { last_timestamp = date }
  switching_to enabled (some next) s date l = put_schedule date (switched enabled next date s) l

  abbrev pub switched_slot : Bool → ℕ → Schedule → Option ℕ
  unfolding next_schedule_run_at
  switched_slot enabled date s =
      if restarts enabled date s
      then next_schedule_run_at s.cadence date s.next_run_at
      else some s.next_run_at

  abbrev pub switching : Bool → Option Schedule → ℕ → Life → Life
  unfolding switched_slot
  switching enabled none date l = l
  switching enabled (some s) date l = switching_to enabled (switched_slot enabled date s) s date l

  -- `setEnabled`.
  abbrev pub set_enabled : Bool → ℕ → Life → Life
  unfolding switching
  set_enabled enabled clock l = switching enabled l.schedule (now clock l.last_timestamp) l

  pub data ScheduleEvent : Type 0 where
    reconciles : Option Definition → (clock : ℕ) → ScheduleEvent
    fires : (clock clock_after : ℕ) → ScheduleEvent
    fires_at : (date clock_after : ℕ) → ScheduleEvent
    switches : (enabled : Bool) → (clock : ℕ) → ScheduleEvent

  unfoldable pub occur : ScheduleEvent → Life → Life
  unfolding reconcile fire_due fire_due_at set_enabled
  occur (reconciles d clock) l = reconcile d clock l
  occur (fires clock clock_after) l = fire_due clock clock_after l
  occur (fires_at date clock_after) l = fire_due_at date clock_after l
  occur (switches enabled clock) l = set_enabled enabled clock l

  -- A date of the caller's is not ahead of the clock.
  abbrev pub is_timely : ScheduleEvent → Bool
  is_timely (reconciles d clock) = true
  is_timely (fires clock clock_after) = true
  is_timely (fires_at date clock_after) = leb date clock_after
  is_timely (switches enabled clock) = true
