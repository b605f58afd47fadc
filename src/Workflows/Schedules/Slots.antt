-- ===== src/Workflows/Schedules/Slots.antt =====
-- The slots of a schedule.
use neemata.Common.{ℕ, ◌<◌, ◌≡◌, refl, true, none, [], arith}
use neemata.Workflows.Items.{now}
use neemata.Workflows.Schedules.{
  Life, fire_due_at, set_enabled, ScheduleEvent, reconciles, fires, fires_at, switches, occur,
  is_timely,
}
use neemata.Workflows.Schedules.Grid.{is_descending, now-later, now-clock}
use neemata.Workflows.Schedules.Kept.{
  Inv, is_ahead, reconcile-Inv, fire_stored-Inv, fire_due-Inv, switching-Inv,
}

module _ (next_cron : ℕ → ℕ → ℕ)
    (cron_later : (expression date : ℕ) → date < next_cron expression date) where
  occur-Inv :
      (e : ScheduleEvent next_cron) (l : Life)
      → is_timely next_cron e ≡ true
      → Inv next_cron cron_later l
      → Inv next_cron cron_later (occur next_cron e l)
  unfolding occur fire_due_at set_enabled
  occur-Inv (reconciles d clock) l t v = reconcile-Inv next_cron cron_later d clock l v
  occur-Inv (fires clock clock_after) l t v =
      fire_due-Inv next_cron cron_later clock clock_after l v
  occur-Inv (fires_at date clock_after) l t v =
      fire_stored-Inv next_cron cron_later l.schedule date (now clock_after l.last_timestamp) l refl
        (now-later clock_after l.last_timestamp)
        (ground (arith, t, now-clock clock_after l.last_timestamp)) v
  occur-Inv (switches b clock) l t v =
      switching-Inv next_cron cron_later b l.schedule (now clock l.last_timestamp) l refl
        (now-later clock l.last_timestamp) v

  -- What `reconcile`, `fireDue` and `setEnabled` make of a schedule, from nothing.
  pub data Reach : Life → Type 0 where
    start : Reach (record { schedule = none; fired = []; last_timestamp = 0 })
    next :
        {l : Life}
        → Reach l
        → (e : ScheduleEvent next_cron) → is_timely next_cron e ≡ true
        → Reach (occur next_cron e l)

  reach-Inv : {l : Life} → Reach l → Inv next_cron cron_later l
  reach-Inv start = record { runnable = refl; ahead = refl; past = refl; ordered = refl }
  reach-Inv (next {l} r e t) = occur-Inv e l t (reach-Inv r)

  -- Let the cron parser give only dates behind the one that it is asked for, and let no caller of
  -- `fireDue` pass a date ahead of the clock. Then, however a schedule is defined anew, removed,
  -- switched and fired, one operation after the other, every slot that is fired lies behind all slots
  -- that were fired before it, so that no slot is fired twice, and the next slot of a stored schedule
  -- lies behind them all.
  pub slots_ascend :
      {l : Life}
      → Reach l
      → (is_descending l.fired ≡ true) × (is_ahead next_cron cron_later l.schedule l.fired ≡ true)
  slots_ascend r = let v = reach-Inv r in (v.ordered, v.ahead)
