-- ===== src/Workflows/Schedules/Kept.antt =====
-- What the operations on a schedule keep.
use neemata.Common.{
  ℕ, zero, suc, ◌≤◌, ◌<◌, ◌≡◌, refl, ap, sym, ◌∙◌, subst, Bool, true, Option, none, some, List,
  if◌then◌else◌, arith, if_intro,
}
use neemata.Workflows.Items.{now}
use neemata.Workflows.Schedules.{
  Cadence, cron, every, Schedule, Definition, Life, has_period, is_slot_due, next_schedule_run_at,
  first_run_at, resets, reconciled, put_schedule, reconciling, reconcile, firing, fire_stored,
  fire_due, restarts, switched, switching_to, switched_slot, switching,
}
use neemata.Workflows.Schedules.Grid.{
  all_below, is_descending, all_below_mono, now-later, after_missed-later,
}

module _ (next_cron : ℕ → ℕ → ℕ)
    (cron_later : (expression date : ℕ) → date < next_cron expression date) where
  pub run_at-later :
      (c : Cadence) (date base n : ℕ)
      → next_schedule_run_at next_cron c date base ≡ some n
      → date < n
  unfolding next_schedule_run_at
  run_at-later (cron e) date base n h = ground (arith, h, cron_later e date)
  run_at-later (every ms) date base n h = after_missed-later ms date base n h

  abbrev pub is_ahead : Option Schedule → List ℕ → Bool
  is_ahead none fired = true
  is_ahead (some s) fired = all_below s.next_run_at fired

  abbrev pub all_have_period : Option Schedule → Bool
  all_have_period none = true
  all_have_period (some s) = has_period s.cadence

  -- A cadence with a period has a next slot.
  pub has_period-next :
      (c : Cadence) (date base : ℕ)
      → has_period c ≡ true
      → ¬ (next_schedule_run_at next_cron c date base ≡ none)
  unfolding next_schedule_run_at
  has_period-next (cron e) date base h n = absurd (ground (arith, n))
  has_period-next (every zero) date base h n = absurd (ground (arith, h))
  has_period-next (every (suc m)) date base h n = absurd (ground (arith, n))

  pub record Inv (l : Life) : Type 0 where
    pub runnable : all_have_period l.schedule ≡ true
    pub ahead : is_ahead l.schedule l.fired ≡ true
    pub past : all_below (suc l.last_timestamp) l.fired ≡ true
    pub ordered : is_descending l.fired ≡ true

  -- Setting a schedule whose next slot was not fired, at a later date.
  pub put-Inv :
      (date : ℕ) (s : Schedule) (l : Life)
      → l.last_timestamp < date
      → has_period s.cadence ≡ true
      → all_below s.next_run_at l.fired ≡ true
      → Inv l
      → Inv (put_schedule next_cron date s l)
  put-Inv date s l lt can fresh v = record {
    runnable = can;
    ahead = fresh;
    past = all_below_mono (suc l.last_timestamp) (suc date) l.fired (omega arith) v.past;
    ordered = v.ordered;
  }

  -- Reading the clock.
  pub read-Inv :
      (date : ℕ) (l : Life)
      → l.last_timestamp < date
      → Inv l
      → Inv (record l { last_timestamp = date })
  read-Inv date l lt v = record {
    runnable = v.runnable;
    ahead = v.ahead;
    past = all_below_mono (suc l.last_timestamp) (suc date) l.fired (omega arith) v.past;
    ordered = v.ordered;
  }

  -- A slot that is not before a new date was not fired.
  unfired :
      (date x : ℕ) (l : Life)
      → l.last_timestamp < date
      → date ≤ x
      → Inv l
      → all_below x l.fired ≡ true
  unfired date x l lt le v = all_below_mono (suc l.last_timestamp) x l.fired (omega arith) v.past

  pub first-le :
      (d : Definition) (date first : ℕ)
      → first_run_at next_cron d date ≡ some first
      → (has_period d.cadence ≡ true) × (date ≤ first)
  unfolding first_run_at
  first-le d date first =
      if_intro (λ o. o ≡ some first → (has_period d.cadence ≡ true) × (date ≤ first))
        (has_period d.cadence)
        (if d.immediately then some date else next_schedule_run_at next_cron d.cadence date date)
        none
        (λ can.
          if_intro (λ o. o ≡ some first → (has_period d.cadence ≡ true) × (date ≤ first))
            d.immediately (some date) (next_schedule_run_at next_cron d.cadence date date)
            (λ _ e. (can, ground (arith, e)))
            (λ _ e.
              let later_slot : date < first = run_at-later d.cadence date date first e in
              (can, omega arith)))
        (λ _ e. absurd (ground (arith, e)))

  pub reconciled-has_period :
      (o : Option Schedule) (d : Definition) (first date : ℕ)
      → has_period d.cadence ≡ true
      → has_period (reconciled next_cron o d first date).cadence ≡ true
  reconciled-has_period none d first date h = h
  reconciled-has_period (some s) d first date h = h

  pub reconciled-below :
      (o : Option Schedule) (d : Definition) (first date : ℕ) (fired : List ℕ)
      → is_ahead o fired ≡ true
      → all_below first fired ≡ true
      → all_below (reconciled next_cron o d first date).next_run_at fired ≡ true
  reconciled-below none d first date fired h k = k
  reconciled-below (some s) d first date fired h k =
      if_intro (λ x. all_below x fired ≡ true) (resets next_cron s d date) first s.next_run_at
        (λ _. k) (λ _. h)

  pub reconciling-Inv :
      (d : Definition) (o : Option ℕ) (date : ℕ) (l : Life)
      → first_run_at next_cron d date ≡ o
      → l.last_timestamp < date
      → Inv l
      → Inv (reconciling next_cron d o date l)
  reconciling-Inv d none date l e lt v = read-Inv date l lt v
  reconciling-Inv d (some first) date l e lt v =
      let (can, le) = first-le d date first e in
      put-Inv date (reconciled next_cron l.schedule d first date) l lt
        (reconciled-has_period l.schedule d first date can)
        (reconciled-below l.schedule d first date l.fired v.ahead (unfired date first l lt le v)) v

  pub reconcile-Inv :
      (o : Option Definition) (clock : ℕ) (l : Life) → Inv l → Inv (reconcile next_cron o clock l)
  unfolding reconcile
  reconcile-Inv none clock l v = record {
    runnable = refl;
    ahead = refl;
    past =
        all_below_mono (suc l.last_timestamp) (suc (now clock l.last_timestamp)) l.fired
          (omega (arith, now-later clock l.last_timestamp)) v.past;
    ordered = v.ordered;
  }
  reconcile-Inv (some d) clock l v =
      reconciling-Inv d (first_run_at next_cron d (now clock l.last_timestamp))
        (now clock l.last_timestamp) l refl (now-later clock l.last_timestamp) v

  pub firing-Inv :
      (o : Option ℕ) (s : Schedule) (date later : ℕ) (l : Life)
      → l.schedule ≡ some s
      → next_schedule_run_at next_cron s.cadence date s.next_run_at ≡ o
      → s.next_run_at ≤ date
      → l.last_timestamp < later
      → date ≤ later
      → Inv l
      → Inv (firing next_cron o s date later l)
  firing-Inv none s date later l at e due lt lt' v =
      absurd
        (has_period-next s.cadence date s.next_run_at (sym (ap all_have_period at) ∙ v.runnable) e)
  firing-Inv (some next) s date later l at e due lt lt' v =
      let fresh : all_below s.next_run_at l.fired ≡ true =
        sym (ap (λ o. is_ahead o l.fired) at) ∙ v.ahead in
      record {
        runnable = sym (ap all_have_period at) ∙ v.runnable;
        ahead = ground (
          arith,
          run_at-later s.cadence date s.next_run_at next e,
          all_below_mono s.next_run_at next l.fired,
          fresh,
        );
        past = ground (arith, all_below_mono (suc l.last_timestamp) (suc later) l.fired, v.past);
        ordered = ground (arith, fresh, v.ordered);
      }

  pub fire_stored-Inv :
      (o : Option Schedule) (date later : ℕ) (l : Life)
      → l.schedule ≡ o
      → l.last_timestamp < later
      → date ≤ later
      → Inv l
      → Inv (fire_stored next_cron o date later l)
  unfolding fire_stored
  fire_stored-Inv none date later l at lt lt' v = v
  fire_stored-Inv (some s) date later l at lt lt' v =
      if_intro Inv (is_slot_due s date)
        (firing next_cron (next_schedule_run_at next_cron s.cadence date s.next_run_at) s date later
          l)
        l
        (λ due.
          firing-Inv (next_schedule_run_at next_cron s.cadence date s.next_run_at) s date later l at
            refl (ground (arith, due)) lt lt' v)
        (λ _. v)

  pub fire_due-Inv :
      (clock clock_after : ℕ) (l : Life) → Inv l → Inv (fire_due next_cron clock clock_after l)
  unfolding fire_due
  fire_due-Inv clock clock_after l v =
      let date = now clock l.last_timestamp in
      let later : date < now clock_after date = now-later clock_after date in
      fire_stored-Inv l.schedule date (now clock_after date) (record l { last_timestamp = date })
        refl later (omega (arith, later)) (read-Inv date l (now-later clock l.last_timestamp) v)

  -- The slot of a schedule that is switched was not fired.
  pub switched_slot-below :
      (b : Bool) (date : ℕ) (s : Schedule) (next : ℕ) (l : Life)
      → l.schedule ≡ some s
      → switched_slot next_cron b date s ≡ some next
      → l.last_timestamp < date
      → Inv l
      → all_below next l.fired ≡ true
  unfolding switched_slot
  switched_slot-below b date s next l at e lt v =
      if_intro (λ o. o ≡ some next → all_below next l.fired ≡ true) (restarts next_cron b date s)
        (next_schedule_run_at next_cron s.cadence date s.next_run_at) (some s.next_run_at)
        (λ _ e'.
          let later_slot : date < next = run_at-later s.cadence date s.next_run_at next e' in
          unfired date next l lt (omega arith) v)
        (λ _ e'.
          let same : s.next_run_at ≡ next = ground (arith, e') in
          subst (λ x. all_below x l.fired ≡ true) same
            (sym (ap (λ o. is_ahead o l.fired) at) ∙ v.ahead))
        e

  pub switching_to-Inv :
      (b : Bool) (o : Option ℕ) (s : Schedule) (date : ℕ) (l : Life)
      → l.schedule ≡ some s
      → switched_slot next_cron b date s ≡ o
      → l.last_timestamp < date
      → Inv l
      → Inv (switching_to next_cron b o s date l)
  switching_to-Inv b none s date l at e lt v = read-Inv date l lt v
  switching_to-Inv b (some next) s date l at e lt v =
      put-Inv date (switched next_cron b next date s) l lt
        (sym (ap all_have_period at) ∙ v.runnable) (switched_slot-below b date s next l at e lt v) v

  pub switching-Inv :
      (b : Bool) (o : Option Schedule) (date : ℕ) (l : Life)
      → l.schedule ≡ o
      → l.last_timestamp < date
      → Inv l
      → Inv (switching next_cron b o date l)
  unfolding switching
  switching-Inv b none date l at lt v = v
  switching-Inv b (some s) date l at lt v =
      switching_to-Inv b (switched_slot next_cron b date s) s date l at refl lt v
