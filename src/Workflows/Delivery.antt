-- ===== src/Workflows/Delivery.antt =====
-- packages/workflows/src/runtime/in-memory.ts: `countFailedDelivery` and `releaseQueueItem` over
-- any number of failures.
use neemata.Common.{
  ℕ, zero, suc, ◌+◌, ◌*◌, ◌^◌, ◌≤◌, ◌≡◌, refl, ◌∙◌, not, ◌&&◌, Option, some, List, [], ◌∷◌, arith,
  ltb, if_intro, if◌then◌else◌, length,
}
use neemata.Wire.Utf8.{Text}
use neemata.Workflows.Items.{
  Item, ReleaseOptions, is_live, is_none, count_failed_delivery, release_queue_item, queue_item,
  backoff_base, backed_off, release_backoff_ms, max_error_backoff_ms, no_implementation_error,
  or_else, min,
}

power_positive : (n : ℕ) → 1 ≤ 2 ^ n
power_positive zero = omega arith
power_positive (suc n) = omega (arith, power_positive n)

min-within :
    (n base : ℕ)
    → 50 ≤ base
    → (50 ≤ min (2 ^ n * base) 300000) × (min (2 ^ n * base) 300000 ≤ 300000)
min-within n base h = (ground (arith, large), ground arith)
  where
    large : 50 ≤ 2 ^ n * base
    large = grind (arith, power_positive n)

module _ {P : Type 0} where
  -- Deliveries that fail one after the other, each at its time and with its error.
  abbrev pub fail_all : ℕ → ℕ → List (ℕ × Text) → Item P → Item P
  unfolding count_failed_delivery
  fail_all max_deliveries last [] item = item
  fail_all max_deliveries last ((clock, error) ∷ rest) item =
      let counted = count_failed_delivery max_deliveries clock last error item in
      fail_all max_deliveries counted.1 rest counted.0

  fail_all-live :
      (max_deliveries last : ℕ) (failures : List (ℕ × Text)) (item : Item P)
      → is_live item ≡ ltb item.delivery_count max_deliveries
      → is_live (fail_all max_deliveries last failures item)
        ≡ ltb (length failures + item.delivery_count) max_deliveries
  unfolding fail_all count_failed_delivery
  fail_all-live max_deliveries last [] item h = h ∙ ground arith
  fail_all-live max_deliveries last ((clock, error) ∷ rest) item h =
      fail_all-live max_deliveries (count_failed_delivery max_deliveries clock last error item).1
        rest (count_failed_delivery max_deliveries clock last error item).0 (ground arith)
      ∙ ground arith

  -- A new command dies at exactly the failed delivery that reaches the limit: as long as fewer
  -- deliveries failed it is alive, and from then on it is dead.
  pub poisoned :
      (max_deliveries last id created_at : ℕ) (payload : P) (run_at : Option ℕ)
      (failures : List (ℕ × Text))
      → 1 ≤ max_deliveries
      → is_live (fail_all max_deliveries last failures (queue_item id payload run_at created_at))
        ≡ ltb (length failures) max_deliveries
  poisoned max_deliveries last id created_at payload run_at failures h =
      fail_all-live max_deliveries last failures (queue_item id payload run_at created_at)
        (ground arith)
      ∙ ground arith

  -- A released command waits between the least and the greatest backoff, whatever the release says
  -- and however often it failed; it counts as a failed delivery exactly if the release gives an
  -- error or says that the command is unroutable.
  pub release-backoff :
      (max_deliveries clock last : ℕ) (options : ReleaseOptions) (item : Item P)
      → let released = (release_queue_item max_deliveries clock last options item).0 in
        ((t : ℕ) × (released.run_at ≡ some t)
          × (clock + release_backoff_ms ≤ t)
          × (t ≤ clock + max_error_backoff_ms))
        × (released.delivery_count ≡ (
            if is_none options.error && not options.unroutable
            then item.delivery_count
            else suc item.delivery_count))
  unfolding release_queue_item
  release-backoff max_deliveries clock last options item =
      let counted : Item P × ℕ =
        count_failed_delivery max_deliveries clock last
          (or_else options.error no_implementation_error) item in
      let within =
        min-within counted.0.delivery_count (backoff_base options.unroutable) (ground arith) in
      if_intro
        (λ (r : Item P × ℕ).
          ((t : ℕ) × (r.0.run_at ≡ some t)
            × (clock + release_backoff_ms ≤ t)
            × (t ≤ clock + max_error_backoff_ms))
          × (r.0.delivery_count ≡ (
              if is_none options.error && not options.unroutable
              then item.delivery_count
              else suc item.delivery_count)))
        (is_none options.error && not options.unroutable) _
        (backed_off clock (backoff_base options.unroutable) counted)
        (λ e. ((clock + 50, refl, omega arith, omega arith), rw e refl))
        (λ e. (
          (
            clock + min (2 ^ counted.0.delivery_count * backoff_base options.unroutable) 300000,
            refl,
            omega (arith, within.0),
            omega (arith, within.1),
          ),
          rw e (
              count-suc max_deliveries clock last (or_else options.error no_implementation_error)
                item),
        ))
    where
      count-suc :
          (max_deliveries clock last : ℕ) (error : Text) (item : Item P)
          → (count_failed_delivery max_deliveries clock last error item).0.delivery_count
            ≡ suc item.delivery_count
      count-suc max_deliveries clock last error item = ground arith
