-- ===== src/Workflows/Items.antt =====
-- packages/workflows/src/runtime/in-memory.ts: the items of a command queue, and how a failed
-- delivery is counted. Times are milliseconds; names and ids are numbers, as the queues only
-- compare them. `Date.now()` is read once in each operation.
use neemata.Common.{
  ℕ, suc, ◌+◌, ◌*◌, ◌^◌, Bool, true, false, not, ◌&&◌, Option, none, some, codes, leb,
  if◌then◌else◌,
}
use neemata.Wire.Utf8.{Text}

-- `QueueItem`, with the stored error as its message.
pub record Item (P : Type 0) : Type 0 where
  pub id : ℕ
  pub payload : P
  pub run_at : Option ℕ
  pub delivery_count : ℕ
  pub last_error : Option Text
  pub dead_at : Option ℕ
  pub created_at : ℕ

-- `ClaimedQueueItem`.
pub record Claimed (P : Type 0) : Type 0 where
  pub item : Item P
  pub lease_token : ℕ
  pub lease_expires_at : ℕ

-- `CommandReleaseOptions`; no options are the same as neither field.
pub record ReleaseOptions : Type 0 where
  pub error : Option Text
  pub unroutable : Bool

abbrev pub release_backoff_ms : ℕ
release_backoff_ms = 50

abbrev pub unroutable_backoff_ms : ℕ
unroutable_backoff_ms = 1000

abbrev pub max_error_backoff_ms : ℕ
max_error_backoff_ms = 300000

abbrev pub lease_expired_error : Text
lease_expired_error =
    codes "Workflow command lease expired without release — the worker likely crashed mid-delivery"

abbrev pub no_implementation_error : Text
no_implementation_error = codes "No implementation can execute this workflow command"

abbrev pub max : ℕ → ℕ → ℕ
max a b = if leb a b then b else a

abbrev pub min : ℕ → ℕ → ℕ
min a b = if leb a b then a else b

-- `now()`: the clock, but later than whatever it returned before.
abbrev pub now : ℕ → ℕ → ℕ
now clock last_timestamp = max clock (last_timestamp + 1)

abbrev pub is_none : {A : Type 0} → Option A → Bool
is_none none = true
is_none (some a) = false

abbrev pub or_else : {A : Type 0} → Option A → A → A
or_else none b = b
or_else (some a) b = a

abbrev due : ℕ → Option ℕ → Bool
due date none = true
due date (some t) = leb t date

-- `left <= right ? left : right`, or at once if either is.
abbrev pub earliest_run_at : Option ℕ → Option ℕ → Option ℕ
earliest_run_at none right = none
earliest_run_at (some t) none = none
earliest_run_at (some t) (some u) = some (min t u)

abbrev pub backoff_base : Bool → ℕ
backoff_base unroutable = if unroutable then unroutable_backoff_ms else release_backoff_ms

module _ {P : Type 0} where
  abbrev pub is_live : Item P → Bool
  is_live item = is_none item.dead_at

  abbrev pub is_due : ℕ → Item P → Bool
  is_due date item = due date item.run_at

  abbrev pub queue_item : ℕ → P → Option ℕ → ℕ → Item P
  queue_item id payload run_at created_at = record {
    id = id;
    payload = payload;
    run_at = run_at;
    delivery_count = 0;
    last_error = none;
    dead_at = none;
    created_at = created_at;
  }

  -- With the last timestamp behind it, which moves only when the item dies.
  unfoldable pub count_failed_delivery : ℕ → ℕ → ℕ → Text → Item P → Item P × ℕ
  count_failed_delivery max_deliveries clock last_timestamp error item =
      if leb max_deliveries (suc item.delivery_count)
      then (
        record item {
          delivery_count = suc item.delivery_count;
          last_error = some error;
          dead_at = some (now clock last_timestamp);
        },
        now clock last_timestamp,
      )
      else (
        record item { delivery_count = suc item.delivery_count; last_error = some error },
        last_timestamp,
      )

  abbrev pub backed_off : ℕ → ℕ → Item P × ℕ → Item P × ℕ
  backed_off clock base (item, last_timestamp) = (
    record item {
      run_at = some (clock + min (2 ^ item.delivery_count * base) max_error_backoff_ms);
    },
    last_timestamp,
  )

  unfoldable pub release_queue_item : ℕ → ℕ → ℕ → ReleaseOptions → Item P → Item P × ℕ
  unfolding count_failed_delivery
  release_queue_item max_deliveries clock last_timestamp options item =
      if is_none options.error && not options.unroutable
      then (record item { run_at = some (clock + release_backoff_ms) }, last_timestamp)
      else backed_off clock (backoff_base options.unroutable) (
          count_failed_delivery max_deliveries clock last_timestamp
            (or_else options.error no_implementation_error) item)
