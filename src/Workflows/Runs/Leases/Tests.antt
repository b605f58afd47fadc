-- ===== src/Workflows/Runs/Leases/Tests.antt =====
-- The lease of a run that is taken over.
use neemata.Common.{◌≡◌, refl, none, some, arith}
use neemata.Workflows.Transitions.{running}
use neemata.Workflows.Runs.{Run, Store, set}
use neemata.Workflows.Runs.Leases.{acquire_run_lease, renew_run_lease, granting, renewing}
use neemata.Workflows.Runs.Leases.Taken.{LeaseReach, here, next, renews}
use neemata.Workflows.Runs.Leases.Fencing.{Leased, run_leases}

abbrev night_run : Run
night_run = record {
  id = 1;
  status = running;
  shape = 5;
  root = 1;
  unique = none;
  output = none;
  error = none;
  version = 2;
  updated_at = 30;
}

abbrev one_run : Store
one_run = record {
  runs = set 1 (some night_run) (λ i. none);
  idempotency_keys = λ k. none;
  active_keys = λ k. none;
  all_keys = λ k. none;
  leases = λ i. none;
  next_id = 2;
  last_timestamp = 30;
}

-- A worker has a lease for a second, with the token 2. Four seconds later another one takes the lease over,
-- and renews its own.
abbrev leased : Store
leased = (acquire_run_lease 1 1000 50 one_run).0

abbrev taken_over : Store
taken_over = (acquire_run_lease 1 1000 5000 leased).0

abbrev renewed_once : Store
renewed_once = (renew_run_lease 1 3 1000 5500 taken_over).0

taken : LeaseReach taken_over renewed_once
taken = next here (renews 1 3 1000 5500)

next_token : leased.next_id ≡ 3
unfolding acquire_run_lease granting
next_token = refl

renewed_at : renewed_once.leases 1 ≡ some (record { token = 3; version = 2; expires_at = 6500 })
unfolding acquire_run_lease granting renew_run_lease renewing
renewed_at = refl

run_leases_example : Leased 1 1000 5000 2 leased renewed_once 1000 5600
run_leases_example =
    run_leases 1 1000 5000 2 leased renewed_once 1000 5600 (omega (arith, next_token)) taken
