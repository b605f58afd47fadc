-- ===== src/Workflows/Runs/Leases.antt =====
-- packages/workflows/src/runtime/in-memory.ts: `acquireRunLease`, `renewRunLease` and
-- `releaseRunLease`.
pub mod Taken
pub mod Fencing
mod Tests
use neemata.Common.{
  ℕ, suc, ◌+◌, ◌≡◌, ◌⊎◌, inl, inr, refl, ◌∙◌, Bool, true, false, not, ◌&&◌, Option, none, some,
  arith, ltb, ◌==◌, if◌then◌else◌, if_intro, Bool-cases,
}
use neemata.Workflows.Items.{now}
use neemata.Workflows.Runs.{Run, RunLease, Store, set}

abbrev pub is_current : ℕ → Option RunLease → Bool
is_current date none = false
is_current date (some l) = ltb date l.expires_at

pub granting : ℕ → ℕ → ℕ → Option Run → Store → Store × Option RunLease
granting run_id lease_ms date none s = (s, none)
granting run_id lease_ms date (some run) s =
    let lease : RunLease = record {
      token = s.next_id;
      version = run.version;
      expires_at = date + lease_ms;
    } in
    (record s { leases = set run_id (some lease) s.leases; next_id = suc s.next_id }, some lease)

pub acquire_run_lease : ℕ → ℕ → ℕ → Store → Store × Option RunLease
unfolding granting
acquire_run_lease run_id lease_ms clock s =
    let date : ℕ = now clock s.last_timestamp in
    let t : Store = record s { last_timestamp = date } in
    if is_current date (s.leases run_id)
    then (t, none)
    else granting run_id lease_ms date (s.runs run_id) t

abbrev pub has_token : ℕ → Option RunLease → Bool
has_token token none = false
has_token token (some l) = l.token == token

pub renewing : ℕ → ℕ → ℕ → ℕ → Option RunLease → Store → Store × Option RunLease
renewing run_id token lease_ms clock none s = (s, none)
renewing run_id token lease_ms clock (some l) s =
    if l.token == token
    then (let date : ℕ = now clock s.last_timestamp in
        let renewed : RunLease = record l { expires_at = date + lease_ms } in
        (
          record s { leases = set run_id (some renewed) s.leases; last_timestamp = date },
          some renewed,
        ))
    else (s, none)

pub renew_run_lease : ℕ → ℕ → ℕ → ℕ → Store → Store × Option RunLease
unfolding renewing
renew_run_lease run_id token lease_ms clock s =
    renewing run_id token lease_ms clock (s.leases run_id) s

pub release_run_lease : ℕ → ℕ → Store → Store
release_run_lease run_id token s =
    if has_token token (s.leases run_id) then record s { leases = set run_id none s.leases } else s
