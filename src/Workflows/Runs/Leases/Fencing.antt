-- ===== src/Workflows/Runs/Leases/Fencing.antt =====
-- The lease of a run over its histories.
use neemata.Common.{
  ℕ, ◌+◌, ◌<◌, ◌≡◌, ◌⊎◌, inl, inr, refl, ap, ◌∙◌, true, Option, none, some, arith, ◌==◌,
}
use neemata.Workflows.Items.{now}
use neemata.Workflows.Runs.{RunLease, Store}
use neemata.Workflows.Runs.Leases.{
  has_token, acquire_run_lease, renewing, renew_run_lease, release_run_lease,
}
use neemata.Workflows.Runs.Leases.Taken.{
  IsRefused, IsGranted, acquire-Answered, LeaseReach, IsLost, differs, Reach-IsLost, renewing-lost,
  has_token-lost,
}

-- What the holder of a stored lease can do with it.
pub record IsUsable (run_id lease_ms clock : ℕ) (l : RunLease) (s : Store) : Type 0 where
  pub renewed :
      (renew_run_lease run_id l.token lease_ms clock s).1
      ≡ some (record l { expires_at = now clock s.last_timestamp + lease_ms })
  pub prolonged :
      (renew_run_lease run_id l.token lease_ms clock s).0.leases run_id
      ≡ some (record l { expires_at = now clock s.last_timestamp + lease_ms })
  pub ended : (release_run_lease run_id l.token s).leases run_id ≡ none

renewing-own :
    (run_id lease_ms clock : ℕ) (l : RunLease) (o : Option RunLease) (s : Store)
    → o ≡ some l
    → ((renewing run_id l.token lease_ms clock o s).1
        ≡ some (record l { expires_at = now clock s.last_timestamp + lease_ms }))
      × ((renewing run_id l.token lease_ms clock o s).0.leases run_id
          ≡ some (record l { expires_at = now clock s.last_timestamp + lease_ms }))
unfolding renewing
renewing-own run_id lease_ms clock l o s e =
    let own : (l.token == l.token) ≡ true = ground arith in
    let here : (run_id == run_id) ≡ true = ground arith in rw (e, own, here) (refl, refl)

stored-IsUsable :
    (run_id lease_ms clock : ℕ) (l : RunLease) (s : Store)
    → s.leases run_id ≡ some l
    → IsUsable run_id lease_ms clock l s
unfolding renew_run_lease release_run_lease
stored-IsUsable run_id lease_ms clock l s e =
    let own = renewing-own run_id lease_ms clock l (s.leases run_id) s e in
    let held : has_token l.token (s.leases run_id) ≡ true =
      ap (has_token l.token) e ∙ ground arith in
    let here : (run_id == run_id) ≡ true = ground arith in
    record { renewed = own.0; prolonged = own.1; ended = rw (held, here) refl }

-- What is known of an acquisition, and of a token drawn before it.
abbrev pub Leased : ℕ → ℕ → ℕ → ℕ → Store → Store → ℕ → ℕ → Type 0
Leased run_id lease_ms clock old s u more_ms later =
    let date : ℕ = now clock s.last_timestamp in
    let r : Store × Option RunLease = acquire_run_lease run_id lease_ms clock s in
    IsRefused run_id date s r
    ⊎ ((l : RunLease) × IsGranted run_id date lease_ms s l r
        × IsUsable run_id more_ms later l r.0
        × (renew_run_lease run_id old more_ms later u ≡ (u, none))
        × (release_run_lease run_id old u ≡ u))

granted-IsLost :
    (run_id date lease_ms old : ℕ) (s : Store) (l : RunLease) (r : Store × Option RunLease)
    → old < s.next_id
    → IsGranted run_id date lease_ms s l r
    → IsLost run_id old r.0
granted-IsLost run_id date lease_ms old s l r drawn g = record {
  drawn = omega (arith, drawn, g.handed_out);
  other = ap (differs old) (g.stored run_id) ∙ ground (arith, drawn, g.token);
}

-- A lease of a run is refused if the one that the store has lasts or there is no such run, and then
-- no lease changes. Otherwise it is granted: it has the next id as its token and runs for the time
-- that was asked for, the store has it for this run and the old leases for the others, and its holder
-- can prolong it and end it. From then on, whatever is acquired, renewed, released and deleted in
-- whichever order, a worker with a token that was drawn before can neither renew a lease of that run
-- nor end it: each attempt leaves the store as it is.
pub run_leases :
    (run_id lease_ms clock old : ℕ) (s u : Store) (more_ms later : ℕ)
    → old < s.next_id
    → LeaseReach (acquire_run_lease run_id lease_ms clock s).0 u
    → Leased run_id lease_ms clock old s u more_ms later
unfolding renew_run_lease release_run_lease
run_leases run_id lease_ms clock old s u more_ms later drawn reached =
    let date : ℕ = now clock s.last_timestamp in
    elim (acquire-Answered run_id lease_ms clock s) [
      | inl refused ↦ inl refused
      | inr granted ↦
          let lost : IsLost run_id old u = Reach-IsLost run_id old reached (
            granted-IsLost run_id date lease_ms old s granted.0
              (acquire_run_lease run_id lease_ms clock s) drawn granted.1) in
          let here : (run_id == run_id) ≡ true = ground arith in
          inr (
            granted.0,
            granted.1,
            stored-IsUsable run_id more_ms later granted.0
                (acquire_run_lease run_id lease_ms clock s).0
                (granted.1.stored run_id ∙ rw here refl),
            renewing-lost run_id old more_ms later (u.leases run_id) u lost.other,
            rw (has_token-lost run_id old (u.leases run_id) lost.other) refl,
          )
    ]
