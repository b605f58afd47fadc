-- ===== src/Workflows/Commands/Tests.antt =====
-- The command queues at concrete histories.
use neemata.Common.{
  ℕ, suc, ◌+◌, ◌≤◌, ◌≡◌, refl, Bool, true, false, not, ◌&&◌, none, some, [], ◌∷◌, arith, ltb, ◌==◌,
  if◌then◌else◌, ok, err,
}
use neemata.Workflows.Items.{
  ReleaseOptions, count_failed_delivery, now, is_live, is_none, queue_item, release_queue_item,
  release_backoff_ms, max_error_backoff_ms,
}
use neemata.Workflows.Delivery.{fail_all, poisoned, release-backoff}
use neemata.Workflows.Commands.{
  Queue, Claim, push_new, claim_command, release, requeue_dead, ack, stale_ack, find_claim,
  reclaimed, ready, claimable, reclaim, claim_queued, claim_from, find_first, scan, remove_at,
  lease_item,
}
use neemata.Workflows.Commands.Held.{held}
use neemata.Workflows.Commands.Keeps.{Inv}
use neemata.Workflows.Commands.Steps.{Reach, here, next, pushes, takes, Queue-Reach-Inv, moved-held}
use neemata.Workflows.Commands.Takeover.{Acked, ack-held}
use neemata.Workflows.Commands.Executors.{
  Attempt, AttemptKind, ContinueRun, Worker, eligible_attempt, comes_before, claim_attempt,
  enqueue_continue,
}
use neemata.Workflows.Commands.Executors.Promises.{
  Returned, claim_attempt-Returned, IsWoken, enqueue_continue-IsWoken,
}

abbrev empty : Queue Attempt
empty = record { next_id = 1; last_timestamp = 0; queued = []; claimed = [] }

abbrev send_mail : Attempt
send_mail = record { kind = AttemptKind.task 4; workflow_name = 2; run_id = 30; attempt_id = 31 }

abbrev mail_worker : Worker
mail_worker = record {
  workflow_names = [];
  activity_names = none;
  task_names = 4 ∷ [];
  lease_ms = 1000;
}

abbrev by_number : ℕ → ℕ → Bool
by_number a b = ltb a b

abbrev one_queued : Queue Attempt
one_queued = push_new send_mail none 100 empty

abbrev one_claimed : Queue Attempt
one_claimed =
    (claim_command 3 200 (eligible_attempt mail_worker) (comes_before by_number) true 1000
      one_queued).0

one_claimed_reached : Reach 3 empty one_claimed
one_claimed_reached =
    next (next here (pushes send_mail none 100))
      (takes 200 (eligible_attempt mail_worker) (comes_before by_number) true 1000)

Queue-Reach-Inv_example : Inv 3 one_claimed
Queue-Reach-Inv_example = Queue-Reach-Inv 3 1 0 (omega arith) one_claimed_reached

one_claimed-Inv : Inv 3 one_claimed
one_claimed-Inv = Queue-Reach-Inv 3 1 0 (omega arith) one_claimed_reached

abbrev mail_bounced : ReleaseOptions
mail_bounced = record { error = some (98 ∷ []); unroutable = false }

one_claimed_token :
    (find_claim 1 one_claimed.claimed)
    ≡ some (record {
      item = queue_item 1 send_mail none 100;
      lease_token = 2;
      lease_expires_at = 1202;
    })
unfolding push_new claim_command reclaim claim_queued claim_from find_first scan remove_at
    lease_item
one_claimed_token = refl

moved-held_example :
    (held 1
        (claim_command 3 5000
          (eligible_attempt mail_worker)
          (comes_before by_number)
          true
          1000
          one_claimed).0
      ≡ held 1 one_claimed)
    × (held 1 (release 3 1 2 mail_bounced 5000 one_claimed) ≡ held 1 one_claimed)
    × (held 1 (requeue_dead 1 one_claimed).0 ≡ held 1 one_claimed)
moved-held_example =
    moved-held 3 one_claimed 5000 (eligible_attempt mail_worker) (comes_before by_number) true 1000
      1 2 mail_bounced 1 one_claimed-Inv

-- The worker's lease runs out, and another one takes the command over.
abbrev taken_over : Queue Attempt
taken_over =
    (claim_command 3 5000 (eligible_attempt mail_worker) (comes_before by_number) true 1000
      one_claimed).0

abbrev second_claim : Claim Attempt
second_claim = record { id = 1; command = send_mail; lease_token = 3 }

second_taken :
    (claim_command 3 5000
      (eligible_attempt mail_worker)
      (comes_before by_number)
      true
      1000
      one_claimed).1
    ≡ some second_claim
unfolding push_new claim_command reclaim claim_queued claim_from find_first scan remove_at
    lease_item count_failed_delivery
second_taken = refl

two_drawn : one_claimed.next_id ≡ 3
unfolding push_new claim_command reclaim claim_queued claim_from find_first scan remove_at
    lease_item
two_drawn = refl

ack-held_example :
    Acked 1 2 taken_over
    × (ack 1 2 taken_over ≡ err stale_ack)
    × ((s : Queue Attempt) × (ack 1 3 taken_over ≡ ok s)
        × ((j : ℕ) → held j s ≡ (if j == 1 then 0 else held j one_claimed)))
ack-held_example =
    ack-held 3 5000 (eligible_attempt mail_worker) (comes_before by_number) true 1000 one_claimed
      taken_over second_claim 2 1 2 (omega arith) one_claimed-Inv (omega (arith, two_drawn))
      second_taken here

claim_attempt-Returned_example :
    Returned
      (claimable (
        ready
          (now 200 (reclaimed 3 200 (eligible_attempt mail_worker) one_queued).last_timestamp)
          (eligible_attempt mail_worker)))
      (reclaimed 3 200 (eligible_attempt mail_worker) one_queued).queued
      (claim_attempt 3 by_number mail_worker 200 one_queued).1
claim_attempt-Returned_example = claim_attempt-Returned 3 by_number mail_worker 200 one_queued

-- A run whose only command is dead is woken.
abbrev stuck : Queue ContinueRun
stuck = record {
  next_id = 8;
  last_timestamp = 50;
  queued =
      record (queue_item 7 (record { run_id = 30; workflow_name = 2 }) none 10) {
        delivery_count = 3;
        dead_at = some 50;
      }
      ∷ [];
  claimed = [];
}

enqueue_continue-IsWoken_example :
    IsWoken
      (record { run_id = 30; workflow_name = 2 })
      (some 90)
      stuck
      (enqueue_continue (record { run_id = 30; workflow_name = 2 }) (some 90) 60 stuck)
enqueue_continue-IsWoken_example =
    enqueue_continue-IsWoken (record { run_id = 30; workflow_name = 2 }) (some 90) 60 stuck

poisoned_example :
    is_live (fail_all 2 0 ((10, []) ∷ (20, []) ∷ []) (queue_item 7 send_mail none 5)) ≡ false
poisoned_example = poisoned 2 0 7 5 send_mail none ((10, []) ∷ (20, []) ∷ []) (omega arith)

release-backoff_example :
    let released =
      (release_queue_item 3 5000 200 mail_bounced (queue_item 1 send_mail none 100)).0 in
    ((t : ℕ) × (released.run_at ≡ some t)
      × (5000 + release_backoff_ms ≤ t)
      × (t ≤ 5000 + max_error_backoff_ms))
    × (released.delivery_count ≡ (
        if is_none mail_bounced.error && not mail_bounced.unroutable
        then (queue_item 1 send_mail none 100).delivery_count
        else suc (queue_item 1 send_mail none 100).delivery_count))
release-backoff_example = release-backoff 3 5000 200 mail_bounced (queue_item 1 send_mail none 100)
