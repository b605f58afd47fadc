-- ===== src/Workflows/Commands.antt =====
-- packages/workflows/src/runtime/in-memory.ts: the queues of the two executors, one over
-- `ContinueRunCommand`s and one over `AttemptCommand`s, and the operations that they share.
pub mod Places
pub mod Taking
pub mod Held
pub mod Keeps
pub mod Steps
pub mod Acks
pub mod Takeover
mod Tests
pub mod Executors
use neemata.Common.{
  ℕ, zero, suc, ◌+◌, Bool, true, false, not, ◌&&◌, ◌||◌, Option, none, some, List, [], ◌∷◌, ◌++◌,
  leb, ltb, ◌==◌, Outcome, ok, err, if◌then◌else◌,
}
use neemata.Wire.Utf8.{Text}
use neemata.Workflows.Items.{
  Item, Claimed, ReleaseOptions, now, or_else, is_live, is_due, queue_item, earliest_run_at,
  count_failed_delivery, release_queue_item, lease_expired_error,
}

-- A queue and its claims in the order of their insertion, with the runtime's counters.
pub record Queue (P : Type 0) : Type 0 where
  pub next_id : ℕ
  pub last_timestamp : ℕ
  pub queued : List (Item P)
  pub claimed : List (Claimed P)

pub data LeaseError : Type 0 where
  stale_ack lease_lost : LeaseError

-- A claim as the worker holds it.
pub record Claim (P : Type 0) : Type 0 where
  pub id : ℕ
  pub command : P
  pub lease_token : ℕ

abbrev swept : ℕ → Option ℕ → Bool
swept dead_before none = false
swept dead_before (some t) = ltb t dead_before

module _ {P : Type 0} where
  -- The first item that passes, behind its index, and the items behind it.
  pub find_first : (Item P → Bool) → ℕ → List (Item P) → Option (ℕ × Item P × List (Item P))
  find_first p i [] = none
  find_first p i (x ∷ xs) =
      let rest = find_first p (suc i) xs in if p x then some (i, x, xs) else rest

  pub remove_at : ℕ → List (Item P) → List (Item P)
  remove_at i [] = []
  remove_at zero (x ∷ xs) = xs
  remove_at (suc i) (x ∷ xs) = x ∷ remove_at i xs

  pub replace_at : ℕ → Item P → List (Item P) → List (Item P)
  replace_at i y [] = []
  replace_at zero y (x ∷ xs) = y ∷ xs
  replace_at (suc i) y (x ∷ xs) = x ∷ replace_at i y xs

  -- The loop over the candidates, the first of which has index `i`.
  pub scan :
      (Item P → Bool) → (Item P → Item P → Bool) → ℕ × Item P → ℕ → List (Item P) → ℕ × Item P
  scan p before best i [] = best
  scan p before best i (x ∷ xs) =
      scan p before (if p x && before x best.1 then (i, x) else best) (suc i) xs

  abbrev splice_at : List (Item P) → ℕ × Item P → Option (Item P × List (Item P))
  unfolding remove_at
  splice_at queue (i, x) = some (x, remove_at i queue)

  pub claim_from :
      (Item P → Bool)
      → (Item P → Item P → Bool)
      → List (Item P)
      → Option (ℕ × Item P × List (Item P))
      → Option (Item P × List (Item P))
  unfolding scan splice_at
  claim_from p before queue none = none
  claim_from p before queue (some (i, x, rest)) =
      splice_at queue (scan p before (i, x) (suc i) rest)

  abbrev pub claimable : (Item P → Bool) → Item P → Bool
  claimable matches item = is_live item && matches item

  pub claim_queued :
      (Item P → Bool) → (Item P → Item P → Bool) → List (Item P) → Option (Item P × List (Item P))
  unfolding claim_from find_first
  claim_queued matches before queue =
      claim_from (claimable matches) before queue (find_first (claimable matches) 0 queue)

  -- `reclaimExpiredLeases`: the claims left, the items that go back to the queue in their order,
  -- and the last timestamp.
  pub reclaim : ℕ → ℕ → ℕ → (P → Bool) → ℕ → List (Claimed P) → List (Claimed P) × List (Item P) × ℕ
  unfolding count_failed_delivery
  reclaim max_deliveries clock date eligible last [] = ([], [], last)
  reclaim max_deliveries clock date eligible last (c ∷ cs) =
      let stays = ltb date c.lease_expires_at || not (eligible c.item.payload) in
      let counted =
        count_failed_delivery max_deliveries clock last
          (or_else c.item.last_error lease_expired_error) c.item in
      let others =
        reclaim max_deliveries clock date eligible (if stays then last else counted.1) cs in
      if stays
      then (c ∷ others.0, others.1, others.2)
      else (others.0, counted.0 ∷ others.1, others.2)

  abbrev pub find_claim : ℕ → List (Claimed P) → Option (Claimed P)
  find_claim id [] = none
  find_claim id (c ∷ cs) = let rest = find_claim id cs in if c.item.id == id then some c else rest

  abbrev pub delete_claim : ℕ → List (Claimed P) → List (Claimed P)
  delete_claim id [] = []
  delete_claim id (c ∷ cs) =
      let rest = delete_claim id cs in if c.item.id == id then rest else c ∷ rest

  abbrev pub matches_claim : Option (Claimed P) → ℕ → Bool
  matches_claim none token = false
  matches_claim (some c) token = c.lease_token == token

  abbrev extend_claim : ℕ → ℕ → List (Claimed P) → List (Claimed P)
  extend_claim id expires [] = []
  extend_claim id expires (c ∷ cs) =
      let rest = extend_claim id expires cs in
      if c.item.id == id then record c { lease_expires_at = expires } ∷ rest else c ∷ rest

  -- The id is taken before the creation time, which is the new last timestamp.
  pub push_new : P → Option ℕ → ℕ → Queue P → Queue P
  push_new payload run_at clock q = record q {
    next_id = suc q.next_id;
    last_timestamp = now clock q.last_timestamp;
    queued = q.queued ++ queue_item q.next_id payload run_at (now clock q.last_timestamp) ∷ [];
  }

  lease_item : ℕ → ℕ → Option (Item P × List (Item P)) → Queue P → Queue P × Option (Claim P)
  lease_item expires last none q = (q, none)
  lease_item expires last (some (item, rest)) q = (
    record q {
      next_id = suc q.next_id;
      last_timestamp = last;
      queued = rest;
      claimed =
          q.claimed
          ++ record { item = item; lease_token = q.next_id; lease_expires_at = expires } ∷ [];
    },
    some (record { id = item.id; command = item.payload; lease_token = q.next_id }),
  )

  abbrev pub reclaimed : ℕ → ℕ → (P → Bool) → Queue P → Queue P
  unfolding reclaim
  reclaimed max_deliveries clock eligible q =
      let date = now clock q.last_timestamp in
      let r = reclaim max_deliveries clock date eligible date q.claimed in
      record q { last_timestamp = r.2; queued = q.queued ++ r.1; claimed = r.0 }

  abbrev ready : ℕ → (P → Bool) → Item P → Bool
  ready date eligible item = eligible item.payload && is_due date item

  -- The continue executor's lease runs from the time of the claim, an attempt's from a later one.
  pub claim_command :
      ℕ
      → ℕ
      → (P → Bool)
      → (Item P → Item P → Bool)
      → Bool
      → ℕ
      → Queue P
      → Queue P × Option (Claim P)
  unfolding reclaim claim_queued lease_item
  claim_command max_deliveries clock eligible before later lease_ms q =
      let r = reclaimed max_deliveries clock eligible q in
      let date = now clock r.last_timestamp in
      let start = if later then now clock date else date in
      lease_item (start + lease_ms) start (claim_queued (ready date eligible) before r.queued)
        (record r { last_timestamp = date })

  pub ack : ℕ → ℕ → Queue P → Outcome LeaseError (Queue P)
  ack id token q =
      if matches_claim (find_claim id q.claimed) token
      then ok (record q { claimed = delete_claim id q.claimed })
      else err stale_ack

  pub heartbeat : ℕ → ℕ → ℕ → ℕ → Queue P → Outcome LeaseError (Queue P)
  heartbeat id token lease_ms clock q =
      if matches_claim (find_claim id q.claimed) token
      then ok (record q {
        last_timestamp = now clock q.last_timestamp;
        claimed = extend_claim id (now clock q.last_timestamp + lease_ms) q.claimed;
      })
      else err lease_lost

  pub releasing : ℕ → ℕ → ReleaseOptions → ℕ → Option (Claimed P) → Queue P → Queue P
  unfolding release_queue_item
  releasing max_deliveries token options clock none q = q
  releasing max_deliveries token options clock (some c) q =
      if c.lease_token == token
      then (let released =
            release_queue_item max_deliveries clock q.last_timestamp options c.item in
          record q {
            last_timestamp = released.1;
            queued = q.queued ++ released.0 ∷ [];
            claimed = delete_claim c.item.id q.claimed;
          })
      else q

  pub release : ℕ → ℕ → ℕ → ReleaseOptions → ℕ → Queue P → Queue P
  unfolding releasing
  release max_deliveries id token options clock q =
      releasing max_deliveries token options clock (find_claim id q.claimed) q

  abbrev delete_items : (Item P → Bool) → List (Item P) → List (Item P)
  delete_items goes [] = []
  delete_items goes (x ∷ xs) = let rest = delete_items goes xs in if goes x then rest else x ∷ rest

  abbrev revived : Item P → Item P
  revived item = queue_item item.id item.payload none item.created_at

  pub requeueing : Option (ℕ × Item P × List (Item P)) → Queue P → Queue P × Bool
  unfolding replace_at
  requeueing none q = (q, false)
  requeueing (some (i, x, rest)) q = (record q { queued = replace_at i (revived x) q.queued }, true)

  pub requeue_dead : ℕ → Queue P → Queue P × Bool
  unfolding requeueing find_first
  requeue_dead id q =
      requeueing (find_first (λ item. item.id == id && not (is_live item)) 0 q.queued) q

  -- `deleteUnclaimed` (without the count), `deleteQueueItemsForRunIds` and `sweepDeadQueueItems`.
  pub delete_queued : (Item P → Bool) → Queue P → Queue P
  delete_queued goes q = record q { queued = delete_items goes q.queued }

  abbrev pub is_swept : ℕ → Item P → Bool
  is_swept dead_before item = swept dead_before item.dead_at
