-- ===== src/Workflows/Commands/Steps.antt =====
-- The operations on a queue in any order.
use neemata.Common.{
  ℕ, ◌≤◌, ◌≡◌, refl, ap, ◌∙◌, Bool, true, not, ◌&&◌, Option, none, some, List, [], arith, ◌==◌,
  if_intro, Outcome, ok, err,
}
use neemata.Workflows.Items.{Item, ReleaseOptions, is_live}
use neemata.Workflows.Commands.{
  Queue, LeaseError, find_claim, delete_claim, extend_claim, matches_claim, replace_at, push_new,
  claim_command, ack, heartbeat, release, requeueing, requeue_dead, delete_queued, revived,
}
use neemata.Workflows.Commands.Places.{nth, copies-replace_at, Found, find_first-Found}
use neemata.Workflows.Commands.Held.{
  held, is_counted, all_counted-nth, all_counted-replace_at, all_counted-delete_items,
  copies-delete_items, claims-delete_claim, tokens-delete_claim, all_live-delete_claim,
  claims-extend_claim, tokens-extend_claim, all_live-extend_claim,
}
use neemata.Workflows.Commands.Keeps.{
  Inv, push_new-Inv, claim_command-Inv, claim_command-held, releasing-Inv, releasing-held,
  stamped-Inv,
}

module _ {P : Type 0} (max : ℕ) where
  updated-Inv :
      (i : ℕ) (x y : Item P) (q : Queue P)
      → nth i q.queued ≡ some x
      → x.id ≡ y.id
      → is_counted max y ≡ true
      → Inv max q
      → Inv max (record q { queued = replace_at i y q.queued })
  updated-Inv i x y q at same c v = record {
    once = λ id. omega (arith, copies-replace_at id i x y q.queued at same, v.once id);
    fresh = λ id h. omega (arith, copies-replace_at id i x y q.queued at same, v.fresh id h);
    leased = v.leased;
    unleased = v.unleased;
    counted = all_counted-replace_at max i y q.queued c v.counted;
    alive = v.alive;
  }

  unclaimed-Inv :
      (id : ℕ) (q : Queue P)
      → Inv max q
      → Inv max (record q { claimed = delete_claim id q.claimed })
  unclaimed-Inv id q v = record {
    once = λ j. rw claims-delete_claim (ground (arith, v.once j));
    fresh = λ j h. rw claims-delete_claim (ground (arith, v.fresh j));
    leased = λ t. omega (arith, tokens-delete_claim t id q.claimed, v.leased t);
    unleased = λ t h. omega (arith, tokens-delete_claim t id q.claimed, v.unleased t h);
    counted = v.counted;
    alive = all_live-delete_claim max id q.claimed v.alive;
  }

  extended-Inv :
      (id expires : ℕ) (q : Queue P)
      → Inv max q
      → Inv max (record q { claimed = extend_claim id expires q.claimed })
  extended-Inv id expires q v = record {
    once = λ j. rw claims-extend_claim (v.once j);
    fresh = λ j h. rw claims-extend_claim (v.fresh j h);
    leased = λ t. rw tokens-extend_claim (v.leased t);
    unleased = λ t h. rw tokens-extend_claim (v.unleased t h);
    counted = v.counted;
    alive = rw all_live-extend_claim v.alive;
  }

  deleted-Inv : (goes : Item P → Bool) (q : Queue P) → Inv max q → Inv max (delete_queued goes q)
  unfolding delete_queued
  deleted-Inv goes q v = record {
    once = λ id. omega (arith, copies-delete_items id goes q.queued, v.once id);
    fresh = λ id h. omega (arith, copies-delete_items id goes q.queued, v.fresh id h);
    leased = v.leased;
    unleased = v.unleased;
    counted = all_counted-delete_items max goes q.queued v.counted;
    alive = v.alive;
  }

  requeueing-Inv :
      (p : Item P → Bool) (o : Option (ℕ × Item P × List (Item P))) (q : Queue P)
      → 1 ≤ max
      → Found p 0 q.queued o
      → Inv max q
      → Inv max (requeueing o q).0
  unfolding requeueing
  requeueing-Inv p none q m f v = v
  requeueing-Inv p (some (i, x, rest)) q m f v =
      updated-Inv i x (revived x) q (ap (λ k. nth k q.queued) (omega (arith, f.index)) ∙ f.here)
        refl (ground arith) v

  requeueing-held :
      (p : Item P → Bool) (o : Option (ℕ × Item P × List (Item P))) (q : Queue P) (id : ℕ)
      → Found p 0 q.queued o
      → held id (requeueing o q).0 ≡ held id q
  unfolding requeueing
  requeueing-held p none q id f = refl
  requeueing-held p (some (i, x, rest)) q id f = omega (
    arith,
    copies-replace_at id i x (revived x) q.queued
        (ap (λ k. nth k q.queued) (omega (arith, f.index)) ∙ f.here) refl,
  )

  -- In a queue with the invariant, a claim, a release and a requeue move every command that the queue holds to a place in the
  -- queue or to a claimant: they lose none and double none, whatever leases have run out and
  -- whatever the worker is allowed to take.
  pub moved-held :
      (q : Queue P) (clock : ℕ) (eligible : P → Bool) (before : Item P → Item P → Bool)
      (delayed : Bool) (lease_ms id token : ℕ) (options : ReleaseOptions) (j : ℕ)
      → Inv max q
      → (held j (claim_command max clock eligible before delayed lease_ms q).0 ≡ held j q)
        × (held j (release max id token options clock q) ≡ held j q)
        × (held j (requeue_dead id q).0 ≡ held j q)
  unfolding release requeue_dead
  moved-held q clock eligible before delayed lease_ms id token options j v = (
    claim_command-held max clock eligible before delayed lease_ms q j v,
    releasing-held max id token options clock (find_claim id q.claimed) q j refl v,
    requeueing-held (λ item. item.id == id && not (is_live item)) _ q j
        (find_first-Found _ 0 q.queued),
  )

  -- An operation that throws leaves the queue as it is.
  abbrev pub or_same : Queue P → Outcome LeaseError (Queue P) → Queue P
  or_same q (ok r) = r
  or_same q (err e) = q

  -- The operations that change a queue. `updates` is what an enqueue does to a live item that is
  -- there already, and `elsewhere` is the rest of the runtime, which draws ids and times too.
  pub data Step (q : Queue P) : Queue P → Type 0 where
    pushes :
        (payload : P) (run_at : Option ℕ) (clock : ℕ) → Step q (push_new payload run_at clock q)
    updates :
        (i : ℕ) (x : Item P) (payload : P) (run_at : Option ℕ)
        → nth i q.queued ≡ some x
        → Step q (record q {
          queued = replace_at i (record x { payload = payload; run_at = run_at }) q.queued;
        })
    takes :
        (clock : ℕ) (eligible : P → Bool) (before : Item P → Item P → Bool) (delayed : Bool)
        (lease_ms : ℕ)
        → Step q (claim_command max clock eligible before delayed lease_ms q).0
    acks : (id token : ℕ) → Step q (or_same q (ack id token q))
    beats : (id token lease_ms clock : ℕ) → Step q (or_same q (heartbeat id token lease_ms clock q))
    releases :
        (id token : ℕ) (options : ReleaseOptions) (clock : ℕ)
        → Step q (release max id token options clock q)
    requeues : (id : ℕ) → Step q (requeue_dead id q).0
    deletes : (goes : Item P → Bool) → Step q (delete_queued goes q)
    elsewhere :
        (n last : ℕ) → q.next_id ≤ n → Step q (record q { next_id = n; last_timestamp = last })

  pub data Reach (q : Queue P) : Queue P → Type 0 where
    here : Reach q q
    next : {r s : Queue P} → Reach q r → Step r s → Reach q s

  acked-Inv : (id token : ℕ) (q : Queue P) → Inv max q → Inv max (or_same q (ack id token q))
  unfolding ack
  acked-Inv id token q v =
      if_intro (λ (o : Outcome LeaseError (Queue P)). Inv max (or_same q o))
        (matches_claim (find_claim id q.claimed) token) _ _ (λ _. unclaimed-Inv id q v) (λ _. v)

  beaten-Inv :
      (id token lease_ms clock : ℕ) (q : Queue P)
      → Inv max q
      → Inv max (or_same q (heartbeat id token lease_ms clock q))
  unfolding heartbeat
  beaten-Inv id token lease_ms clock q v =
      if_intro (λ (o : Outcome LeaseError (Queue P)). Inv max (or_same q o))
        (matches_claim (find_claim id q.claimed) token) _ _
        (λ _. stamped-Inv max _ _ (extended-Inv id _ q v)) (λ _. v)

  pub Step-Inv : {q r : Queue P} → 1 ≤ max → Step q r → Inv max q → Inv max r
  unfolding release requeue_dead
  Step-Inv {q} m (pushes payload run_at clock) v = push_new-Inv max payload run_at clock q m v
  Step-Inv {q} m (updates i x payload run_at at) v =
      updated-Inv i x (record x { payload = payload; run_at = run_at }) q at refl
        (all_counted-nth max i x q.queued at v.counted) v
  Step-Inv {q} m (takes clock eligible before delayed lease_ms) v =
      claim_command-Inv max clock eligible before delayed lease_ms q v
  Step-Inv {q} m (acks id token) v = acked-Inv id token q v
  Step-Inv {q} m (beats id token lease_ms clock) v = beaten-Inv id token lease_ms clock q v
  Step-Inv {q} m (releases id token options clock) v =
      releasing-Inv max id token options clock (find_claim id q.claimed) q refl v
  Step-Inv {q} m (requeues id) v =
      requeueing-Inv (λ item. item.id == id && not (is_live item)) _ q m
        (find_first-Found _ 0 q.queued) v
  Step-Inv {q} m (deletes goes) v = deleted-Inv goes q v
  Step-Inv {q} m (elsewhere n last h) v = record {
    once = v.once;
    fresh = λ id g. v.fresh id (omega arith);
    leased = v.leased;
    unleased = λ t g. v.unleased t (omega arith);
    counted = v.counted;
    alive = v.alive;
  }

  -- After any operations on an empty queue, with a limit of at least one delivery: each command is
  -- in one place at most, the queue or one claimant; no two claims share a lease token, and no id or
  -- token that was not handed out yet is in use; an item is dead exactly if its failed deliveries
  -- have reached the limit, and none that is claimed is dead.
  pub Queue-Reach-Inv :
      (n last : ℕ) {q : Queue P}
      → 1 ≤ max
      → Reach (record { next_id = n; last_timestamp = last; queued = []; claimed = [] }) q
      → Inv max q
  Queue-Reach-Inv n last m here = record {
    once = λ id. omega arith;
    fresh = λ id h. omega arith;
    leased = λ t. omega arith;
    unleased = λ t h. refl;
    counted = refl;
    alive = refl;
  }
  Queue-Reach-Inv n last m (next r s) = Step-Inv m s (Queue-Reach-Inv n last m r)
