-- ===== src/Workflows/Commands/Keeps.antt =====
-- What each operation on a queue keeps.
use neemata.Common.{
  ℕ, ◌+◌, ◌≤◌, ◌≡◌, refl, ◌∙◌, Bool, true, not, ◌||◌, Option, none, some, List, [], ◌∷◌, arith, ltb,
  ◌==◌, if◌then◌else◌, if_intro,
}
use neemata.Wire.Utf8.{Text}
use neemata.Workflows.Items.{
  Item, Claimed, ReleaseOptions, is_live, count_failed_delivery, release_queue_item, or_else,
  lease_expired_error, now,
}
use neemata.Workflows.Commands.{
  Queue, reclaim, reclaimed, ready, find_claim, push_new, lease_item, claim_command, claimable,
  releasing,
}
use neemata.Workflows.Commands.Places.{copies, copies-append, copies-remove_at}
use neemata.Workflows.Commands.Taking.{Taken, claim_queued-Taken}
use neemata.Workflows.Commands.Held.{
  claims, tokens, held, is_counted, all_counted, all_live, claims-append, tokens-append,
  all_counted-append, all_live-append, all_counted-nth, all_counted-remove_at, claims-delete_claim,
  tokens-delete_claim, all_live-delete_claim, find_claim-some,
}

module _ {P : Type 0} (max : ℕ) where
  -- Every command is in one place; ids and lease tokens are not used twice; an item is dead exactly
  -- if it has used up its deliveries, and a claimed one is not.
  pub record Inv (q : Queue P) : Type 0 where
    pub once : (id : ℕ) → held id q ≤ 1
    pub fresh : (id : ℕ) → q.next_id ≤ id → held id q ≡ 0
    pub leased : (t : ℕ) → tokens t q.claimed ≤ 1
    pub unleased : (t : ℕ) → q.next_id ≤ t → tokens t q.claimed ≡ 0
    pub counted : all_counted max q.queued ≡ true
    pub alive : all_live max q.claimed ≡ true

  count_failed_delivery-keeps :
      (clock last : ℕ) (error : Text) (item : Item P)
      → is_live item ≡ true
      → is_counted max item ≡ true
      → ((count_failed_delivery max clock last error item).0.id ≡ item.id)
        × (is_counted max (count_failed_delivery max clock last error item).0 ≡ true)
  unfolding count_failed_delivery
  count_failed_delivery-keeps clock last error item l c = ground arith

  release_queue_item-keeps :
      (clock last : ℕ) (options : ReleaseOptions) (item : Item P)
      → is_live item ≡ true
      → is_counted max item ≡ true
      → ((release_queue_item max clock last options item).0.id ≡ item.id)
        × (is_counted max (release_queue_item max clock last options item).0 ≡ true)
  unfolding release_queue_item count_failed_delivery
  release_queue_item-keeps clock last options item l c = ground arith

  record IsReclaimed (cs : List (Claimed P)) (r : List (Claimed P) × List (Item P) × ℕ)
      : Type 0 where
    places : (id : ℕ) → copies id r.1 + claims id r.0 ≡ claims id cs
    leases : (t : ℕ) → tokens t r.0 ≤ tokens t cs
    counts : all_counted max r.1 ≡ true
    lives : all_live max r.0 ≡ true

  reclaim-IsReclaimed :
      (clock date last : ℕ) (eligible : P → Bool) (cs : List (Claimed P))
      → all_live max cs ≡ true
      → IsReclaimed cs (reclaim max clock date eligible last cs)
  unfolding reclaim
  reclaim-IsReclaimed clock date last eligible [] h = record {
    places = λ id. omega arith;
    leases = λ t. omega arith;
    counts = refl;
    lives = refl;
  }
  reclaim-IsReclaimed clock date last eligible (c ∷ cs) h =
      let stays : Bool = ltb date c.lease_expires_at || not (eligible c.item.payload) in
      let counted : Item P × ℕ =
        count_failed_delivery max clock last (or_else c.item.last_error lease_expired_error)
          c.item in
      let kept =
        count_failed_delivery-keeps clock last (or_else c.item.last_error lease_expired_error)
          c.item (ground arith) (ground arith) in
      let others : List (Claimed P) × List (Item P) × ℕ =
        reclaim max clock date eligible (if stays then last else counted.1) cs in
      let v =
        reclaim-IsReclaimed clock date (if stays then last else counted.1) eligible cs
          (ground arith) in
      if_intro (IsReclaimed (c ∷ cs)) stays (c ∷ others.0, others.1, others.2)
        (others.0, counted.0 ∷ others.1, others.2)
        (λ _. record {
          places = λ id. ground (arith, v.places id);
          leases = λ t. ground (arith, v.leases t);
          counts = v.counts;
          lives = ground (arith, v.lives);
        })
        (λ _. record {
          places = λ id. ground (arith, v.places id, kept.0);
          leases = λ t. ground (arith, v.leases t);
          counts = ground (arith, v.counts, kept.1);
          lives = v.lives;
        })

  pub push_new-Inv :
      (payload : P) (run_at : Option ℕ) (clock : ℕ) (q : Queue P)
      → 1 ≤ max
      → Inv q
      → Inv (push_new payload run_at clock q)
  unfolding push_new
  push_new-Inv payload run_at clock q some_delivery v = record {
    once = λ id. rw copies-append (ground (arith, v.once id, v.fresh id));
    fresh = λ id h. rw copies-append (ground (arith, v.fresh id));
    leased = v.leased;
    unleased = λ t h. v.unleased t (omega arith);
    counted = rw all_counted-append (ground (arith, v.counted));
    alive = v.alive;
  }

  reclaimed-Inv :
      (clock : ℕ) (eligible : P → Bool) (q : Queue P) → Inv q → Inv (reclaimed max clock eligible q)
  unfolding reclaimed
  reclaimed-Inv clock eligible q v =
      let r =
        reclaim-IsReclaimed clock (now clock q.last_timestamp) (now clock q.last_timestamp) eligible
          q.claimed v.alive in
      record {
        once = λ id. rw copies-append (omega (arith, r.places id, v.once id));
        fresh = λ id h. rw copies-append (omega (arith, r.places id, v.fresh id h));
        leased = λ t. omega (arith, r.leases t, v.leased t);
        unleased = λ t h. omega (arith, r.leases t, v.unleased t h);
        counted = rw all_counted-append (ground (arith, v.counted, r.counts));
        alive = r.lives;
      }

  pub reclaimed-held :
      (clock : ℕ) (eligible : P → Bool) (q : Queue P) (id : ℕ)
      → Inv q
      → held id (reclaimed max clock eligible q) ≡ held id q
  unfolding reclaimed
  reclaimed-held clock eligible q id v =
      let r =
        reclaim-IsReclaimed clock (now clock q.last_timestamp) (now clock q.last_timestamp) eligible
          q.claimed v.alive in
      rw copies-append (omega (arith, r.places id))

  -- Under a new token, an item that was taken out of the queue is claimed.
  lease_item-Inv :
      (p : Item P → Bool) (expires last : ℕ) (o : Option (Item P × List (Item P))) (q : Queue P)
      → Taken (claimable p) q.queued o
      → Inv q
      → Inv (lease_item expires last o q).0
  unfolding lease_item
  lease_item-Inv p expires last none q t v = v
  lease_item-Inv p expires last (some (x, left)) q t v =
      let gone : (id : ℕ) → (if x.id == id then 1 else 0) + copies id left ≡ copies id q.queued =
        λ id. rw t.removed (copies-remove_at id t.index x q.queued t.stood) in
      record {
        once = λ id. rw claims-append (ground (arith, v.once id, gone id));
        fresh = λ id h. rw claims-append (ground (arith, v.fresh id, gone id));
        leased = λ u. rw tokens-append (ground (arith, v.leased u, v.unleased u));
        unleased = λ u h. rw tokens-append (ground (arith, v.unleased u));
        counted = rw t.removed (all_counted-remove_at max t.index q.queued v.counted);
        alive = rw all_live-append (
            ground
              (arith, v.alive, t.passes, all_counted-nth max t.index x q.queued t.stood v.counted));
      }

  lease_item-held :
      (p : Item P → Bool) (expires last : ℕ) (o : Option (Item P × List (Item P))) (q : Queue P)
      (id : ℕ)
      → Taken (claimable p) q.queued o
      → held id (lease_item expires last o q).0 ≡ held id q
  unfolding lease_item
  lease_item-held p expires last none q id t = refl
  lease_item-held p expires last (some (x, left)) q id t =
      rw (claims-append, t.removed) (ground (arith, copies-remove_at id t.index x q.queued t.stood))

  pub stamped-Inv : (last : ℕ) (q : Queue P) → Inv q → Inv (record q { last_timestamp = last })
  stamped-Inv last q v = record {
    once = v.once;
    fresh = v.fresh;
    leased = v.leased;
    unleased = v.unleased;
    counted = v.counted;
    alive = v.alive;
  }

  pub claim_command-Inv :
      (clock : ℕ) (eligible : P → Bool) (before : Item P → Item P → Bool) (delayed : Bool)
      (lease_ms : ℕ) (q : Queue P)
      → Inv q
      → Inv (claim_command max clock eligible before delayed lease_ms q).0
  unfolding claim_command
  claim_command-Inv clock eligible before delayed lease_ms q v =
      let r : Queue P = reclaimed max clock eligible q in
      lease_item-Inv (ready (now clock r.last_timestamp) eligible) _ _ _
        (record r { last_timestamp = now clock r.last_timestamp })
        (claim_queued-Taken (ready (now clock r.last_timestamp) eligible) before r.queued)
        (stamped-Inv _ r (reclaimed-Inv clock eligible q v))

  pub claim_command-held :
      (clock : ℕ) (eligible : P → Bool) (before : Item P → Item P → Bool) (delayed : Bool)
      (lease_ms : ℕ) (q : Queue P) (id : ℕ)
      → Inv q
      → held id (claim_command max clock eligible before delayed lease_ms q).0 ≡ held id q
  unfolding claim_command
  claim_command-held clock eligible before delayed lease_ms q id v =
      let r : Queue P = reclaimed max clock eligible q in
      lease_item-held (ready (now clock r.last_timestamp) eligible) _ _ _
        (record r { last_timestamp = now clock r.last_timestamp }) id
        (claim_queued-Taken (ready (now clock r.last_timestamp) eligible) before r.queued)
      ∙ reclaimed-held clock eligible q id v

  pub releasing-Inv :
      (id token : ℕ) (options : ReleaseOptions) (clock : ℕ) (o : Option (Claimed P)) (q : Queue P)
      → find_claim id q.claimed ≡ o
      → Inv q
      → Inv (releasing max token options clock o q)
  unfolding releasing
  releasing-Inv id token options clock none q e v = v
  releasing-Inv id token options clock (some c) q e v =
      let found = find_claim-some max id c q.claimed e v.alive in
      let kept = release_queue_item-keeps clock q.last_timestamp options c.item found.2 found.3 in
      if_intro Inv (c.lease_token == token) _ q
        (λ _. record {
          once = λ j.
              rw (copies-append, claims-delete_claim)
                (ground (arith, v.once j, kept.0, found.0, found.1));
          fresh = λ j h.
              rw (copies-append, claims-delete_claim)
                (ground (arith, v.fresh j, kept.0, found.0, found.1));
          leased = λ t. omega (arith, tokens-delete_claim t c.item.id q.claimed, v.leased t);
          unleased =
              λ t h. omega (arith, tokens-delete_claim t c.item.id q.claimed, v.unleased t h);
          counted = rw all_counted-append (ground (arith, v.counted, kept.1));
          alive = all_live-delete_claim max c.item.id q.claimed v.alive;
        })
        (λ _. v)

  pub releasing-held :
      (id token : ℕ) (options : ReleaseOptions) (clock : ℕ) (o : Option (Claimed P)) (q : Queue P)
      (j : ℕ)
      → find_claim id q.claimed ≡ o
      → Inv q
      → held j (releasing max token options clock o q) ≡ held j q
  unfolding releasing
  releasing-held id token options clock none q j e v = refl
  releasing-held id token options clock (some c) q j e v =
      let found = find_claim-some max id c q.claimed e v.alive in
      let kept = release_queue_item-keeps clock q.last_timestamp options c.item found.2 found.3 in
      if_intro (λ (r : Queue P). held j r ≡ held j q) (c.lease_token == token) _ q
        (λ _.
          rw (copies-append, claims-delete_claim)
            (ground (arith, v.once j, kept.0, found.0, found.1)))
        (λ _. refl)
