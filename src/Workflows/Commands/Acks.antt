-- ===== src/Workflows/Commands/Acks.antt =====
-- Acknowledgements, also late ones.
use neemata.Common.{
  ℕ, ◌+◌, ◌≤◌, ◌<◌, ◌≡◌, refl, Bool, true, false, not, ◌&&◌, ◌||◌, Option, none, some, List, [],
  ◌∷◌, ◌++◌, arith, ltb, ◌==◌, if◌then◌else◌, if_intro, Outcome,
}
use neemata.Workflows.Items.{
  Item, Claimed, ReleaseOptions, now, or_else, count_failed_delivery, lease_expired_error,
}
use neemata.Workflows.Commands.{
  Queue, LeaseError, find_claim, delete_claim, extend_claim, matches_claim, reclaim, reclaimed,
  ready, claim_queued, lease_item, claim_command, push_new, ack, heartbeat, releasing, release,
  requeueing, requeue_dead, delete_queued,
}
use neemata.Workflows.Commands.Held.{claims}
use neemata.Workflows.Commands.Steps.{
  Step, pushes, updates, takes, acks, beats, releases, requeues, deletes, elsewhere, or_same, Reach,
  here, next,
}

module _ {P : Type 0} where
  -- The claims of a command under a token.
  abbrev pub leases : ℕ → ℕ → List (Claimed P) → ℕ
  leases id token [] = 0
  leases id token (c ∷ cs) =
      (if c.item.id == id && c.lease_token == token then 1 else 0) + leases id token cs

  pub leases-append :
      (id t : ℕ) (xs ys : List (Claimed P))
      → leases id t (xs ++ ys) ≡ leases id t xs + leases id t ys
  leases-append id t [] ys = omega arith
  leases-append id t (x ∷ xs) ys = ground (arith, leases-append id t xs ys)

  leases-delete_claim :
      (id t j : ℕ) (cs : List (Claimed P)) → leases id t (delete_claim j cs) ≤ leases id t cs
  leases-delete_claim id t j [] = omega arith
  leases-delete_claim id t j (c ∷ cs) = ground (arith, leases-delete_claim id t j cs)

  leases-extend_claim :
      (id t j e : ℕ) (cs : List (Claimed P)) → leases id t (extend_claim j e cs) ≡ leases id t cs
  leases-extend_claim id t j e [] = refl
  leases-extend_claim id t j e (c ∷ cs) = ground (arith, leases-extend_claim id t j e cs)

  -- A command has no more claims than under the one token and under the other.
  pub leases-le :
      (id t u : ℕ) (cs : List (Claimed P)) → t < u → leases id t cs + leases id u cs ≤ claims id cs
  leases-le id t u [] lt = omega arith
  leases-le id t u (c ∷ cs) lt = ground (arith, leases-le id t u cs lt)

  pub leases-le-claims : (id t : ℕ) (cs : List (Claimed P)) → leases id t cs ≤ claims id cs
  leases-le-claims id t [] = omega arith
  leases-le-claims id t (c ∷ cs) = ground (arith, leases-le-claims id t cs)

  pub matches-leases :
      (id t : ℕ) (cs : List (Claimed P))
      → matches_claim (find_claim id cs) t ≡ true
      → 1 ≤ leases id t cs
  matches-leases id t [] h = ground (arith, h)
  matches-leases id t (c ∷ cs) h = ground (arith, h, matches-leases id t cs)

  pub leases-matches :
      (id t : ℕ) (cs : List (Claimed P))
      → claims id cs ≤ 1
      → matches_claim (find_claim id cs) t ≡ false
      → leases id t cs ≡ 0
  leases-matches id t [] one h = refl
  leases-matches id t (c ∷ cs) one h =
      ground (arith, h, one, leases-matches id t cs, leases-le-claims id t cs)

  -- A token that was handed out and is not the one of the command's claim.
  pub record IsStale (id old : ℕ) (q : Queue P) : Type 0 where
    pub drawn : old < q.next_id
    pub unleased : leases id old q.claimed ≡ 0

  module _ (max : ℕ) where
    leases-reclaim :
        (id t clock date : ℕ) (eligible : P → Bool) (last : ℕ) (cs : List (Claimed P))
        → leases id t (reclaim max clock date eligible last cs).0 ≤ leases id t cs
    unfolding reclaim
    leases-reclaim id t clock date eligible last [] = omega arith
    leases-reclaim id t clock date eligible last (c ∷ cs) =
        let stays : Bool = ltb date c.lease_expires_at || not (eligible c.item.payload) in
        let counted =
          count_failed_delivery max clock last (or_else c.item.last_error lease_expired_error)
            c.item in
        let others =
          leases-reclaim id t clock date eligible (if stays then last else counted.1) cs in
        if_intro
          (λ (r : List (Claimed P) × List (Item P) × ℕ). leases id t r.0 ≤ leases id t (c ∷ cs))
          stays _ _ (λ _. omega (arith, others)) (λ _. omega (arith, others))

    lease_item-IsStale :
        (id old expires last : ℕ) (o : Option (Item P × List (Item P))) (q : Queue P)
        → IsStale id old q
        → IsStale id old (lease_item expires last o q).0
    unfolding lease_item
    lease_item-IsStale id old expires last none q v = v
    lease_item-IsStale id old expires last (some (item, rest)) q v = record {
      drawn = omega (arith, v.drawn);
      unleased = rw leases-append (ground (arith, v.unleased, v.drawn));
    }

    claim_command-IsStale :
        (id old clock : ℕ) (eligible : P → Bool) (before : Item P → Item P → Bool) (delayed : Bool)
        (lease_ms : ℕ) (q : Queue P)
        → IsStale id old q
        → IsStale id old (claim_command max clock eligible before delayed lease_ms q).0
    unfolding claim_command reclaimed
    claim_command-IsStale id old clock eligible before delayed lease_ms q v =
        let r : Queue P = reclaimed max clock eligible q in
        lease_item-IsStale id old _ _
          (claim_queued (ready (now clock r.last_timestamp) eligible) before r.queued)
          (record r { last_timestamp = now clock r.last_timestamp })
          (record {
            drawn = v.drawn;
            unleased = omega (
              arith,
              leases-reclaim id old clock (now clock q.last_timestamp) eligible
                  (now clock q.last_timestamp) q.claimed,
              v.unleased,
            );
          })

    releasing-IsStale :
        (id old token : ℕ) (options : ReleaseOptions) (clock : ℕ) (o : Option (Claimed P))
        (q : Queue P)
        → IsStale id old q
        → IsStale id old (releasing max token options clock o q)
    unfolding releasing
    releasing-IsStale id old token options clock none q v = v
    releasing-IsStale id old token options clock (some c) q v =
        if_intro (IsStale id old) (c.lease_token == token) _ q
          (λ _. record {
            drawn = v.drawn;
            unleased = omega (arith, leases-delete_claim id old c.item.id q.claimed, v.unleased);
          })
          (λ _. v)

    requeueing-IsStale :
        (id old : ℕ) (o : Option (ℕ × Item P × List (Item P))) (q : Queue P)
        → IsStale id old q
        → IsStale id old (requeueing o q).0
    unfolding requeueing
    requeueing-IsStale id old none q v = v
    requeueing-IsStale id old (some r) q v = record { drawn = v.drawn; unleased = v.unleased }

    Step-IsStale : {q r : Queue P} (id old : ℕ) → Step max q r → IsStale id old q → IsStale id old r
    unfolding push_new ack heartbeat release requeue_dead delete_queued
    Step-IsStale id old (pushes payload run_at clock) v = record {
      drawn = omega (arith, v.drawn);
      unleased = v.unleased;
    }
    Step-IsStale id old (updates i x payload run_at at) v = record {
      drawn = v.drawn;
      unleased = v.unleased;
    }
    Step-IsStale {q} id old (takes clock eligible before delayed lease_ms) v =
        claim_command-IsStale id old clock eligible before delayed lease_ms q v
    Step-IsStale {q} id old (acks j token) v =
        if_intro (λ (o : Outcome LeaseError (Queue P)). IsStale id old (or_same max q o))
          (matches_claim (find_claim j q.claimed) token) _ _
          (λ _. record {
            drawn = v.drawn;
            unleased = omega (arith, leases-delete_claim id old j q.claimed, v.unleased);
          })
          (λ _. v)
    Step-IsStale {q} id old (beats j token lease_ms clock) v =
        if_intro (λ (o : Outcome LeaseError (Queue P)). IsStale id old (or_same max q o))
          (matches_claim (find_claim j q.claimed) token) _ _
          (λ _. record { drawn = v.drawn; unleased = rw leases-extend_claim v.unleased }) (λ _. v)
    Step-IsStale {q} id old (releases j token options clock) v =
        releasing-IsStale id old token options clock (find_claim j q.claimed) q v
    Step-IsStale {q} id old (requeues j) v = requeueing-IsStale id old _ q v
    Step-IsStale id old (deletes goes) v = record { drawn = v.drawn; unleased = v.unleased }
    Step-IsStale id old (elsewhere n last h) v = record {
      drawn = omega (arith, v.drawn, h);
      unleased = v.unleased;
    }

    pub Reach-IsStale :
        {q r : Queue P} (id old : ℕ) → Reach max q r → IsStale id old q → IsStale id old r
    Reach-IsStale id old here v = v
    Reach-IsStale id old (next r s) v = Step-IsStale id old s (Reach-IsStale id old r v)
