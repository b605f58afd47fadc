-- ===== src/Workflows/Commands/Takeover.antt =====
-- What becomes of an acknowledgement when the command's lease was taken over.
use neemata.Common.{
  ℕ, ◌≤◌, ◌<◌, ◌≡◌, refl, ap, ◌∙◌, ◌⊎◌, inl, inr, Bool, Option, none, some, List, arith, ◌==◌,
  if◌then◌else◌, ok, err, Bool-cases,
}
use neemata.Workflows.Items.{Item, now}
use neemata.Workflows.Commands.{
  Queue, Claim, stale_ack, find_claim, delete_claim, matches_claim, reclaimed, ready, claim_queued,
  lease_item, claim_command, ack,
}
use neemata.Workflows.Commands.Held.{held, claims, claims-delete_claim}
use neemata.Workflows.Commands.Keeps.{Inv, claim_command-Inv, claim_command-held}
use neemata.Workflows.Commands.Steps.{Reach, here, next, Step-Inv}
use neemata.Workflows.Commands.Acks.{
  leases, leases-append, leases-le, leases-le-claims, matches-leases, leases-matches, IsStale,
  Reach-IsStale,
}

module _ {P : Type 0} where
  -- An acknowledgement of a command under a token removes that command and no other, if the command
  -- is claimed under that token, and else is refused.
  abbrev pub Acked : ℕ → ℕ → Queue P → Type 0
  Acked id token q =
      ((leases id token q.claimed ≡ 1)
        × ((r : Queue P) × (ack id token q ≡ ok r)
            × ((j : ℕ) → held j r ≡ (if j == id then 0 else held j q))))
      ⊎ ((leases id token q.claimed ≡ 0) × (ack id token q ≡ err stale_ack))

  module _ (max : ℕ) where
    acked : (id token : ℕ) (q : Queue P) → Inv max q → Acked id token q
    unfolding ack
    acked id token q v = elim (Bool-cases (matches_claim (find_claim id q.claimed) token)) [
      | inl e ↦
          let there : 1 ≤ leases id token q.claimed = matches-leases id token q.claimed e in
          let few : leases id token q.claimed ≤ claims id q.claimed =
            leases-le-claims id token q.claimed in
          inl (
            omega (arith, there, few, v.once id),
            (
              record q { claimed = delete_claim id q.claimed },
              rw e refl,
              λ j. rw claims-delete_claim (ground (arith, there, few, v.once j, v.once id)),
            ),
          )
      | inr e ↦ inr (leases-matches id token q.claimed (omega (arith, v.once id)) e, rw e refl)
    ]

    -- A claim is under the next id.
    leased-new :
        (expires last : ℕ) (o : Option (Item P × List (Item P))) (q : Queue P) (c : Claim P)
        → (lease_item expires last o q).1 ≡ some c
        → (c.lease_token ≡ q.next_id)
          × (1 ≤ leases c.id c.lease_token (lease_item expires last o q).0.claimed)
    unfolding lease_item
    leased-new expires last none q c e = absurd (ground (arith, e))
    leased-new expires last (some (item, rest)) q c e =
        (ground (arith, e), rw leases-append (ground (arith, e)))

    claimed-new :
        (clock : ℕ) (eligible : P → Bool) (before : Item P → Item P → Bool) (delayed : Bool)
        (lease_ms : ℕ) (q : Queue P) (c : Claim P)
        → (claim_command max clock eligible before delayed lease_ms q).1 ≡ some c
        → (c.lease_token ≡ q.next_id)
          × (1
              ≤ leases c.id c.lease_token
                  (claim_command max clock eligible before delayed lease_ms q).0.claimed)
    unfolding claim_command reclaimed
    claimed-new clock eligible before delayed lease_ms q c e =
        leased-new _ _
          (claim_queued (ready (now clock (reclaimed max clock eligible q).last_timestamp) eligible)
            before (reclaimed max clock eligible q).queued)
          (record (reclaimed max clock eligible q) {
            last_timestamp = now clock (reclaimed max clock eligible q).last_timestamp;
          })
          c e

    -- Claiming draws ids, and gives none back.
    leased-le :
        (expires last : ℕ) (o : Option (Item P × List (Item P))) (q : Queue P)
        → q.next_id ≤ (lease_item expires last o q).0.next_id
    unfolding lease_item
    leased-le expires last none q = omega arith
    leased-le expires last (some (item, rest)) q = omega arith

    claimed-le :
        (clock : ℕ) (eligible : P → Bool) (before : Item P → Item P → Bool) (delayed : Bool)
        (lease_ms : ℕ) (q : Queue P)
        → q.next_id ≤ (claim_command max clock eligible before delayed lease_ms q).0.next_id
    unfolding claim_command reclaimed
    claimed-le clock eligible before delayed lease_ms q =
        leased-le _ _
          (claim_queued (ready (now clock (reclaimed max clock eligible q).last_timestamp) eligible)
            before (reclaimed max clock eligible q).queued)
          (record (reclaimed max clock eligible q) {
            last_timestamp = now clock (reclaimed max clock eligible q).last_timestamp;
          })

    reached-Inv : {q r : Queue P} → 1 ≤ max → Reach max q r → Inv max q → Inv max r
    reached-Inv m here v = v
    reached-Inv m (next r s) v = Step-Inv max m s (reached-Inv m r v)

    refused :
        (id token : ℕ) (q : Queue P)
        → leases id token q.claimed ≡ 0
        → Acked id token q
        → ack id token q ≡ err stale_ack
    refused id token q e (inl a) = absurd (omega (arith, e, a.0))
    refused id token q e (inr a) = a.1

    removed :
        (id token : ℕ) (q : Queue P)
        → 1 ≤ leases id token q.claimed
        → Acked id token q
        → (s : Queue P) × (ack id token q ≡ ok s)
          × ((j : ℕ) → held j s ≡ (if j == id then 0 else held j q))
    removed id token q h (inl a) = a.1
    removed id token q h (inr a) = absurd (omega (arith, h, a.0))

    -- Let a worker claim a command from a queue with the invariant, with a limit of at least one
    -- delivery, also one whose lease it takes over. Its ack removes that command and no other. After
    -- whatever operations follow, every ack of this command with a token that was handed out before
    -- the claim, such as the one of a lease that was taken over, is refused as stale. And any ack then
    -- removes its command and no other if the command is claimed under the ack's token, and is refused
    -- as stale if it is not.
    pub ack-held :
        (clock : ℕ) (eligible : P → Bool) (before : Item P → Item P → Bool) (delayed : Bool)
        (lease_ms : ℕ) (q r : Queue P) (c : Claim P) (old id token : ℕ)
        → 1 ≤ max
        → Inv max q
        → old < q.next_id
        → (claim_command max clock eligible before delayed lease_ms q).1 ≡ some c
        → Reach max (claim_command max clock eligible before delayed lease_ms q).0 r
        → Acked id token r
          × (ack c.id old r ≡ err stale_ack)
          × ((s : Queue P) × (ack c.id c.lease_token
                  (claim_command max clock eligible before delayed lease_ms q).0
                ≡ ok s)
              × ((j : ℕ) → held j s ≡ (if j == c.id then 0 else held j q)))
    ack-held clock eligible before delayed lease_ms q r c old id token m v drawn taken reached =
        let q' : Queue P = (claim_command max clock eligible before delayed lease_ms q).0 in
        let v' : Inv max q' = claim_command-Inv max clock eligible before delayed lease_ms q v in
        let vr : Inv max r = reached-Inv m reached v' in
        let new = claimed-new clock eligible before delayed lease_ms q c taken in
        let both = leases-le c.id old c.lease_token q'.claimed (omega (arith, drawn, new.0)) in
        let few : claims c.id q'.claimed ≤ 1 = omega (arith, v'.once c.id) in
        let stale : IsStale c.id old q' = record {
          drawn = omega (arith, drawn, claimed-le clock eligible before delayed lease_ms q);
          unleased = omega (arith, both, few, new.1);
        } in
        let (s, answer, kept) =
          removed c.id c.lease_token q' new.1 (acked c.id c.lease_token q' v') in
        (
          acked id token r vr,
          refused c.id old r (Reach-IsStale max c.id old reached stale).unleased
              (acked c.id old r vr),
          (
            s,
            answer,
            λ j.
                kept j
                ∙ ap (λ n. if j == c.id then 0 else n)
                    (claim_command-held max clock eligible before delayed lease_ms q j v),
          ),
        )
