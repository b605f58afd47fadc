-- ===== src/Pubsub/Received.antt =====
-- What a consumer receives of what is published.
use neemata.Common.{
  ℕ, ◌+◌, ◌≤◌, ◌≡◌, refl, ap, ◌∙◌, Bool, true, false, Option, none, some, List, [], ◌∷◌, map,
  if◌then◌else◌, arith, if_intro, ◌⊎◌, inl, inr,
}
use neemata.Pubsub.{
  Publication, Choice, Subscription, select_events, new_subscription, looping, publish,
  decode_message, SubscriptionEvent, reads, answers, destroys, subscription_step,
}
use neemata.Pubsub.Delivery.{
  wants, mem-select_events, wanted, stream_of, flag, cons_some, deliveries, Inv, looping-Inv,
  destroy-Inv, resuming-Inv,
}

module _ (encode : ℕ → ℕ → ℕ) (decode : ℕ → ℕ → Option ℕ) where
  module _ (events : List ℕ) where
    -- A call of `read` while none runs.
    unread :
        (s : Subscription)
        → s.pumping ≡ false
        → Inv encode decode events s
        → Inv encode decode events (looping (record s { pumping = true }))
    unread s e v =
        looping-Inv encode decode events (record s { pumping = true })
          (record {
            busy = refl;
            alone = idle_waiting s.pumping s.waiting v.ends e v.few;
            shape =
                v.shape
                ∙ ap (λ k. stream_of k (deliveries encode decode events s.taken))
                    (idle_ends s.pumping s.waiting v.ends e v.few);
            freed = v.freed;
          })
      where
        idle_waiting : (b : Bool) (n k : ℕ) → b ≡ false → n + k ≤ flag b → n ≡ 0
        idle_waiting b n k e h = ground (arith, e, h)

        idle_ends : (b : Bool) (n k : ℕ) → b ≡ false → n + k ≤ flag b → k ≡ 0
        idle_ends b n k e h = ground (arith, e, h)

    subscription_step-Inv :
        (e : SubscriptionEvent encode decode) (s : Subscription)
        → Inv encode decode events s
        → Inv encode decode events (subscription_step encode decode events e s)
    unfolding subscription_step
    subscription_step-Inv reads s v =
        if_intro (Inv encode decode events) s.pumping s (looping (record s { pumping = true }))
          (λ _. v) (λ e. unread s e v)
    subscription_step-Inv (answers a more leaves) s v =
        resuming-Inv encode decode events s.waiting a more leaves s refl v
    subscription_step-Inv destroys s v = destroy-Inv encode decode events s v

    -- What the calls of `read`, the answers of the iterator and `destroy`, in any order, make of a
    -- subscription to some events.
    pub data Reach : Subscription → Type 0 where
      start : Reach new_subscription
      next :
          {s : Subscription}
          → Reach s
          → (e : SubscriptionEvent encode decode)
          → Reach (subscription_step encode decode events e s)

    reach-Inv : {s : Subscription} → Reach s → Inv encode decode events s
    reach-Inv start = record {
      ends = 0;
      shape = refl;
      few = omega arith;
      awake = λ _. refl;
      freed = refl;
    }
    reach-Inv (next {s} r e) = subscription_step-Inv e s (reach-Inv r)

  module _
      (decode-encode : (event payload : ℕ) → decode event (encode event payload) ≡ some payload)
      (choices : Option (List Choice)) (available : List ℕ) where
    -- A published message is delivered if it is wanted.
    delivered_one :
        (p : Publication) (ps : List Publication)
        → cons_some
            (decode_message encode decode
              (select_events choices available)
              (publish encode decode p))
            ps
          ≡ (if wants choices available p.event then p ∷ ps else ps)
    delivered_one p ps =
        rw (mem-select_events choices available p.event, decode-encode p.event p.payload)
          (if_intro (λ o. cons_some o ps ≡ (if wants choices available p.event then p ∷ ps else ps))
            (wants choices available p.event) (some p) none (λ e. rw e refl) (λ e. rw e refl))

    deliveries-publish :
        (ps : List Publication)
        → deliveries encode decode
            (select_events choices available)
            (map (publish encode decode) ps)
          ≡ wanted (wants choices available) ps
    deliveries-publish [] = refl
    deliveries-publish (p ∷ ps) =
        delivered_one p (
          deliveries encode decode (select_events choices available)
            (map (publish encode decode) ps))
        ∙ ap (λ l. if wants choices available p.event then p ∷ l else l) (deliveries-publish ps)

  -- Let the contracts' schemas decode what they encoded. However the calls of `read`, the answers of
  -- the adapter and the destruction of a subscription follow each other: when it has taken some
  -- published messages, its consumer was pushed the publications of the events that it wants among
  -- them, each once and in their order, and behind these at most one end; the adapter's subscription
  -- is aborted once the stream is destroyed, and only then; and unless it is destroyed, a stream
  -- either has ended, or waits for the next message in exactly one call of `read`, or will take it up
  -- at the next call.
  pub published-received :
      (decode-encode : (event payload : ℕ) → decode event (encode event payload) ≡ some payload)
      (choices : Option (List Choice)) (available : List ℕ) (s : Subscription)
      (ps : List Publication)
      → Reach (select_events choices available) s
      → s.taken ≡ map (publish encode decode) ps
      → (ends : ℕ) × (s.pushed ≡ stream_of ends (wanted (wants choices available) ps))
        × (s.waiting + ends ≤ 1)
        × (s.aborted ≡ s.destroyed)
        × ((s.destroyed ≡ true) ⊎ (s.waiting + ends ≡ flag s.pumping))
  published-received decode-encode choices available s ps r at =
      let v = reach-Inv (select_events choices available) r in
      (
        v.ends,
        v.shape
            ∙ ap
                (λ ms.
                  stream_of v.ends (deliveries encode decode (select_events choices available) ms))
                at
            ∙ ap (stream_of v.ends) (deliveries-publish decode-encode choices available ps),
        at_most_one s.pumping (s.waiting + v.ends) v.few,
        v.freed,
        gone_or_awake s.destroyed (s.waiting + v.ends ≡ flag s.pumping) v.awake,
      )
    where
      at_most_one : (b : Bool) (n : ℕ) → n ≤ flag b → n ≤ 1
      at_most_one b n h = ground arith

      gone_or_awake : (b : Bool) (P : Type 0) → (b ≡ false → P) → (b ≡ true) ⊎ P
      gone_or_awake true P h = inl refl
      gone_or_awake false P h = inr (h refl)
