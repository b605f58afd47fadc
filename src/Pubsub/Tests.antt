-- ===== src/Pubsub/Tests.antt =====
-- A subscription to one of two events.
use neemata.Common.{ℕ, ◌+◌, ◌≤◌, ◌≡◌, refl, true, false, Option, none, some, List, [], ◌∷◌, ◌⊎◌}
use neemata.Pubsub.{
  Publication, Choice, Subscription, select_events, new_subscription, publish, message, done, reads,
  answers, subscription_step,
}
use neemata.Pubsub.Delivery.{wants, wanted, stream_of, flag}
use neemata.Pubsub.Received.{Reach, start, next, published-received}

-- Payloads are sent as they are.
abbrev plain : ℕ → ℕ → ℕ
plain event payload = payload

abbrev read_plain : ℕ → ℕ → Option ℕ
read_plain event payload = some payload

abbrev only_seven : Option (List Choice)
only_seven = some (record { event = 7; chosen = true } ∷ record { event = 8; chosen = false } ∷ [])

abbrev sevens : List ℕ
sevens = select_events only_seven (7 ∷ 8 ∷ [])

abbrev seven : Publication
seven = record { event = 7; payload = 70 }

abbrev eight : Publication
eight = record { event = 8; payload = 80 }

-- A message of the wrong event, then one of the right one, after which the consumer wants no more, and
-- then the end.
abbrev listened : Subscription
listened = subscription_step plain read_plain sevens (answers done true false) (
    subscription_step plain read_plain sevens reads (
      subscription_step plain read_plain sevens
        (answers (message (publish plain read_plain seven)) false false)
        (subscription_step plain read_plain sevens
          (answers (message (publish plain read_plain eight)) true false)
          (subscription_step plain read_plain sevens reads new_subscription))))

listened_reached : Reach plain read_plain sevens listened
listened_reached =
    next
      (next
        (next
          (next (next start reads) (answers (message (publish plain read_plain eight)) true false))
          (answers (message (publish plain read_plain seven)) false false))
        reads)
      (answers done true false)

seven_pushed : listened.pushed ≡ none ∷ some seven ∷ []
unfolding subscription_step select_events
seven_pushed = refl

both_taken : listened.taken ≡ publish plain read_plain seven ∷ publish plain read_plain eight ∷ []
unfolding subscription_step select_events
both_taken = refl

published-received_example :
    (ends : ℕ) × (listened.pushed
      ≡ stream_of ends (wanted (wants only_seven (7 ∷ 8 ∷ [])) (seven ∷ eight ∷ [])))
    × (listened.waiting + ends ≤ 1)
    × (listened.aborted ≡ listened.destroyed)
    × ((listened.destroyed ≡ true) ⊎ (listened.waiting + ends ≡ flag listened.pumping))
published-received_example =
    published-received plain read_plain (λ e p. refl) only_seven (7 ∷ 8 ∷ []) listened
      (seven ∷ eight ∷ []) listened_reached both_taken
