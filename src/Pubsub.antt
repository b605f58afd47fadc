-- ===== src/Pubsub.antt =====
-- packages/pubsub/src/manager.ts: a subscription of PubSubManager, from the choice of its events to the
-- stream that its consumer reads, and the message of a publication. Events are their numbers and
-- payloads are what a contract's schema decodes; the channel's name and the log are left out.
pub mod Delivery
pub mod Received
mod Tests
use neemata.Common.{
  ℕ, zero, suc, ◌+◌, ◌-◌, Bool, true, false, ◌&&◌, ◌||◌, Option, none, some, List, [], ◌∷◌, ◌==◌,
  if◌then◌else◌, mem,
}

-- `PubSubMessage`, without its channel.
pub record Message : Type 0 where
  pub event : ℕ
  pub payload : ℕ

-- What is published, and what a consumer gets.
pub record Publication : Type 0 where
  pub event : ℕ
  pub payload : ℕ

-- An entry of the record of events that `subscribe` may be called with.
pub record Choice : Type 0 where
  pub event : ℕ
  pub chosen : Bool

-- The stream and its pump: how many calls of `read` wait for the adapter's iterator, what was taken
-- from it and what was pushed, both newest first, where none is the end.
pub record Subscription : Type 0 where
  pub pumping : Bool
  pub waiting : ℕ
  pub taken : List Message
  pub pushed : List (Option Publication)
  pub destroyed : Bool
  pub aborted : Bool

pub data Answer : Type 0 where
  message : Message → Answer
  done : Answer
  rejected : (is_abort_error : Bool) → Answer

abbrev pub chosen_events : List Choice → List ℕ → List ℕ
chosen_events [] available = []
chosen_events (c ∷ cs) available =
    let rest = chosen_events cs available in
    if c.chosen && mem c.event available then c.event ∷ rest else rest

-- The events that `subscribe` selects.
unfoldable pub select_events : Option (List Choice) → List ℕ → List ℕ
select_events none available = available
select_events (some choices) available = chosen_events choices available

abbrev pub new_subscription : Subscription
new_subscription = record {
  pumping = false;
  waiting = 0;
  taken = [];
  pushed = [];
  destroyed = false;
  aborted = false;
}

abbrev pub decoded : ℕ → Option ℕ → Option Publication
decoded event none = none
decoded event (some payload) = some (record { event = event; payload = payload })

-- The head of the loop in `read`; behind a destroyed stream nothing is pushed.
abbrev pub looping : Subscription → Subscription
looping s = if s.destroyed then s else record s { waiting = s.waiting + 1 }

abbrev pub end_stream : Subscription → Subscription
end_stream s = if s.destroyed then s else record s { pushed = none ∷ s.pushed }

-- `destroy`, whose callback runs once.
abbrev pub destroy : Subscription → Subscription
destroy s = if s.destroyed then s else record s { destroyed = true; aborted = true }

-- A consumer may destroy the stream while it is pushed a payload.
abbrev pub after_push : (leaves : Bool) → Subscription → Subscription
after_push leaves s = if leaves then destroy s else s

-- What `this.push` tells: whether the consumer wants more.
abbrev pub going_on : (wants_more : Bool) → Subscription → Subscription
going_on wants_more s = if wants_more then looping s else record s { pumping = false }

abbrev pub push_decoded : Option Publication → Bool → Bool → Subscription → Subscription
push_decoded none wants_more leaves s = looping s
push_decoded (some p) wants_more leaves s =
    going_on wants_more (after_push leaves (record s { pushed = some p ∷ s.pushed }))

abbrev pub read : Subscription → Subscription
read s = if s.pumping then s else looping (record s { pumping = true })

-- `encode` and `decode` are the contracts'.
module _ (encode : ℕ → ℕ → ℕ) (decode : ℕ → ℕ → Option ℕ) where
  -- What `publish` hands to the adapter.
  abbrev pub publish : Publication → Message
  publish p = record { event = p.event; payload = encode p.event p.payload }

  abbrev pub decode_message : List ℕ → Message → Option Publication
  decode_message events m =
      if mem m.event events then decoded m.event (decode m.event m.payload) else none

  -- The rest of a call of `read` that waited for the iterator.
  abbrev pub receiving : List ℕ → Answer → Bool → Bool → Subscription → Subscription
  receiving events (message m) wants_more leaves s =
      if s.destroyed
      then s
      else push_decoded (decode_message events m) wants_more leaves
          (record s { taken = m ∷ s.taken })
  receiving events done wants_more leaves s = end_stream s
  receiving events (rejected is_abort_error) wants_more leaves s =
      if is_abort_error then end_stream s else destroy s

  -- One of the calls that wait, if there is one, goes on.
  abbrev pub resuming : ℕ → List ℕ → Answer → Bool → Bool → Subscription → Subscription
  resuming zero events a wants_more leaves s = s
  resuming (suc n) events a wants_more leaves s =
      receiving events a wants_more leaves (record s { waiting = n })

  pub data SubscriptionEvent : Type 0 where
    reads : SubscriptionEvent
    answers : Answer → (wants_more leaves : Bool) → SubscriptionEvent
    destroys : SubscriptionEvent

  unfoldable pub subscription_step : List ℕ → SubscriptionEvent → Subscription → Subscription
  subscription_step events reads s = read s
  subscription_step events (answers a wants_more leaves) s =
      resuming s.waiting events a wants_more leaves s
  subscription_step events destroys s = destroy s
