-- ===== src/Pubsub/Delivery.antt =====
-- What a subscription delivers.
use neemata.Common.{
  ℕ, zero, suc, ◌+◌, ◌≤◌, ◌≡◌, refl, ap, sym, ◌∙◌, Bool, true, false, ◌&&◌, ◌||◌, Option, none,
  some, List, [], ◌∷◌, map, ◌==◌, if◌then◌else◌, arith, if_intro, mem,
}
use neemata.Pubsub.{
  Message, Publication, Choice, Subscription, Answer, message, done, rejected, chosen_events,
  select_events, looping, end_stream, destroy, push_decoded, after_push, going_on, decode_message,
  receiving, resuming,
}

abbrev pub chooses : List Choice → ℕ → Bool
chooses [] e = false
chooses (c ∷ cs) e = (c.event == e && c.chosen) || chooses cs e

-- An event is wanted if its channel has it and the subscriber chose it or made no choice.
abbrev pub wants : Option (List Choice) → List ℕ → ℕ → Bool
wants none available e = mem e available
wants (some choices) available e = chooses choices e && mem e available

mem-chosen_events :
    (cs : List Choice) (available : List ℕ) (e : ℕ)
    → mem e (chosen_events cs available) ≡ (chooses cs e && mem e available)
mem-chosen_events [] available e = refl
mem-chosen_events (c ∷ cs) available e = ground (arith, mem-chosen_events cs available e)

pub mem-select_events :
    (choices : Option (List Choice)) (available : List ℕ) (e : ℕ)
    → mem e (select_events choices available) ≡ wants choices available e
unfolding select_events
mem-select_events none available e = refl
mem-select_events (some cs) available e = mem-chosen_events cs available e

-- The publications of the events that are wanted.
abbrev pub wanted : (ℕ → Bool) → List Publication → List Publication
wanted test [] = []
wanted test (p ∷ ps) = if test p.event then p ∷ wanted test ps else wanted test ps

-- What the consumer reads, newest first, with so many ends.
abbrev pub stream_of : ℕ → List Publication → List (Option Publication)
stream_of zero ps = map some ps
stream_of (suc n) ps = none ∷ stream_of n ps

abbrev pub flag : Bool → ℕ
flag false = 0
flag true = 1

abbrev pub cons_some : Option Publication → List Publication → List Publication
cons_some none ps = ps
cons_some (some p) ps = p ∷ ps

module _ (encode : ℕ → ℕ → ℕ) (decode : ℕ → ℕ → Option ℕ) (events : List ℕ) where
  abbrev pub deliveries : List Message → List Publication
  deliveries [] = []
  deliveries (m ∷ ms) = cons_some (decode_message encode decode events m) (deliveries ms)

  pub record Inv (s : Subscription) : Type 0 where
    pub ends : ℕ
    pub shape : s.pushed ≡ stream_of ends (deliveries s.taken)
    pub few : s.waiting + ends ≤ flag s.pumping
    pub awake : s.destroyed ≡ false → s.waiting + ends ≡ flag s.pumping
    pub freed : s.aborted ≡ s.destroyed

  -- A call of `read` that runs: no other one waits, and the stream has not ended.
  pub record Running (s : Subscription) : Type 0 where
    pub busy : s.pumping ≡ true
    pub alone : s.waiting ≡ 0
    pub shape : s.pushed ≡ map some (deliveries s.taken)
    pub freed : s.aborted ≡ s.destroyed

  left-Inv : (s : Subscription) → s.destroyed ≡ true → Running s → Inv s
  left-Inv s gone r = record {
    ends = 0;
    shape = r.shape;
    few = ground (arith, r.busy, r.alone);
    awake = λ e. absurd (ground (arith, gone, e));
    freed = r.freed;
  }

  pub looping-Inv : (s : Subscription) → Running s → Inv (looping s)
  looping-Inv s r =
      if_intro Inv s.destroyed s (record s { waiting = s.waiting + 1 }) (λ gone. left-Inv s gone r)
        (λ _. record {
          ends = 0;
          shape = r.shape;
          few = ground (arith, r.busy, r.alone);
          awake = λ _. ground (arith, r.busy, r.alone);
          freed = r.freed;
        })

  end_stream-Inv : (s : Subscription) → Running s → Inv (end_stream s)
  end_stream-Inv s r =
      if_intro Inv s.destroyed s (record s { pushed = none ∷ s.pushed }) (λ gone. left-Inv s gone r)
        (λ _. record {
          ends = 1;
          shape = ap (λ l. none ∷ l) r.shape;
          few = ground (arith, r.busy, r.alone);
          awake = λ _. ground (arith, r.busy, r.alone);
          freed = r.freed;
        })

  pub destroy-Inv : (s : Subscription) → Inv s → Inv (destroy s)
  destroy-Inv s v =
      if_intro Inv s.destroyed s (record s { destroyed = true; aborted = true }) (λ _. v)
        (λ _. record {
          ends = v.ends;
          shape = v.shape;
          few = v.few;
          awake = λ e. absurd (ground (arith, e));
          freed = refl;
        })

  failing-Inv : (s : Subscription) → Running s → Inv (destroy s)
  failing-Inv s r =
      if_intro Inv s.destroyed s (record s { destroyed = true; aborted = true })
        (λ gone. left-Inv s gone r)
        (λ _.
          left-Inv (record s { destroyed = true; aborted = true }) refl
            (record { busy = r.busy; alone = r.alone; shape = r.shape; freed = refl }))

  after_push-Running : (b : Bool) (s : Subscription) → Running s → Running (after_push b s)
  after_push-Running b s r =
      if_intro Running b (destroy s) s
        (λ _.
          if_intro Running s.destroyed s (record s { destroyed = true; aborted = true }) (λ _. r)
            (λ _. record { busy = r.busy; alone = r.alone; shape = r.shape; freed = refl }))
        (λ _. r)

  going_on-Inv : (b : Bool) (s : Subscription) → Running s → Inv (going_on b s)
  going_on-Inv b s r =
      if_intro Inv b (looping s) (record s { pumping = false }) (λ _. looping-Inv s r)
        (λ _. record {
          ends = 0;
          shape = r.shape;
          few = ground (arith, r.alone);
          awake = λ _. ground (arith, r.alone);
          freed = r.freed;
        })

  push_decoded-Inv :
      (o : Option Publication) (more leaves : Bool) (m : Message) (s : Subscription)
      → decode_message encode decode events m ≡ o
      → Running s
      → Inv (push_decoded o more leaves (record s { taken = m ∷ s.taken }))
  push_decoded-Inv none more leaves m s e r =
      looping-Inv (record s { taken = m ∷ s.taken })
        (record {
          busy = r.busy;
          alone = r.alone;
          shape = r.shape ∙ ap (λ o. map some (cons_some o (deliveries s.taken))) (sym e);
          freed = r.freed;
        })
  push_decoded-Inv (some p) more leaves m s e r =
      let s' : Subscription = record s { taken = m ∷ s.taken; pushed = some p ∷ s.pushed } in
      going_on-Inv more (after_push leaves s') (
        after_push-Running leaves s' (record {
          busy = r.busy;
          alone = r.alone;
          shape =
              ap (λ l. some p ∷ l) r.shape
              ∙ ap (λ o. map some (cons_some o (deliveries s.taken))) (sym e);
          freed = r.freed;
        }))

  receiving-Inv :
      (a : Answer) (more leaves : Bool) (s : Subscription)
      → Running s
      → Inv (receiving encode decode events a more leaves s)
  receiving-Inv (message m) more leaves s r =
      if_intro Inv s.destroyed s
        (push_decoded (decode_message encode decode events m) more leaves
          (record s { taken = m ∷ s.taken }))
        (λ gone. left-Inv s gone r)
        (λ _. push_decoded-Inv (decode_message encode decode events m) more leaves m s refl r)
  receiving-Inv done more leaves s r = end_stream-Inv s r
  receiving-Inv (rejected b) more leaves s r =
      if_intro Inv b (end_stream s) (destroy s) (λ _. end_stream-Inv s r) (λ _. failing-Inv s r)

  -- The call that waits is the only one.
  woken :
      (n : ℕ) (s : Subscription) → s.waiting ≡ suc n → Inv s → Running (record s { waiting = n })
  woken n s e v = record {
    busy = flag-busy s.pumping (omega (arith, v.few));
    alone = few-alone s.pumping n v.ends (omega (arith, v.few));
    shape =
        v.shape
        ∙ ap (λ k. stream_of k (deliveries s.taken))
            (few-ends s.pumping n v.ends (omega (arith, v.few)));
    freed = v.freed;
  }
    where
      flag-busy : (b : Bool) → 1 ≤ flag b → b ≡ true
      flag-busy b h = ground arith

      few-alone : (b : Bool) (n k : ℕ) → suc n + k ≤ flag b → n ≡ 0
      few-alone b n k h = ground arith

      few-ends : (b : Bool) (n k : ℕ) → suc n + k ≤ flag b → k ≡ 0
      few-ends b n k h = ground arith

  pub resuming-Inv :
      (n : ℕ) (a : Answer) (more leaves : Bool) (s : Subscription)
      → s.waiting ≡ n
      → Inv s
      → Inv (resuming encode decode n events a more leaves s)
  resuming-Inv zero a more leaves s e v = v
  resuming-Inv (suc n) a more leaves s e v =
      receiving-Inv a more leaves (record s { waiting = n }) (woken n s e v)
