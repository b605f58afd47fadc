-- ===== src/Sync/Lifecycle.antt =====
-- packages/common/src/lifecycle.ts: `TeardownStack` and `Lifecycle`. The chain of promises starts an
-- operation only when the one before it is settled, so each call is one step, and the state that a
-- step starts from is never `starting` or `stopping`.
pub mod Rollback
use mathlib.Core.List.{append-nil, append_assoc}
use neemata.Common.{
  ℕ, ◌+◌, ◌≡◌, refl, ap, sym, ◌∙◌, Bool, true, false, List, [], ◌∷◌, ◌++◌, arith, ◌==◌,
  if◌then◌else◌,
}

pub data LifecycleState : Type 0 where
  idle starting running stopping : LifecycleState

-- `stack` has its teardowns in the order of their registration, and `torn` those that were run, in
-- the order in which they ran.
pub record Lifecycle : Type 0 where
  pub state : LifecycleState
  pub stack : List ℕ
  pub torn : List ℕ

abbrev pub lifecycle : Lifecycle
lifecycle = record { state = idle; stack = []; torn = [] }

-- How a call settles. A failure lists the teardowns that threw.
pub data Outcome : Type 0 where
  started already_started stopped nothing : Outcome
  start_failed stop_failed : List ℕ → Outcome

-- What `run` does: it defers these teardowns, and then returns or throws.
pub data Call : Type 0 where
  start : (deferred : List ℕ) (succeeds : Bool) → Call
  stop : Call

pub defer : ℕ → Lifecycle → Lifecycle
defer teardown s = record s { stack = s.stack ++ teardown ∷ [] }

pub defer_all : List ℕ → Lifecycle → Lifecycle
unfolding defer
defer_all [] s = s
defer_all (t ∷ ts) s = defer_all ts (defer t s)

-- The loop of `unwind` from the last teardown to the first.
pub unwound : List ℕ → List ℕ
unwound [] = []
unwound (t ∷ ts) = unwound ts ++ t ∷ []

module _ (throws : ℕ → Bool) where
  abbrev errors_of : List ℕ → List ℕ
  errors_of [] = []
  errors_of (t ∷ ts) = let rest = errors_of ts in if throws t then t ∷ rest else rest

  pub unwind : Lifecycle → Lifecycle × List ℕ
  unfolding unwound
  unwind s =
      (record s { stack = []; torn = s.torn ++ unwound s.stack }, errors_of (unwound s.stack))

  ending : Bool → Lifecycle → Lifecycle × Outcome
  unfolding unwind
  ending true s = (record s { state = running }, started)
  ending false s = (record (unwind s).0 { state = idle }, start_failed (unwind s).1)

  start_in : LifecycleState → List ℕ → Bool → Lifecycle → Lifecycle × Outcome
  unfolding ending defer_all
  start_in idle deferred succeeds s =
      ending succeeds (defer_all deferred (record s { state = starting }))
  start_in other deferred succeeds s = (s, already_started)

  abbrev stop_outcome : List ℕ → Outcome
  stop_outcome [] = stopped
  stop_outcome (t ∷ ts) = stop_failed (t ∷ ts)

  stop_in : LifecycleState → Lifecycle → Lifecycle × Outcome
  unfolding unwind
  stop_in running s =
      let r = unwind (record s { state = stopping }) in
      (record r.0 { state = idle }, stop_outcome r.1)
  stop_in other s = (s, nothing)

  pub perform : Call → Lifecycle → Lifecycle × Outcome
  unfolding start_in stop_in
  perform (start deferred succeeds) s = start_in s.state deferred succeeds s
  perform stop s = stop_in s.state s

  pub perform_all : List Call → Lifecycle → Lifecycle
  unfolding perform
  perform_all [] s = s
  perform_all (c ∷ cs) s = perform_all cs (perform c s).0

defer_all_lem : (ds : List ℕ) (s : Lifecycle) → defer_all ds s ≡ record s { stack = s.stack ++ ds }
unfolding defer_all defer
defer_all_lem [] s = ap (λ l. record s { stack = l }) (sym (append-nil s.stack))
defer_all_lem (d ∷ ds) s =
    defer_all_lem ds (record s { stack = s.stack ++ d ∷ [] })
    ∙ ap (λ l. record s { stack = l }) (append_assoc s.stack (d ∷ []) ds)

-- Between two calls a lifecycle is idle and holds nothing, or it runs.
abbrev pub is_settled : LifecycleState → List ℕ → Bool
is_settled idle [] = true
is_settled idle (t ∷ ts) = false
is_settled running ts = true
is_settled starting ts = false
is_settled stopping ts = false

-- The teardowns that the starts which were not refused have registered, run by run.
module _ (throws : ℕ → Bool) where
  abbrev registered : LifecycleState → Call → List ℕ
  registered idle (start deferred succeeds) = deferred
  registered other c = []

  abbrev occurrences : ℕ → List ℕ → ℕ
  occurrences t [] = 0
  occurrences t (x ∷ xs) = (if x == t then 1 else 0) + occurrences t xs

  occurrences-append :
      (t : ℕ) (xs ys : List ℕ) → occurrences t (xs ++ ys) ≡ occurrences t xs + occurrences t ys
  occurrences-append t [] ys = omega arith
  occurrences-append t (x ∷ xs) ys = ground (arith, occurrences-append t xs ys)

  occurrences-unwound : (t : ℕ) (xs : List ℕ) → occurrences t (unwound xs) ≡ occurrences t xs
  unfolding unwound
  occurrences-unwound t [] = refl
  occurrences-unwound t (x ∷ xs) =
      occurrences-append t (unwound xs) (x ∷ []) ∙ ground (arith, occurrences-unwound t xs)

  abbrev pub registered_times : ℕ → List Call → Lifecycle → ℕ
  unfolding perform
  registered_times t [] s = 0
  registered_times t (c ∷ cs) s =
      occurrences t (registered s.state c) + registered_times t cs (perform throws c s).0

  pub record IsKept (t : ℕ) (added : ℕ) (s after : Lifecycle) : Type 0 where
    pub settled : is_settled after.state after.stack ≡ true
    pub once :
        occurrences t after.torn + occurrences t after.stack
        ≡ occurrences t s.torn + occurrences t s.stack + added

  perform-IsKept :
      (t : ℕ) (c : Call) (state : LifecycleState) (stack torn : List ℕ)
      → is_settled state stack ≡ true
      → IsKept t
          (occurrences t (registered state c))
          (record { state = state; stack = stack; torn = torn })
          (perform throws c (record { state = state; stack = stack; torn = torn })).0
  unfolding perform start_in stop_in ending unwind
  perform-IsKept t (start ds true) idle [] torn h =
      rw defer_all_lem (record { settled = refl; once = omega arith })
  perform-IsKept t (start ds false) idle [] torn h =
      rw defer_all_lem (record {
        settled = refl;
        once = rw (occurrences-append, occurrences-unwound) (omega arith);
      })
  perform-IsKept t (start ds b) idle (x ∷ xs) torn h = absurd (ground arith)
  perform-IsKept t (start ds b) running stack torn h = record { settled = refl; once = omega arith }
  perform-IsKept t (start ds b) starting stack torn h = absurd (ground arith)
  perform-IsKept t (start ds b) stopping stack torn h = absurd (ground arith)
  perform-IsKept t stop running stack torn h = record {
    settled = refl;
    once = rw (occurrences-append, occurrences-unwound) (omega arith);
  }
  perform-IsKept t stop idle stack torn h = record { settled = h; once = omega arith }
  perform-IsKept t stop starting stack torn h = absurd (ground arith)
  perform-IsKept t stop stopping stack torn h = absurd (ground arith)

  perform_all-IsKept :
      (t : ℕ) (cs : List Call) (s : Lifecycle)
      → is_settled s.state s.stack ≡ true
      → IsKept t (registered_times t cs s) s (perform_all throws cs s)
  unfolding perform_all
  perform_all-IsKept t [] s h = record { settled = h; once = omega arith }
  perform_all-IsKept t (c ∷ cs) s h =
      let k = perform-IsKept t c s.state s.stack s.torn h in
      let rest = perform_all-IsKept t cs (perform throws c s).0 k.settled in
      record { settled = rest.settled; once = omega (arith, rest.once, k.once) }

  -- After any calls of `start` and `stop` on a new lifecycle, whatever they run and whatever throws:
  -- it is idle with an empty stack or it runs, and every teardown that a start which was not refused
  -- has registered was run once or is still on the stack.
  pub lifecycle-IsKept :
      (t : ℕ) (cs : List Call)
      → IsKept t (registered_times t cs lifecycle) lifecycle (perform_all throws cs lifecycle)
  lifecycle-IsKept t cs = perform_all-IsKept t cs lifecycle refl
