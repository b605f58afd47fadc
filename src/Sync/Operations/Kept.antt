-- ===== src/Sync/Operations/Kept.antt =====
-- What the histories of an operation queue keep.
use neemata.Common.{
  ℕ, ◌+◌, ◌≡◌, refl, ◌∙◌, Bool, true, false, ◌||◌, Option, none, some, List, [], ◌∷◌, arith, ltb,
  ◌==◌, if◌then◌else◌,
}
use neemata.Sync.Operations.{
  Phase, Settled, Operations, no_operations, finish_operation, supersede, queue_latest, run_latest,
  settling, settle, picking, pick, wait_idle, Event, runs, settles, picks, waits, step, run,
}

abbrev pub active : Phase → ℕ
active (Phase.awaiting task) = 1
active other = 0

abbrev pub queued : Option ℕ → ℕ
queued none = 0
queued (some task) = 1

abbrev task_of : Settled → ℕ
task_of (Settled.resolved task) = task
task_of (Settled.rejected task) = task
task_of (Settled.superseded task) = task

abbrev pub settled_times : ℕ → List Settled → ℕ
settled_times task [] = 0
settled_times task (r ∷ rs) = (if task_of r == task then 1 else 0) + settled_times task rs

abbrev awaited_times : ℕ → Phase → ℕ
awaited_times task (Phase.awaiting current) = if current == task then 1 else 0
awaited_times task other = 0

abbrev queued_times : ℕ → Option ℕ → ℕ
queued_times task none = 0
queued_times task (some waiting) = if waiting == task then 1 else 0

-- The places of a task: settled, awaited or waiting for its turn.
abbrev pub places : ℕ → Operations → ℕ
places task s =
    settled_times task s.settled + awaited_times task s.phase + queued_times task s.latest

abbrev pub run_times : ℕ → List Event → ℕ
run_times task [] = 0
run_times task (runs other ∷ es) = (if other == task then 1 else 0) + run_times task es
run_times task (settles succeeds ∷ es) = run_times task es
run_times task (picks ∷ es) = run_times task es
run_times task (waits ∷ es) = run_times task es

abbrev pub wait_times : List Event → ℕ
wait_times [] = 0
wait_times (waits ∷ es) = 1 + wait_times es
wait_times (runs other ∷ es) = wait_times es
wait_times (settles succeeds ∷ es) = wait_times es
wait_times (picks ∷ es) = wait_times es

abbrev resting_alone : Phase → Option ℕ → Bool
resting_alone Phase.resting (some task) = false
resting_alone phase latest = true

-- The count is that of the open operations, none waits while the loop rests, and nobody waits for an
-- idle queue that is idle.
pub record Inv (s : Operations) : Type 0 where
  pub counted : s.count ≡ active s.phase + queued s.latest
  pub picked : resting_alone s.phase s.latest ≡ true
  pub idle : (ltb 0 s.count || s.waiting == 0) ≡ true

-- A step and what it adds.
record Kept (e : Event) (s after : Operations) : Type 0 where
  inv : Inv after
  placed : (task : ℕ) → places task after ≡ places task s + run_times task (e ∷ [])
  waited : after.waiting + after.woken ≡ s.waiting + s.woken + wait_times (e ∷ [])

module _ (s : Operations) (v : Inv s) where
  runs-Kept :
      (task : ℕ) (phase : Phase) (latest : Option ℕ)
      → s.phase ≡ phase
      → s.latest ≡ latest
      → Kept
          (runs task)
          (record s { phase = phase; latest = latest })
          (run_latest task (record s { phase = phase; latest = latest }))
  unfolding run_latest queue_latest supersede finish_operation
  runs-Kept task Phase.resting none p l = record {
    inv = record { counted = ground (arith, v.counted); picked = refl; idle = ground arith };
    placed = λ t. ground arith;
    waited = omega arith;
  }
  runs-Kept task Phase.resting (some w) p l = absurd (ground (arith, v.picked))
  runs-Kept task Phase.between none p l = record {
    inv = record { counted = ground (arith, v.counted); picked = refl; idle = ground arith };
    placed = λ t. ground arith;
    waited = omega arith;
  }
  runs-Kept task Phase.between (some w) p l = record {
    inv = record {
      counted = ground (arith, v.counted);
      picked = ground arith;
      idle = ground (arith, v.counted);
    };
    placed = λ t. ground arith;
    waited = ground arith;
  }
  runs-Kept task (Phase.awaiting c) none p l = record {
    inv = record { counted = ground (arith, v.counted); picked = refl; idle = ground arith };
    placed = λ t. ground arith;
    waited = omega arith;
  }
  runs-Kept task (Phase.awaiting c) (some w) p l = record {
    inv = record {
      counted = ground (arith, v.counted);
      picked = ground arith;
      idle = ground (arith, v.counted);
    };
    placed = λ t. ground arith;
    waited = ground arith;
  }

  settles-Kept :
      (succeeds : Bool) (phase : Phase)
      → s.phase ≡ phase
      → Kept (settles succeeds) s (settling succeeds phase s)
  unfolding settling finish_operation
  settles-Kept succeeds Phase.resting p = record {
    inv = v;
    placed = λ t. omega arith;
    waited = omega arith;
  }
  settles-Kept succeeds Phase.between p = record {
    inv = v;
    placed = λ t. omega arith;
    waited = omega arith;
  }
  settles-Kept succeeds (Phase.awaiting c) p = record {
    inv = record {
      counted = ground (arith, v.counted);
      picked = ground arith;
      idle = ground (arith, v.idle);
    };
    placed = λ t. ground arith;
    waited = ground arith;
  }

  picks-Kept :
      (phase : Phase) (latest : Option ℕ)
      → s.phase ≡ phase
      → s.latest ≡ latest
      → Kept picks s (picking phase latest s)
  unfolding picking
  picks-Kept Phase.resting latest p l = record {
    inv = v;
    placed = λ t. omega arith;
    waited = omega arith;
  }
  picks-Kept (Phase.awaiting c) latest p l = record {
    inv = v;
    placed = λ t. omega arith;
    waited = omega arith;
  }
  picks-Kept Phase.between none p l = record {
    inv = record { counted = ground (arith, v.counted); picked = ground arith; idle = v.idle };
    placed = λ t. ground arith;
    waited = omega arith;
  }
  picks-Kept Phase.between (some w) p l = record {
    inv = record { counted = ground (arith, v.counted); picked = refl; idle = v.idle };
    placed = λ t. ground arith;
    waited = omega arith;
  }

  step-Kept : (e : Event) → Kept e s (step s e)
  unfolding step settle pick wait_idle
  step-Kept (runs task) = runs-Kept task s.phase s.latest refl refl
  step-Kept (settles succeeds) = settles-Kept succeeds s.phase refl
  step-Kept picks = picks-Kept s.phase s.latest refl refl
  step-Kept waits = record {
    inv = record {
      counted = ground (arith, v.counted);
      picked = ground (arith, v.picked);
      idle = ground (arith, v.idle);
    };
    placed = λ t. ground arith;
    waited = ground arith;
  }

-- What any history has done, from a state that it started in.
pub record IsKept (es : List Event) (s after : Operations) : Type 0 where
  pub inv : Inv after
  pub placed : (task : ℕ) → places task after ≡ places task s + run_times task es
  pub waited : after.waiting + after.woken ≡ s.waiting + s.woken + wait_times es

run-from : (es : List Event) (s : Operations) → Inv s → IsKept es s (run s es)
unfolding run
run-from [] s v = record { inv = v; placed = λ t. omega arith; waited = omega arith }
run-from (e ∷ es) s v =
    let k = step-Kept s v e in
    let rest = run-from es (step s e) k.inv in
    record {
      inv = rest.inv;
      placed =
          λ t. rest.placed t ∙ split_runs e es t (places t (step s e)) (places t s) (k.placed t);
      waited =
          rest.waited
          ∙ split_waits e es ((step s e).waiting + (step s e).woken) (s.waiting + s.woken) k.waited;
    }
  where
    split_runs :
        (e : Event) (es : List Event) (task a b : ℕ)
        → a ≡ b + run_times task (e ∷ [])
        → a + run_times task es ≡ b + run_times task (e ∷ es)
    split_runs (runs other) es task a b h = omega arith
    split_runs (settles succeeds) es task a b h = omega arith
    split_runs picks es task a b h = omega arith
    split_runs waits es task a b h = omega arith

    split_waits :
        (e : Event) (es : List Event) (a b : ℕ)
        → a ≡ b + wait_times (e ∷ [])
        → a + wait_times es ≡ b + wait_times (e ∷ es)
    split_waits (runs other) es a b h = omega arith
    split_waits (settles succeeds) es a b h = omega arith
    split_waits picks es a b h = omega arith
    split_waits waits es a b h = omega arith

-- After any history of a new queue: the count is the number of open operations; a task that was run
-- is settled, awaited or waiting for its turn, once for each time it was run, so none is dropped and
-- none is settled twice; each `waitIdle` is open or resolved, and none is open while the count is
-- zero.
pub operations-IsKept : (es : List Event) → IsKept es no_operations (run no_operations es)
operations-IsKept es =
    run-from es no_operations (record { counted = refl; picked = refl; idle = refl })
