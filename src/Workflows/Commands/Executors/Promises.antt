-- ===== src/Workflows/Commands/Executors/Promises.antt =====
-- What the executors promise to whoever enqueues, dispatches or claims.
use neemata.Common.{
  ℕ, zero, suc, ◌+◌, ◌≤◌, ◌≡◌, refl, ap, ◌∙◌, Bool, true, false, ◌&&◌, ◌||◌, Option, none, some,
  List, [], ◌∷◌, ◌++◌, arith, leb, ◌==◌, if◌then◌else◌,
}
use neemata.Workflows.Items.{Item, is_live, now, earliest_run_at, queue_item}
use neemata.Workflows.Commands.{
  Queue, Claim, reclaimed, ready, claimable, claim_command, lease_item, find_first, push_new,
  replace_at,
}
use neemata.Workflows.Commands.Places.{nth, none_pass, none_below, Agrees, Found, find_first-Found}
use neemata.Workflows.Commands.Taking.{Taken, IsLeast, claim_queued-Taken, claim_queued-IsLeast}
use neemata.Workflows.Commands.Executors.{
  Attempt, ContinueRun, Worker, eligible_attempt, time_of, comes_before, claim_attempt,
  enqueue_continue, enqueueing, waits_for,
}

comes_before-Agrees : (id_before : ℕ → ℕ → Bool) → Agrees time_of (comes_before id_before)
unfolding comes_before
comes_before-Agrees id_before = record {
  first = λ x y h. ground arith;
  second = λ x y h. ground arith;
}

-- What a claim has returned, from the queue after the takeovers.
abbrev pub Returned : (Item Attempt → Bool) → List (Item Attempt) → Option (Claim Attempt) → Type 0
Returned p queue none = none_pass p queue ≡ true
Returned p queue (some c) =
    (x : Item Attempt) × (x.id ≡ c.id)
    × (x.payload ≡ c.command)
    × (p x ≡ true)
    × ((i : ℕ) × (nth i queue ≡ some x))
    × (none_below p time_of (time_of x) queue ≡ true)

lease_item-Returned :
    (p : Item Attempt → Bool) (expires last : ℕ) (o : Option (Item Attempt × List (Item Attempt)))
    (q : Queue Attempt)
    → Taken p q.queued o
    → IsLeast p time_of q.queued o
    → Returned p q.queued (lease_item expires last o q).1
unfolding lease_item
lease_item-Returned p expires last none q t l = t
lease_item-Returned p expires last (some (x, left)) q t l =
    (x, refl, refl, t.passes, (t.index, t.stood), l)

-- A claim of an attempt first takes back the leases that have run out. It then returns nothing only
-- if no command in the queue is alive, due and within what the worker can execute; otherwise it
-- returns one that is, and no other such command has an earlier time.
pub claim_attempt-Returned :
    (max_deliveries : ℕ) (id_before : ℕ → ℕ → Bool) (worker : Worker) (clock : ℕ)
    (q : Queue Attempt)
    → let r = reclaimed max_deliveries clock (eligible_attempt worker) q in
      Returned
        (claimable (ready (now clock r.last_timestamp) (eligible_attempt worker)))
        r.queued
        (claim_attempt max_deliveries id_before worker clock q).1
unfolding claim_attempt claim_command
claim_attempt-Returned max_deliveries id_before worker clock q =
    let r : Queue Attempt = reclaimed max_deliveries clock (eligible_attempt worker) q in
    let date : ℕ = now clock r.last_timestamp in
    lease_item-Returned (claimable (ready date (eligible_attempt worker))) _ _ _
      (record r { last_timestamp = date })
      (claim_queued-Taken (ready date (eligible_attempt worker)) (comes_before id_before) r.queued)
      (claim_queued-IsLeast (ready date (eligible_attempt worker)) (comes_before id_before) time_of
        r.queued (comes_before-Agrees id_before))

abbrev no_later : Option ℕ → Option ℕ → Bool
no_later none asked = true
no_later (some t) none = false
no_later (some t) (some u) = leb t u

-- The item wakes the run with this command, no later than asked for.
abbrev pub wakes : ContinueRun → Option ℕ → Item ContinueRun → Bool
wakes command run_at item =
    is_live item
    && item.payload.run_id == command.run_id
    && item.payload.workflow_name == command.workflow_name
    && no_later item.run_at run_at

abbrev pub any_wakes : ContinueRun → Option ℕ → List (Item ContinueRun) → Bool
any_wakes command run_at [] = false
any_wakes command run_at (x ∷ xs) = wakes command run_at x || any_wakes command run_at xs

any_wakes-append :
    (command : ContinueRun) (run_at : Option ℕ) (xs : List (Item ContinueRun))
    (y : Item ContinueRun)
    → wakes command run_at y ≡ true
    → any_wakes command run_at (xs ++ y ∷ []) ≡ true
any_wakes-append command run_at [] y h = ground arith
any_wakes-append command run_at (x ∷ xs) y h =
    ground (arith, any_wakes-append command run_at xs y h)

any_wakes-replace_at :
    (command : ContinueRun) (run_at : Option ℕ) (i : ℕ) (x y : Item ContinueRun)
    (xs : List (Item ContinueRun))
    → nth i xs ≡ some x
    → wakes command run_at y ≡ true
    → any_wakes command run_at (replace_at i y xs) ≡ true
unfolding replace_at
any_wakes-replace_at command run_at i x y [] at h = ground arith
any_wakes-replace_at command run_at zero x y (z ∷ xs) at h = ground arith
any_wakes-replace_at command run_at (suc i) x y (z ∷ xs) at h =
    ground (arith, any_wakes-replace_at command run_at i x y xs at h)

-- The commands that wait for a run.
abbrev pub waiting_for : ℕ → List (Item ContinueRun) → ℕ
waiting_for run_id [] = 0
waiting_for run_id (x ∷ xs) = (if waits_for run_id x then 1 else 0) + waiting_for run_id xs

waiting_for-append :
    (run_id : ℕ) (xs ys : List (Item ContinueRun))
    → waiting_for run_id (xs ++ ys) ≡ waiting_for run_id xs + waiting_for run_id ys
waiting_for-append run_id [] ys = omega arith
waiting_for-append run_id (x ∷ xs) ys = ground (arith, waiting_for-append run_id xs ys)

waiting_for-none :
    (run_id : ℕ) (xs : List (Item ContinueRun))
    → none_pass (waits_for run_id) xs ≡ true
    → waiting_for run_id xs ≡ 0
waiting_for-none run_id [] h = refl
waiting_for-none run_id (x ∷ xs) h = ground (arith, waiting_for-none run_id xs)

waiting_for-nth :
    (run_id i : ℕ) (x : Item ContinueRun) (xs : List (Item ContinueRun))
    → nth i xs ≡ some x
    → waits_for run_id x ≡ true
    → 1 ≤ waiting_for run_id xs
waiting_for-nth run_id i x [] at h = ground arith
waiting_for-nth run_id zero x (y ∷ xs) at h = ground arith
waiting_for-nth run_id (suc i) x (y ∷ xs) at h = ground (arith, waiting_for-nth run_id i x xs at h)

waiting_for-replace_at :
    (run_id i : ℕ) (x y : Item ContinueRun) (xs : List (Item ContinueRun))
    → nth i xs ≡ some x
    → waits_for run_id x ≡ waits_for run_id y
    → waiting_for run_id (replace_at i y xs) ≡ waiting_for run_id xs
unfolding replace_at
waiting_for-replace_at run_id i x y [] at h = refl
waiting_for-replace_at run_id zero x y (z ∷ xs) at h = ground arith
waiting_for-replace_at run_id (suc i) x y (z ∷ xs) at h =
    ground (arith, waiting_for-replace_at run_id i x y xs at h)

-- A queue after an enqueue.
pub record IsWoken (command : ContinueRun) (run_at : Option ℕ) (q after : Queue ContinueRun)
    : Type 0 where
  pub woken : any_wakes command run_at after.queued ≡ true
  pub merged :
      (run_id : ℕ)
      → waiting_for run_id after.queued ≡ (
          if run_id == command.run_id && waiting_for run_id q.queued == 0
          then 1
          else waiting_for run_id q.queued)

enqueueing-IsWoken :
    (command : ContinueRun) (run_at : Option ℕ) (clock : ℕ) (q : Queue ContinueRun)
    (o : Option (ℕ × Item ContinueRun × List (Item ContinueRun)))
    → Found (waits_for command.run_id) 0 q.queued o
    → IsWoken command run_at q (enqueueing command run_at clock o q)
unfolding enqueueing push_new
enqueueing-IsWoken command run_at clock q none f = record {
  woken = any_wakes-append command run_at q.queued _ (new_wakes run_at);
  merged =
      λ run_id. rw waiting_for-append (ground (arith, waiting_for-none command.run_id q.queued f));
}
  where
    new_wakes :
        (at : Option ℕ)
        → wakes command at (queue_item q.next_id command at (now clock q.last_timestamp)) ≡ true
    new_wakes none = ground arith
    new_wakes (some t) = ground arith
enqueueing-IsWoken command run_at clock q (some (i, x, rest)) f =
    let at : nth i q.queued ≡ some x = ap (λ k. nth k q.queued) (omega (arith, f.index)) ∙ f.here in
    record {
      woken =
          any_wakes-replace_at command run_at i x _ q.queued at
            (old_wakes x.run_at run_at f.passes);
      merged = λ run_id.
          waiting_for-replace_at run_id i x _ q.queued at (ground (arith, f.passes))
          ∙ ground (arith, waiting_for-nth command.run_id i x q.queued at f.passes);
    }
  where
    old_wakes :
        (left right : Option ℕ)
        → waits_for command.run_id x ≡ true
        → wakes command right (record x { payload = command; run_at = earliest_run_at left right })
          ≡ true
    old_wakes none right h = ground arith
    old_wakes (some t) none h = ground arith
    old_wakes (some t) (some u) h = ground arith

-- After an enqueue a live command in the queue wakes the run, under the name that was asked for and
-- no later than asked for, whatever dead commands of the run there are. If no live command in the
-- queue waited for the run, one does now; otherwise their number is unchanged, as is that of every
-- other run.
pub enqueue_continue-IsWoken :
    (command : ContinueRun) (run_at : Option ℕ) (clock : ℕ) (q : Queue ContinueRun)
    → IsWoken command run_at q (enqueue_continue command run_at clock q)
unfolding enqueue_continue
enqueue_continue-IsWoken command run_at clock q =
    enqueueing-IsWoken command run_at clock q (find_first (waits_for command.run_id) 0 q.queued)
      (find_first-Found (waits_for command.run_id) 0 q.queued)
