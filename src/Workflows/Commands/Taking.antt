-- ===== src/Workflows/Commands/Taking.antt =====
-- Which item of a queue `claim_queued` takes.
use neemata.Common.{ℕ, suc, ◌≡◌, refl, ap, ◌∙◌, Bool, true, Option, none, some, List, arith}
use neemata.Workflows.Items.{Item}
use neemata.Workflows.Commands.{find_first, remove_at, scan, claim_from, claim_queued, claimable}
use neemata.Workflows.Commands.Places.{
  nth, none_pass, none_below, Found, find_first-Found, scan-nth, scan-passes, scan-least, Agrees,
}

module _ {P : Type 0} where
  -- An item that passes was taken out of the queue.
  pub record IsTaken (p : Item P → Bool) (queue : List (Item P)) (x : Item P) (left : List (Item P))
      : Type 0 where
    pub passes : p x ≡ true
    pub index : ℕ
    pub stood : nth index queue ≡ some x
    pub removed : left ≡ remove_at index queue

  abbrev pub Taken : (Item P → Bool) → List (Item P) → Option (Item P × List (Item P)) → Type 0
  Taken p queue none = none_pass p queue ≡ true
  Taken p queue (some (x, left)) = IsTaken p queue x left

  claim_from-Taken :
      (p : Item P → Bool) (before : Item P → Item P → Bool) (queue : List (Item P))
      (o : Option (ℕ × Item P × List (Item P)))
      → Found p 0 queue o
      → Taken p queue (claim_from p before queue o)
  unfolding claim_from
  claim_from-Taken p before queue none f = f
  claim_from-Taken p before queue (some (i, x, rest)) f = record {
    passes = scan-passes p before (i, x) (suc i) rest f.passes;
    index = (scan p before (i, x) (suc i) rest).0;
    stood =
        scan-nth p before queue (i, x) (suc i) rest
          (ap (λ k. nth k queue) (omega (arith, f.index)) ∙ f.here)
          (λ n. ap (λ k. nth k queue) (omega (arith, f.index)) ∙ f.behind n);
    removed = refl;
  }

  pub claim_queued-Taken :
      (matches : Item P → Bool) (before : Item P → Item P → Bool) (queue : List (Item P))
      → Taken (claimable matches) queue (claim_queued matches before queue)
  unfolding claim_queued
  claim_queued-Taken matches before queue =
      claim_from-Taken (claimable matches) before queue (find_first (claimable matches) 0 queue)
        (find_first-Found (claimable matches) 0 queue)

  -- No item that passes has a key below that of the one that was taken.
  abbrev pub IsLeast :
      (Item P → Bool) → (Item P → ℕ) → List (Item P) → Option (Item P × List (Item P)) → Type 0
  IsLeast p key queue none = none_pass p queue ≡ true
  IsLeast p key queue (some (x, left)) = none_below p key (key x) queue ≡ true

  claim_from-IsLeast :
      (p : Item P → Bool) (before : Item P → Item P → Bool) (key : Item P → ℕ)
      (queue : List (Item P)) (o : Option (ℕ × Item P × List (Item P)))
      → Agrees key before
      → Found p 0 queue o
      → IsLeast p key queue (claim_from p before queue o)
  unfolding claim_from
  claim_from-IsLeast p before key queue none agrees f = f
  claim_from-IsLeast p before key queue (some (i, x, rest)) agrees f =
      let least = scan-least p before key agrees (i, x) (suc i) rest in
      f.bounds key (key (scan p before (i, x) (suc i) rest).1) ∙ ground (arith, least.0, least.1)

  pub claim_queued-IsLeast :
      (matches : Item P → Bool) (before : Item P → Item P → Bool) (key : Item P → ℕ)
      (queue : List (Item P))
      → Agrees key before
      → IsLeast (claimable matches) key queue (claim_queued matches before queue)
  unfolding claim_queued
  claim_queued-IsLeast matches before key queue agrees =
      claim_from-IsLeast (claimable matches) before key queue
        (find_first (claimable matches) 0 queue) agrees
        (find_first-Found (claimable matches) 0 queue)
