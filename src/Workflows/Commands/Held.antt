-- ===== src/Workflows/Commands/Held.antt =====
-- Where a queue's commands are: each in the queue or with one claimant.
use neemata.Common.{
  ℕ, zero, suc, ◌+◌, ◌≤◌, ◌≡◌, refl, Bool, true, ◌&&◌, some, List, [], ◌∷◌, ◌++◌, arith, leb, ltb,
  ◌==◌, if◌then◌else◌,
}
use neemata.Workflows.Items.{Item, Claimed, is_live}
use neemata.Workflows.Commands.{
  Queue, find_claim, delete_claim, extend_claim, remove_at, replace_at, delete_items,
}
use neemata.Workflows.Commands.Places.{nth, copies}

module _ {P : Type 0} where
  abbrev pub claims : ℕ → List (Claimed P) → ℕ
  claims id [] = 0
  claims id (c ∷ cs) = (if c.item.id == id then 1 else 0) + claims id cs

  abbrev pub tokens : ℕ → List (Claimed P) → ℕ
  tokens t [] = 0
  tokens t (c ∷ cs) = (if c.lease_token == t then 1 else 0) + tokens t cs

  -- The places that hold a command.
  abbrev pub held : ℕ → Queue P → ℕ
  held id q = copies id q.queued + claims id q.claimed

  -- An item is dead exactly if it has used up its deliveries.
  abbrev pub is_counted : ℕ → Item P → Bool
  is_counted max item =
      if is_live item then ltb item.delivery_count max else leb max item.delivery_count

  abbrev pub all_counted : ℕ → List (Item P) → Bool
  all_counted max [] = true
  all_counted max (x ∷ xs) = is_counted max x && all_counted max xs

  -- Claimed items are live besides.
  abbrev pub all_live : ℕ → List (Claimed P) → Bool
  all_live max [] = true
  all_live max (c ∷ cs) = is_live c.item && is_counted max c.item && all_live max cs

  pub claims-append :
      (id : ℕ) (xs ys : List (Claimed P)) → claims id (xs ++ ys) ≡ claims id xs + claims id ys
  claims-append id [] ys = omega arith
  claims-append id (x ∷ xs) ys = ground (arith, claims-append id xs ys)

  pub tokens-append :
      (t : ℕ) (xs ys : List (Claimed P)) → tokens t (xs ++ ys) ≡ tokens t xs + tokens t ys
  tokens-append t [] ys = omega arith
  tokens-append t (x ∷ xs) ys = ground (arith, tokens-append t xs ys)

  pub all_counted-append :
      (max : ℕ) (xs ys : List (Item P))
      → all_counted max (xs ++ ys) ≡ (all_counted max xs && all_counted max ys)
  all_counted-append max [] ys = refl
  all_counted-append max (x ∷ xs) ys = ground (arith, all_counted-append max xs ys)

  pub all_live-append :
      (max : ℕ) (xs ys : List (Claimed P))
      → all_live max (xs ++ ys) ≡ (all_live max xs && all_live max ys)
  all_live-append max [] ys = refl
  all_live-append max (x ∷ xs) ys = ground (arith, all_live-append max xs ys)

  pub all_counted-nth :
      (max i : ℕ) (x : Item P) (xs : List (Item P))
      → nth i xs ≡ some x
      → all_counted max xs ≡ true
      → is_counted max x ≡ true
  all_counted-nth max i x [] e h = ground arith
  all_counted-nth max zero x (y ∷ xs) e h = ground arith
  all_counted-nth max (suc i) x (y ∷ xs) e h = ground (arith, all_counted-nth max i x xs e)

  pub all_counted-remove_at :
      (max i : ℕ) (xs : List (Item P))
      → all_counted max xs ≡ true
      → all_counted max (remove_at i xs) ≡ true
  unfolding remove_at
  all_counted-remove_at max i [] h = refl
  all_counted-remove_at max zero (x ∷ xs) h = ground arith
  all_counted-remove_at max (suc i) (x ∷ xs) h = ground (arith, all_counted-remove_at max i xs)

  pub all_counted-replace_at :
      (max i : ℕ) (y : Item P) (xs : List (Item P))
      → is_counted max y ≡ true
      → all_counted max xs ≡ true
      → all_counted max (replace_at i y xs) ≡ true
  unfolding replace_at
  all_counted-replace_at max i y [] c h = refl
  all_counted-replace_at max zero y (x ∷ xs) c h = ground arith
  all_counted-replace_at max (suc i) y (x ∷ xs) c h =
      ground (arith, all_counted-replace_at max i y xs c)

  pub all_counted-delete_items :
      (max : ℕ) (goes : Item P → Bool) (xs : List (Item P))
      → all_counted max xs ≡ true
      → all_counted max (delete_items goes xs) ≡ true
  all_counted-delete_items max goes [] h = refl
  all_counted-delete_items max goes (x ∷ xs) h =
      ground (arith, all_counted-delete_items max goes xs)

  pub copies-delete_items :
      (id : ℕ) (goes : Item P → Bool) (xs : List (Item P))
      → copies id (delete_items goes xs) ≤ copies id xs
  copies-delete_items id goes [] = omega arith
  copies-delete_items id goes (x ∷ xs) = ground (arith, copies-delete_items id goes xs)

  pub claims-delete_claim :
      (id j : ℕ) (cs : List (Claimed P))
      → claims id (delete_claim j cs) ≡ (if id == j then 0 else claims id cs)
  claims-delete_claim id j [] = ground arith
  claims-delete_claim id j (c ∷ cs) = ground (arith, claims-delete_claim id j cs)

  pub tokens-delete_claim :
      (t j : ℕ) (cs : List (Claimed P)) → tokens t (delete_claim j cs) ≤ tokens t cs
  tokens-delete_claim t j [] = omega arith
  tokens-delete_claim t j (c ∷ cs) = ground (arith, tokens-delete_claim t j cs)

  pub all_live-delete_claim :
      (max j : ℕ) (cs : List (Claimed P))
      → all_live max cs ≡ true
      → all_live max (delete_claim j cs) ≡ true
  all_live-delete_claim max j [] h = refl
  all_live-delete_claim max j (c ∷ cs) h = ground (arith, all_live-delete_claim max j cs)

  pub claims-extend_claim :
      (id j e : ℕ) (cs : List (Claimed P)) → claims id (extend_claim j e cs) ≡ claims id cs
  claims-extend_claim id j e [] = refl
  claims-extend_claim id j e (c ∷ cs) = ground (arith, claims-extend_claim id j e cs)

  pub tokens-extend_claim :
      (t j e : ℕ) (cs : List (Claimed P)) → tokens t (extend_claim j e cs) ≡ tokens t cs
  tokens-extend_claim t j e [] = refl
  tokens-extend_claim t j e (c ∷ cs) = ground (arith, tokens-extend_claim t j e cs)

  pub all_live-extend_claim :
      (max j e : ℕ) (cs : List (Claimed P)) → all_live max (extend_claim j e cs) ≡ all_live max cs
  all_live-extend_claim max j e [] = refl
  all_live-extend_claim max j e (c ∷ cs) = ground (arith, all_live-extend_claim max j e cs)

  -- A claim that is found stands under its id, and its item is live and counted.
  pub find_claim-some :
      (max id : ℕ) (c : Claimed P) (cs : List (Claimed P))
      → find_claim id cs ≡ some c
      → all_live max cs ≡ true
      → (c.item.id ≡ id)
        × (1 ≤ claims id cs)
        × (is_live c.item ≡ true)
        × (is_counted max c.item ≡ true)
  find_claim-some max id c [] e h = ground arith
  find_claim-some max id c (d ∷ cs) e h = ground (arith, find_claim-some max id c cs)
