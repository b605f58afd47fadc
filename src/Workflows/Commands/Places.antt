-- ===== src/Workflows/Commands/Places.antt =====
-- What the index operations do to an item queue.
use neemata.Common.{
  ℕ, zero, suc, ◌+◌, ◌≡◌, refl, ap, Bool, true, false, not, ◌&&◌, ◌||◌, Option, none, some, List,
  [], ◌∷◌, ◌++◌, arith, ◌==◌, if◌then◌else◌, if_intro, ◌≤◌, leb, ◌∙◌,
}
use neemata.Workflows.Items.{Item}
use neemata.Workflows.Commands.{find_first, remove_at, replace_at, scan}

module _ {P : Type 0} where
  abbrev pub nth : ℕ → List (Item P) → Option (Item P)
  nth i [] = none
  nth zero (x ∷ xs) = some x
  nth (suc i) (x ∷ xs) = nth i xs

  -- How many items of a queue have an id.
  abbrev pub copies : ℕ → List (Item P) → ℕ
  copies id [] = 0
  copies id (x ∷ xs) = (if x.id == id then 1 else 0) + copies id xs

  pub copies-append :
      (id : ℕ) (xs ys : List (Item P)) → copies id (xs ++ ys) ≡ copies id xs + copies id ys
  copies-append id [] ys = omega arith
  copies-append id (x ∷ xs) ys = ground (arith, copies-append id xs ys)

  pub copies-remove_at :
      (id i : ℕ) (x : Item P) (xs : List (Item P))
      → nth i xs ≡ some x
      → (if x.id == id then 1 else 0) + copies id (remove_at i xs) ≡ copies id xs
  unfolding remove_at
  copies-remove_at id i x [] e = ground arith
  copies-remove_at id zero x (y ∷ xs) e = ground arith
  copies-remove_at id (suc i) x (y ∷ xs) e = ground (arith, copies-remove_at id i x xs e)

  pub copies-replace_at :
      (id i : ℕ) (x y : Item P) (xs : List (Item P))
      → nth i xs ≡ some x
      → x.id ≡ y.id
      → copies id (replace_at i y xs) ≡ copies id xs
  unfolding replace_at
  copies-replace_at id i x y [] e same = ground arith
  copies-replace_at id zero x y (z ∷ xs) e same = ground arith
  copies-replace_at id (suc i) x y (z ∷ xs) e same =
      ground (arith, copies-replace_at id i x y xs e same)

  -- No item passes; every item that passes has a key of at least `t`.
  abbrev pub none_pass : (Item P → Bool) → List (Item P) → Bool
  none_pass p [] = true
  none_pass p (x ∷ xs) = not (p x) && none_pass p xs

  abbrev pub none_below : (Item P → Bool) → (Item P → ℕ) → ℕ → List (Item P) → Bool
  none_below p key t [] = true
  none_below p key t (x ∷ xs) = (not (p x) || leb t (key x)) && none_below p key t xs

  none_below_mono :
      (p : Item P → Bool) (key : Item P → ℕ) (t u : ℕ) (xs : List (Item P))
      → u ≤ t
      → none_below p key t xs ≡ true
      → none_below p key u xs ≡ true
  none_below_mono p key t u [] h b = refl
  none_below_mono p key t u (x ∷ xs) h b = ground (arith, none_below_mono p key t u xs h)

  -- What a search that starts at index `i` has found.
  pub record IsFound (p : Item P → Bool) (i : ℕ) (xs : List (Item P)) (j : ℕ) (x : Item P)
      (rest : List (Item P)) : Type 0 where
    pub steps : ℕ
    pub index : j ≡ i + steps
    pub passes : p x ≡ true
    pub here : nth steps xs ≡ some x
    pub behind : (n : ℕ) → nth (suc (steps + n)) xs ≡ nth n rest
    pub bounds :
        (key : Item P → ℕ) (t : ℕ)
        → none_below p key t xs ≡ (leb t (key x) && none_below p key t rest)

  abbrev pub Found :
      (Item P → Bool) → ℕ → List (Item P) → Option (ℕ × Item P × List (Item P)) → Type 0
  Found p i xs none = none_pass p xs ≡ true
  Found p i xs (some (j, x, rest)) = IsFound p i xs j x rest

  later :
      (p : Item P → Bool) (i : ℕ) (x : Item P) (xs : List (Item P))
      (o : Option (ℕ × Item P × List (Item P)))
      → p x ≡ false
      → Found p (suc i) xs o
      → Found p i (x ∷ xs) o
  later p i x xs none fails f = ground arith
  later p i x xs (some (j, y, rest)) fails f = record {
    steps = suc f.steps;
    index = ground (arith, f.index);
    passes = f.passes;
    here = f.here;
    behind = λ n. ap (λ k. nth k xs) (omega arith) ∙ f.behind n;
    bounds = λ key t. ground (arith, f.bounds key t);
  }

  pub find_first-Found :
      (p : Item P → Bool) (i : ℕ) (xs : List (Item P)) → Found p i xs (find_first p i xs)
  unfolding find_first
  find_first-Found p i [] = refl
  find_first-Found p i (x ∷ xs) =
      if_intro (Found p i (x ∷ xs)) (p x) (some (i, x, xs)) (find_first p (suc i) xs)
        (λ holds. record {
          steps = 0;
          index = omega arith;
          passes = holds;
          here = refl;
          behind = λ n. ap (λ k. nth k xs) (omega arith);
          bounds = λ key t. ground arith;
        })
        (λ fails. later p i x xs (find_first p (suc i) xs) fails (find_first-Found p (suc i) xs))

  pub scan-nth :
      (p : Item P → Bool) (before : Item P → Item P → Bool) (q : List (Item P)) (best : ℕ × Item P)
      (i : ℕ) (xs : List (Item P))
      → nth best.0 q ≡ some best.1
      → ((n : ℕ) → nth (i + n) q ≡ nth n xs)
      → nth (scan p before best i xs).0 q ≡ some (scan p before best i xs).1
  unfolding scan
  scan-nth p before q best i [] e at = e
  scan-nth p before q best i (x ∷ xs) e at =
      scan-nth p before q (if p x && before x best.1 then (i, x) else best) (suc i) xs
        (if_intro (λ (r : ℕ × Item P). nth r.0 q ≡ some r.1) (p x && before x best.1) (i, x) best
          (λ _. ap (λ k. nth k q) (omega arith) ∙ at 0) (λ _. e))
        (λ n. ap (λ k. nth k q) (omega arith) ∙ at (suc n))

  pub scan-passes :
      (p : Item P → Bool) (before : Item P → Item P → Bool) (best : ℕ × Item P) (i : ℕ)
      (xs : List (Item P))
      → p best.1 ≡ true
      → p (scan p before best i xs).1 ≡ true
  unfolding scan
  scan-passes p before best i [] e = e
  scan-passes p before best i (x ∷ xs) e =
      scan-passes p before (if p x && before x best.1 then (i, x) else best) (suc i) xs (
        if_intro (λ (r : ℕ × Item P). p r.1 ≡ true) (p x && before x best.1) (i, x) best
          (λ h. ground arith) (λ _. e))

  -- The order that a scan uses agrees with a key.
  pub record Agrees (key : Item P → ℕ) (before : Item P → Item P → Bool) : Type 0 where
    pub first : (x y : Item P) → before x y ≡ true → key x ≤ key y
    pub second : (x y : Item P) → before x y ≡ false → key y ≤ key x

  pub scan-least :
      (p : Item P → Bool) (before : Item P → Item P → Bool) (key : Item P → ℕ)
      → Agrees key before
      → (best : ℕ × Item P) (i : ℕ) (xs : List (Item P))
      → (key (scan p before best i xs).1 ≤ key best.1)
        × (none_below p key (key (scan p before best i xs).1) xs ≡ true)
  unfolding scan
  scan-least p before key agrees best i [] = (omega arith, refl)
  scan-least p before key agrees best i (x ∷ xs) =
      let next : ℕ × Item P = if p x && before x best.1 then (i, x) else best in
      let step : (key next.1 ≤ key best.1) × ((not (p x) || leb (key next.1) (key x)) ≡ true) =
        if_intro
          (λ (r : ℕ × Item P).
            (key r.1 ≤ key best.1) × ((not (p x) || leb (key r.1) (key x)) ≡ true))
          (p x && before x best.1) (i, x) best
          (λ h. (ground (arith, agrees.first x best.1), ground arith))
          (λ h. (omega arith, ground (arith, agrees.second x best.1))) in
      let rest = scan-least p before key agrees next (suc i) xs in
      (omega (arith, rest.0, step.0), ground (arith, rest.0, rest.1, step.1))
