-- ===== src/Core/Disposal/Sorted.antt =====
-- The walk disposes of an instance only after all that depend on it.
use neemata.Common.{
  ℕ, zero, suc, ◌<◌, ◌≡◌, ap, sym, subst, Bool, true, false, inl, inr, List, [], ◌∷◌, ◌++◌, ◌==◌,
  if◌then◌else◌, mem, mem-append, occurrences-mem, mem-occurrences, unseen, unseen-le, unseen-lt,
  arith, Bool-cases, if_intro,
}
use neemata.Core.Disposal.{Walk, mark, push_owned, for_live, visit}
use neemata.Core.Disposal.Once.{
  Counted, Visited, Grows, visit-Visited, for_live-Visited, visit_marks, mark-Counted,
}

-- `d` stands before `i` in the list, in which both are.
abbrev pub precedes : ℕ → ℕ → List ℕ → Bool
precedes d i [] = false
precedes d i (x ∷ xs) = if x == i then false else (if x == d then mem i xs else precedes d i xs)

precedes-append :
    (d i : ℕ) (xs ys : List ℕ) → precedes d i xs ≡ true → precedes d i (xs ++ ys) ≡ true
precedes-append d i [] ys h = ground arith
precedes-append d i (x ∷ xs) ys h = ground (arith, h, precedes-append d i xs ys, mem-append i xs ys)

precedes_last :
    (d i : ℕ) (xs : List ℕ)
    → mem d xs ≡ true
    → mem i xs ≡ false
    → precedes d i (xs ++ (i ∷ [])) ≡ true
precedes_last d i [] h new = ground arith
precedes_last d i (x ∷ xs) h new =
    ground (arith, h, new, precedes_last d i xs, mem-append i xs (i ∷ []))

module _ (live : List ℕ) (edges : ℕ → List ℕ) (rank : ℕ → ℕ)
    (acyclic : (i d : ℕ)
      → mem d (edges i) ≡ true
      → mem d live ≡ true
      → mem i live ≡ true
      → rank d < rank i) where
  pub record Sorted (w : Walk) : Type 0 where
    pub sorted :
        (i d : ℕ)
        → mem d (edges i) ≡ true
        → mem d live ≡ true
        → mem i w.result ≡ true
        → precedes d i w.result ≡ true

  push-Sorted :
      (i : ℕ) (stack : List ℕ) (w : Walk)
      → mem i live ≡ true
      → mem i w.visited ≡ true
      → Counted live edges (i ∷ stack) w
      → ((x : ℕ) → mem x stack ≡ true → rank i < rank x)
      → ((d : ℕ) → mem d (edges i) ≡ true → mem d live ≡ true → mem d w.visited ≡ true)
      → Sorted w
      → Sorted (push_owned live i w)
  push-Sorted i stack w own old c above seen s = rw own (record {
    sorted = λ j d e l r. elim (Bool-cases (i == j)) [
      | inl same ↦
          subst (λ k. mem d (edges k) ≡ true → precedes d k (w.result ++ (i ∷ [])) ≡ true)
            (number i j same)
            (λ e'.
              precedes_last d i w.result (before d e' l)
                (ground (arith, c.count i, mem-occurrences i w.result)))
            e
      | inr other ↦
          precedes-append d j w.result (i ∷ [])
            (s.sorted j d e l (ground (arith, mem-append j w.result (i ∷ []), r, other)))
    ];
  })
    where
      number : (i j : ℕ) → (i == j) ≡ true → i ≡ j
      number i j e = ground arith

      closed : (d : ℕ) → rank d < rank i → mem d (i ∷ stack) ≡ false
      closed d lt = elim (Bool-cases (i == d)) [
        | inl e ↦ absurd (omega (arith, ap rank (number i d e)))
        | inr ne ↦ elim (Bool-cases (mem d stack)) [
          | inl h ↦ absurd (omega (arith, above d h))
          | inr h ↦ ground (arith, ne, h)
        ]
      ]

      before : (d : ℕ) → mem d (edges i) ≡ true → mem d live ≡ true → mem d w.result ≡ true
      before d e l =
          occurrences-mem d w.result
            (ground (arith, c.count d, seen d e l, l, closed d (acyclic i d e l own)))

  abbrev Above : ℕ → List ℕ → Type 0
  Above d stack = (x : ℕ) → mem x stack ≡ true → rank d < rank x

  unseen_after :
      (w w' : Walk) (n : ℕ) → Grows w w' → unseen w.visited live < n → unseen w'.visited live < n
  unseen_after w w' n g h = omega (arith, unseen-le w.visited w'.visited live g.seen)

  -- What the loop over some dependants leaves.
  abbrev Done : List ℕ → Walk → Type 0
  Done ds w = Sorted w × ((d : ℕ) → mem d ds ≡ true → mem d live ≡ true → mem d w.visited ≡ true)

  pub for_live-Sorted :
      (fuel : ℕ) (stack ds : List ℕ) (w : Walk)
      → ((d : ℕ) (v : Walk)
          → mem d live ≡ true
          → Above d stack
          → unseen v.visited live < suc fuel
          → Counted live edges stack v
          → Sorted v
          → Sorted (visit live edges (suc fuel) d v))
      → ((d : ℕ) → mem d ds ≡ true → mem d live ≡ true → Above d stack)
      → unseen w.visited live < suc fuel
      → Counted live edges stack w
      → Sorted w
      → Done ds (for_live live (visit live edges (suc fuel)) ds w)
  unfolding for_live
  for_live-Sorted fuel stack [] w h below lt c s = (s, λ d e l. absurd (ground (arith, e)))
  for_live-Sorted fuel stack (d ∷ ds) w h below lt c s =
      let f : ℕ → Walk → Walk = visit live edges (suc fuel) in
      if_intro (λ v. Done (d ∷ ds) (for_live live f ds v)) (mem d live) (f d w) w
        (λ own.
          let one : Visited live edges stack w (f d w) =
            visit-Visited live edges (suc fuel) d stack w c in
          let more : Visited live edges stack (f d w) (for_live live f ds (f d w)) =
            for_live-Visited live edges f stack ds (f d w)
              (λ e v. visit-Visited live edges (suc fuel) e stack v) one.counted in
          let rest : Done ds (for_live live f ds (f d w)) =
            for_live-Sorted fuel stack ds (f d w) h (λ e k. below e (ground (arith, k)))
              (unseen_after w (f d w) (suc fuel) one.grows lt) one.counted
              (h d w own (below d (ground arith) own) lt c s) in
          (
            rest.0,
            λ e k l. elim (Bool-cases (d == e)) [
              | inl same ↦
                  subst (λ x. mem x (for_live live f ds (f d w)).visited ≡ true) (number d e same)
                    (more.grows.seen d (visit_marks live edges fuel d stack w c))
              | inr other ↦ rest.1 e (ground (arith, k, other)) l
            ],
          ))
        (λ foreign.
          let rest : Done ds (for_live live f ds w) =
            for_live-Sorted fuel stack ds w h (λ e k. below e (ground (arith, k))) lt c s in
          (
            rest.0,
            λ e k l. elim (Bool-cases (d == e)) [
              | inl same ↦ absurd (
                  ground (arith, foreign, subst (λ x. mem x live ≡ true) (sym (number d e same)) l))
              | inr other ↦ rest.1 e (ground (arith, k, other)) l
            ],
          ))
    where
      number : (i j : ℕ) → (i == j) ≡ true → i ≡ j
      number i j e = ground arith

  pub visit-Sorted :
      (fuel i : ℕ) (stack : List ℕ) (w : Walk)
      → mem i live ≡ true
      → Above i stack
      → unseen w.visited live < fuel
      → Counted live edges stack w
      → Sorted w
      → Sorted (visit live edges fuel i w)
  unfolding visit
  visit-Sorted zero i stack w own above lt c s = s
  visit-Sorted (suc zero) i stack w own above lt c s = elim (Bool-cases (mem i w.visited)) [
    | inl old ↦ rw old s
    | inr new ↦ absurd (omega (arith, unseen-lt w.visited live i own new))
  ]
  visit-Sorted (suc (suc fuel)) i stack w own above lt c s = elim (Bool-cases (mem i w.visited)) [
    | inl old ↦ rw old s
    | inr new ↦
        let f : ℕ → Walk → Walk = visit live edges (suc fuel) in
        let inner : Walk = for_live live f (edges i) (mark i w) in
        let open_counted : Counted live edges (i ∷ stack) (mark i w) =
          mark-Counted live edges stack i w new c in
        let loop : Visited live edges (i ∷ stack) (mark i w) inner =
          for_live-Visited live edges f (i ∷ stack) (edges i) (mark i w)
            (λ d v. visit-Visited live edges (suc fuel) d (i ∷ stack) v) open_counted in
        let rest : Done (edges i) inner =
          for_live-Sorted fuel (i ∷ stack) (edges i) (mark i w)
            (λ d v. visit-Sorted (suc fuel) d (i ∷ stack) v)
            (λ d e l x h. elim (Bool-cases (i == x)) [
              | inl same ↦ omega (arith, ap rank (number i x same), acyclic i d e l own)
              | inr other ↦ omega (arith, above x (ground (arith, h, other)), acyclic i d e l own)
            ])
            (omega (arith, unseen-lt w.visited live i own new)) open_counted
            (record { sorted = s.sorted }) in
        rw new (
          push-Sorted i stack inner own (loop.grows.seen i (ground arith)) loop.counted above rest.1
            rest.0)
  ]
    where
      number : (i j : ℕ) → (i == j) ≡ true → i ≡ j
      number i j e = ground arith
