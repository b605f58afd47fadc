-- ===== src/Core/Disposal/Once.antt =====
-- The walk over the instances takes each one exactly once.
use neemata.Common.{
  ℕ, zero, suc, ◌≡◌, sym, subst, true, false, not, ◌&&◌, inl, inr, List, [], ◌∷◌, ◌++◌, ◌==◌,
  if◌then◌else◌, mem, occurrences, occurrences-append, arith, Bool-cases, if_intro,
}
use neemata.Core.Disposal.{Walk, mark, push_owned, for_live, visit}

-- What was visited stays visited.
pub record Grows (w w' : Walk) : Type 0 where
  pub seen : (j : ℕ) → mem j w.visited ≡ true → mem j w'.visited ≡ true

pub Grows-refl : (w : Walk) → Grows w w
Grows-refl w = record { seen = λ j h. h }

pub Grows-trans : (a b c : Walk) → Grows a b → Grows b c → Grows a c
Grows-trans a b c g h = record { seen = λ j k. h.seen j (g.seen j k) }

pub mark-Grows : (i : ℕ) (w : Walk) → Grows w (mark i w)
mark-Grows i w = record { seen = λ j h. ground (arith, h) }

module _ (live : List ℕ) (edges : ℕ → List ℕ) where
  -- What is in the result is what was visited and has an instance, but for the visits that are open.
  pub record Counted (stack : List ℕ) (w : Walk) : Type 0 where
    pub count :
        (j : ℕ)
        → occurrences j w.result
          ≡ (if mem j w.visited && mem j live && not (mem j stack) then 1 else 0)
    pub opened : (j : ℕ) → mem j stack ≡ true → mem j w.visited ≡ true

  pub mark-Counted :
      (stack : List ℕ) (i : ℕ) (w : Walk)
      → mem i w.visited ≡ false
      → Counted stack w
      → Counted (i ∷ stack) (mark i w)
  mark-Counted stack i w new c = record {
    count = λ j. ground (arith, new, c.count j);
    opened = λ j h. ground (arith, h, c.opened j);
  }

  pub push-Counted :
      (stack : List ℕ) (i : ℕ) (w : Walk)
      → mem i w.visited ≡ true
      → mem i stack ≡ false
      → Counted (i ∷ stack) w
      → Counted stack (push_owned live i w)
  push-Counted stack i w old out c = elim (Bool-cases (mem i live)) [
    | inl h ↦ rw h (record {
      count = λ j. elim (Bool-cases (i == j)) [
        | inl e ↦
            subst
              (λ k.
                occurrences k (w.result ++ (i ∷ []))
                ≡ (if mem k w.visited && mem k live && not (mem k stack) then 1 else 0))
              (number i j e)
              (ground (arith, occurrences-append i w.result (i ∷ []), c.count i, old, out, h))
        | inr ne ↦ ground (arith, occurrences-append j w.result (i ∷ []), c.count j, ne)
      ];
      opened = λ j k. c.opened j (ground (arith, k));
    })
    | inr h ↦ rw h (record {
      count = λ j. elim (Bool-cases (i == j)) [
        | inl e ↦
            subst
              (λ k.
                occurrences k w.result
                ≡ (if mem k w.visited && mem k live && not (mem k stack) then 1 else 0))
              (number i j e) (ground (arith, c.count i, h))
        | inr ne ↦ ground (arith, c.count j, ne)
      ];
      opened = λ j k. c.opened j (ground (arith, k));
    })
  ]
    where
      number : (i j : ℕ) → (i == j) ≡ true → i ≡ j
      number i j e = ground arith

  -- What one visit promises.
  pub record Visited (stack : List ℕ) (w w' : Walk) : Type 0 where
    pub grows : Grows w w'
    pub counted : Counted stack w'

  pub for_live-Visited :
      (f : ℕ → Walk → Walk) (stack ds : List ℕ) (w : Walk)
      → ((d : ℕ) (v : Walk) → Counted stack v → Visited stack v (f d v))
      → Counted stack w
      → Visited stack w (for_live live f ds w)
  unfolding for_live
  for_live-Visited f stack [] w h c = record { grows = Grows-refl w; counted = c }
  for_live-Visited f stack (d ∷ ds) w h c = elim (Bool-cases (mem d live)) [
    | inl e ↦
        let one : Visited stack w (f d w) = h d w c in
        let rest : Visited stack (f d w) (for_live live f ds (f d w)) =
          for_live-Visited f stack ds (f d w) h one.counted in
        rw e (record {
          grows = Grows-trans w (f d w) (for_live live f ds (f d w)) one.grows rest.grows;
          counted = rest.counted;
        })
    | inr ne ↦ rw ne (for_live-Visited f stack ds w h c)
  ]

  pub push-Grows : (i : ℕ) (w : Walk) → Grows w (push_owned live i w)
  push-Grows i w = record { seen = λ j h. ground (arith, h) }

  pub visit-Visited :
      (fuel i : ℕ) (stack : List ℕ) (w : Walk)
      → Counted stack w
      → Visited stack w (visit live edges fuel i w)
  unfolding visit
  visit-Visited zero i stack w c = record { grows = Grows-refl w; counted = c }
  visit-Visited (suc fuel) i stack w c = elim (Bool-cases (mem i w.visited)) [
    | inl old ↦ rw old (record { grows = Grows-refl w; counted = c })
    | inr new ↦
        let inner : Walk = for_live live (visit live edges fuel) (edges i) (mark i w) in
        let loop : Visited (i ∷ stack) (mark i w) inner =
          for_live-Visited (visit live edges fuel) (i ∷ stack) (edges i) (mark i w)
            (λ d v. visit-Visited fuel d (i ∷ stack) v) (mark-Counted stack i w new c) in
        rw new (record {
          grows = Grows-trans w (mark i w) (push_owned live i inner) (mark-Grows i w) (
              Grows-trans (mark i w) inner (push_owned live i inner) loop.grows
                (push-Grows i inner));
          counted =
              push-Counted stack i inner (loop.grows.seen i (ground arith))
                (ground (arith, c.opened i)) loop.counted;
        })
  ]

  -- A visit marks its instance.
  pub visit_marks :
      (fuel i : ℕ) (stack : List ℕ) (w : Walk)
      → Counted stack w
      → mem i (visit live edges (suc fuel) i w).visited ≡ true
  unfolding visit
  visit_marks fuel i stack w c = elim (Bool-cases (mem i w.visited)) [
    | inl old ↦ rw old old
    | inr new ↦
        let inner : Walk = for_live live (visit live edges fuel) (edges i) (mark i w) in
        let loop : Visited (i ∷ stack) (mark i w) inner =
          for_live-Visited (visit live edges fuel) (i ∷ stack) (edges i) (mark i w)
            (λ d v. visit-Visited fuel d (i ∷ stack) v) (mark-Counted stack i w new c) in
        rw new ((push-Grows i inner).seen i (loop.grows.seen i (ground arith)))
  ]

  -- The loop visits all that it is given.
  pub for_live-visits :
      (fuel : ℕ) (stack ds : List ℕ) (w : Walk)
      → Counted stack w
      → (d : ℕ) → mem d ds ≡ true
      → mem d live ≡ true
      → mem d (for_live live (visit live edges (suc fuel)) ds w).visited ≡ true
  unfolding for_live
  for_live-visits fuel stack [] w c d k l = absurd (ground (arith, k))
  for_live-visits fuel stack (e ∷ ds) w c d k l =
      let f : ℕ → Walk → Walk = visit live edges (suc fuel) in
      if_intro (λ v. mem d (for_live live f ds v).visited ≡ true) (mem e live) (f e w) w
        (λ own.
          let one : Visited stack w (f e w) = visit-Visited (suc fuel) e stack w c in
          let more : Visited stack (f e w) (for_live live f ds (f e w)) =
            for_live-Visited f stack ds (f e w) (λ x v. visit-Visited (suc fuel) x stack v)
              one.counted in
          elim (Bool-cases (e == d)) [
            | inl same ↦
                subst (λ x. mem x (for_live live f ds (f e w)).visited ≡ true) (number e d same)
                  (more.grows.seen e (visit_marks fuel e stack w c))
            | inr other ↦
                for_live-visits fuel stack ds (f e w) one.counted d (ground (arith, k, other)) l
          ])
        (λ foreign. elim (Bool-cases (e == d)) [
          | inl same ↦
              absurd
                (ground (arith, foreign, subst (λ x. mem x live ≡ true) (sym (number e d same)) l))
          | inr other ↦ for_live-visits fuel stack ds w c d (ground (arith, k, other)) l
        ])
    where
      number : (i j : ℕ) → (i == j) ≡ true → i ≡ j
      number i j e = ground arith
