-- ===== src/Core/Disposal/Order.antt =====
-- The disposal of a container as a whole.
use neemata.Common.{
  ℕ, suc, ◌<◌, ◌≡◌, refl, ap, sym, ◌∙◌, true, inl, inr, List, [], ◌∷◌, if◌then◌else◌, length, mem,
  occurrences, occurrences-mem, unseen, arith, Bool-cases,
}
use neemata.Core.Disposal.{
  Instances, for_live, visit, start, walk, keys, entries, get_disposal_order, disposed, dispose,
}
use neemata.Core.Disposal.Once.{Counted, visit-Visited, for_live-Visited, for_live-visits}
use neemata.Core.Disposal.Sorted.{for_live-Sorted, visit-Sorted, precedes}

keys-disposed : (is : List ℕ) (m : List (ℕ × List ℕ)) → keys (disposed is m) ≡ is
unfolding disposed
keys-disposed [] m = refl
keys-disposed (i ∷ is) m = ap (◌∷◌ i) (keys-disposed is m)

unseen_start : (xs : List ℕ) → unseen [] xs ≡ length xs
unseen_start [] = refl
unseen_start (x ∷ xs) = omega (arith, unseen_start xs)

start-Counted : (live : List ℕ) (edges : ℕ → List ℕ) → Counted live edges [] start
start-Counted live edges = record { count = λ j. refl; opened = λ j h. absurd (ground (arith, h)) }

walk-Counted : (live : List ℕ) (edges : ℕ → List ℕ) → Counted live edges [] (walk live edges)
unfolding walk for_live
walk-Counted live edges =
    (for_live-Visited live edges (visit live edges (suc (length live))) [] live start
      (λ d v. visit-Visited live edges (suc (length live)) d [] v)
      (start-Counted live edges)).counted

-- The disposal of a container, whatever depends on what in it, takes each injectable that has
-- instances exactly once and no other.
pub dispose_once :
    (c : Instances) (i : ℕ)
    → occurrences i (keys (dispose c).0) ≡ (if mem i (keys c.instances) then 1 else 0)
unfolding dispose get_disposal_order
dispose_once c i =
    let live : List ℕ = keys c.instances in
    let edges : ℕ → List ℕ = λ j. entries j c.dependants in
    rw (keys-disposed (get_disposal_order c) c.instances) (elim (Bool-cases (mem i live)) [
      | inl own ↦ ground (
        arith,
        own,
        (walk-Counted live edges).count i,
        for_live-visits live edges (length live) [] live start (start-Counted live edges) i own own,
      )
      | inr foreign ↦ ground (arith, foreign, (walk-Counted live edges).count i)
    ])

-- Let the dependants that have instances have no cycle, so that a rank falls from each injectable to
-- its dependants. Then an injectable is disposed only after every dependant of it that has instances.
pub dispose_dependants :
    (c : Instances) (rank : ℕ → ℕ)
    → ((i d : ℕ)
        → mem d (entries i c.dependants) ≡ true
        → mem d (keys c.instances) ≡ true
        → mem i (keys c.instances) ≡ true
        → rank d < rank i)
    → (i d : ℕ) → mem d (entries i c.dependants) ≡ true
    → mem d (keys c.instances) ≡ true
    → mem i (keys c.instances) ≡ true
    → precedes d i (keys (dispose c).0) ≡ true
unfolding dispose get_disposal_order
dispose_dependants c rank acyclic i d e l own =
    let live : List ℕ = keys c.instances in
    let edges : ℕ → List ℕ = λ j. entries j c.dependants in
    let once : occurrences i (get_disposal_order c) ≡ (if mem i live then 1 else 0) =
      ap (occurrences i) (sym (keys-disposed (get_disposal_order c) c.instances))
      ∙ dispose_once c i in
    rw (keys-disposed (get_disposal_order c) c.instances) (
      (for_live-Sorted live edges rank acyclic (length live) [] live start
          (λ j v k a lt n s.
            visit-Sorted live edges rank acyclic (suc (length live)) j [] v k a lt n s)
          (λ j k m x h. absurd (ground (arith, h))) (omega (arith, unseen_start live))
          (start-Counted live edges)
          (record { sorted = λ j k a b h. absurd (ground (arith, h)) })).0.sorted
        i d e l (occurrences-mem i (get_disposal_order c) (ground (arith, once, own))))
