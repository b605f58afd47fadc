-- ===== src/Workflows/Nodes/Table.antt =====
-- A `Map` whose entries carry their key, in the order of insertion, as the store of
-- packages/workflows/src/runtime/in-memory.ts keeps its nodes, children and attempts.
use neemata.Common.{
  ◌≡◌, refl, ap, subst, ◌∙◌, Bool, true, Option, none, some, List, [], ◌∷◌, arith, if◌then◌else◌,
  if_intro, Bool-cases, inl, inr,
}

-- Keys that can be compared, with the key of an entry.
pub record Keyed (V : Type 0) : Type 1 where
  pub Key : Type 0
  pub same : Key → Key → Bool
  pub key_of : V → Key
  pub same_refl : (k : Key) → same k k ≡ true
  pub same_eq : (j k : Key) → same j k ≡ true → j ≡ k

-- Keys that are equal to one key are equal to each other.
meet :
    {V : Type 0} (t : Keyed V) (k i j : t.Key)
    → t.same k i ≡ true
    → t.same k j ≡ true
    → t.same i j ≡ true
meet t k i j h h' = subst (λ x. t.same x j ≡ true) (t.same_eq k i h) h'

module _ {V : Type 0} ⦃t : Keyed V⦄ where
  open t use {Key, same, key_of}

  -- `get`.
  unfoldable pub find : Key → List V → Option V
  find k [] = none
  find k (v ∷ vs) = if same k (key_of v) then some v else find k vs

  -- `set`: an entry keeps its place, a new one comes last.
  unfoldable pub put : V → List V → List V
  put v [] = v ∷ []
  put v (w ∷ ws) = if same (key_of v) (key_of w) then v ∷ ws else w ∷ put v ws

  -- An entry that is found has the key that was asked for.
  pub find-key : (k : Key) (vs : List V) {v : V} → find k vs ≡ some v → k ≡ key_of v
  unfolding find
  find-key k [] h = ground arith
  find-key k (w ∷ ws) {v} h =
      if_intro (λ o. o ≡ some v → k ≡ key_of v) (same k (key_of w)) (some w) (find k ws)
        (λ e h'. t.same_eq k (key_of w) e ∙ ap key_of (ground (arith, h'))) (λ _. find-key k ws) h

  -- After `put` the new entry is found under its key, and every other key as before.
  pub find-put :
      (k : Key) (v : V) (vs : List V)
      → find k (put v vs) ≡ (if same k (key_of v) then some v else find k vs)
  unfolding find put
  find-put k v [] = refl
  find-put k v (w ∷ ws) = elim (Bool-cases (same (key_of v) (key_of w))) [
    | inl e ↦ rw e (rw (ap (same k) (t.same_eq (key_of v) (key_of w) e)) (ground arith))
    | inr e ↦ rw (e, find-put k v ws) (ground (arith, meet t k (key_of v) (key_of w)))
  ]
