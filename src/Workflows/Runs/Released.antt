-- ===== src/Workflows/Runs/Released.antt =====
-- What becomes of the active unique keys when a run is over.
use neemata.Common.{
  ℕ, ◌≡◌, inl, inr, refl, ap, sym, ◌∙◌, true, false, Option, none, some, arith, ◌==◌, if_intro,
  Bool-cases,
}
use neemata.Workflows.Runs.{Run, Store, active_key, points_to, release_key, set}
use neemata.Workflows.Runs.Unique.{Inv, holds, key_held, key_is, is_live_with, owned}

-- A run keeps its id and its key; an active key is freed if the run is over.
both_point :
    (o : Option ℕ) (i id : ℕ) → points_to o i ≡ true → points_to o id ≡ true → (i == id) ≡ true
both_point none i id a b = ground arith
both_point (some h) i id a b = ground arith

key_held-release :
    (a : Option ℕ) (i id key : ℕ) (m : ℕ → Option ℕ)
    → (i == id) ≡ false
    → points_to (m key) id ≡ true
    → key_held a i m ≡ true
    → key_held a i (set key none m) ≡ true
key_held-release none i id key m ne p h = refl
key_held-release (some k) i id key m ne p h =
    if_intro (λ o. points_to o i ≡ true) (k == key) none (m k)
      (λ same. absurd (ground (arith, both_point (m key) i id (redirected (number same)) p)))
      (λ _. h)
  where
    number : (k == key) ≡ true → k ≡ key
    number same = ground arith

    redirected : k ≡ key → points_to (m key) i ≡ true
    redirected e = ap (λ j. points_to (m j) i) (sym e) ∙ h

pub release-held :
    (o : Option Run) (i id : ℕ) (a : Option ℕ) (m : ℕ → Option ℕ)
    → (i == id) ≡ false
    → holds o i m ≡ true
    → holds o i (release_key a id m) ≡ true
release-held o i id none m ne h = h
release-held none i id (some key) m ne h = refl
release-held (some r) i id (some key) m ne h =
    if_intro (λ n. holds (some r) i n ≡ true) (points_to (m key) id) (set key none m) m
      (λ p. ground (arith, h, key_held-release (active_key r.unique) i id key m ne p)) (λ _. h)

-- The other runs' keys have the owners that they had.
owned-set :
    (k : ℕ) (o : Option ℕ) (n : ℕ) (r : Option Run) (runs : ℕ → Option Run)
    → points_to o n ≡ false
    → owned k o runs ≡ true
    → owned k o (set n r runs) ≡ true
owned-set k none n r runs ne h = refl
owned-set k (some i) n r runs ne h = ground arith

owner-live :
    (k : ℕ) (o : Option ℕ) (id : ℕ) (runs : ℕ → Option Run)
    → points_to o id ≡ true
    → owned k o runs ≡ true
    → is_live_with k (runs id) ≡ true
owner-live k none id runs p h = ground arith
owner-live k (some i) id runs p h = ap (λ j. is_live_with k (runs j)) (sym number) ∙ h
  where
    number : i ≡ id
    number = ground arith

-- Where a key points to the run `id`, it is that run's active key.
owner-key :
    (k id : ℕ) (a : Option ℕ) (r : Run) (s : Store)
    → s.runs id ≡ some r
    → active_key r.unique ≡ a
    → points_to (s.active_keys k) id ≡ true
    → Inv s
    → key_is k a ≡ true
owner-key k id a r s at e p v =
    let live : is_live_with k (some r) ≡ true =
      sym (ap (is_live_with k) at) ∙ owner-live k (s.active_keys k) id s.runs p (v.owners k) in
    ap (key_is k) (sym e) ∙ ground (arith, live)

-- The keys that are left once the run `id` is over.
pub release-owned :
    (k : ℕ) (a : Option ℕ) (id : ℕ) (r over : Run) (s : Store)
    → s.runs id ≡ some r
    → active_key r.unique ≡ a
    → Inv s
    → owned k (release_key a id s.active_keys k) (set id (some over) s.runs) ≡ true
release-owned k none id r over s at e v = elim (Bool-cases (points_to (s.active_keys k) id)) [
  | inl p ↦ absurd (ground (arith, owner-key k id none r s at e p v))
  | inr ne ↦ owned-set k (s.active_keys k) id (some over) s.runs ne (v.owners k)
]
release-owned k (some key) id r over s at e v =
    if_intro (λ m. owned k (m k) (set id (some over) s.runs) ≡ true)
      (points_to (s.active_keys key) id) (set key none s.active_keys) s.active_keys
      (λ p.
        if_intro (λ o. owned k o (set id (some over) s.runs) ≡ true) (k == key) none
          (s.active_keys k) (λ _. refl) (λ ne. elsewhere ne))
      (λ n. elim (Bool-cases (points_to (s.active_keys k) id)) [
        | inl p ↦ absurd (
            ground (
              arith,
              ap (λ j. points_to (s.active_keys j) id)
                  (same (owner-key k id (some key) r s at e p v)),
              n,
            ))
        | inr ne ↦ owned-set k (s.active_keys k) id (some over) s.runs ne (v.owners k)
      ])
  where
    same : key_is k (some key) ≡ true → key ≡ k
    same h = ground arith

    elsewhere : (k == key) ≡ false → owned k (s.active_keys k) (set id (some over) s.runs) ≡ true
    elsewhere ne = elim (Bool-cases (points_to (s.active_keys k) id)) [
      | inl p ↦ absurd (ground (arith, owner-key k id (some key) r s at e p v))
      | inr apart ↦ owned-set k (s.active_keys k) id (some over) s.runs apart (v.owners k)
    ]
