-- ===== src/Workflows/Runs/Unique.antt =====
-- The active unique keys of the store name the runs that hold them.
use neemata.Common.{
  ℕ, ◌≤◌, ◌≡◌, refl, ap, Bool, true, false, not, ◌&&◌, ◌||◌, Option, none, some, arith, ◌==◌,
  if_intro, ok, err,
}
use neemata.Workflows.Transitions.{is_terminal}
use neemata.Workflows.Runs.{
  Scope, active_scope, all_scope, UniqueKey, Run, CreateRunInput, Store, Created, active_key,
  insert_run, on_conflict, keys_of, run_under, check_unique, check_idempotency, points_to, set,
  reuse, inserted, run_matches_create_input,
}

abbrev pub key_held : Option ℕ → ℕ → (ℕ → Option ℕ) → Bool
key_held none i m = true
key_held (some k) i m = points_to (m k) i

-- A run that is not over is the holder of its active key.
abbrev pub holds : Option Run → ℕ → (ℕ → Option ℕ) → Bool
holds none i m = true
holds (some r) i m = r.id == i && (is_terminal r.status || key_held (active_key r.unique) i m)

abbrev pub key_is : ℕ → Option ℕ → Bool
key_is k none = false
key_is k (some j) = j == k

abbrev pub is_live_with : ℕ → Option Run → Bool
is_live_with k none = false
is_live_with k (some r) = not (is_terminal r.status) && key_is k (active_key r.unique)

-- The holder of a key is a run with it that is not over.
abbrev pub owned : ℕ → Option ℕ → (ℕ → Option Run) → Bool
owned k none runs = true
owned k (some i) runs = is_live_with k (runs i)

pub record Inv (s : Store) : Type 0 where
  pub held : (i : ℕ) → holds (s.runs i) i s.active_keys ≡ true
  pub owners : (k : ℕ) → owned k (s.active_keys k) s.runs ≡ true
  pub fresh : (i : ℕ) → s.next_id ≤ i → s.runs i ≡ none

abbrev Unowned : Option ℕ → (ℕ → Option ℕ) → Type 0
Unowned none m = Unit {0}
Unowned (some k) m = m k ≡ none

owned-fresh :
    (k : ℕ) (o : Option ℕ) (n : ℕ) (r : Option Run) (runs : ℕ → Option Run)
    → runs n ≡ none
    → owned k o runs ≡ true
    → owned k o (set n r runs) ≡ true
owned-fresh k none n r runs e h = refl
owned-fresh k (some i) n r runs e h =
    if_intro (λ o. is_live_with k o ≡ true) (i == n) r (runs i)
      (λ same. absurd (ground (arith, ap (λ j. is_live_with k (runs j)) (number same)))) (λ _. h)
  where
    number : (i == n) ≡ true → i ≡ n
    number same = ground arith

owned-new :
    (k key n : ℕ) (r : Run) (runs : ℕ → Option Run)
    → is_terminal r.status ≡ false
    → active_key r.unique ≡ some key
    → (k == key) ≡ true
    → owned k (some n) (set n (some r) runs) ≡ true
owned-new k key n r runs live e same = ground (arith, ap (key_is k) e)

key_held-set :
    (a : Option ℕ) (i key n : ℕ) (m : ℕ → Option ℕ)
    → m key ≡ none
    → key_held a i m ≡ true
    → key_held a i (set key (some n) m) ≡ true
key_held-set none i key n m e h = refl
key_held-set (some k) i key n m e h =
    if_intro (λ o. points_to o i ≡ true) (k == key) (some n) (m k)
      (λ same. absurd (ground (arith, ap (λ j. points_to (m j) i) (number same)))) (λ _. h)
  where
    number : (k == key) ≡ true → k ≡ key
    number same = ground arith

holds-set :
    (o : Option Run) (i key n : ℕ) (m : ℕ → Option ℕ)
    → m key ≡ none
    → holds o i m ≡ true
    → holds o i (set key (some n) m) ≡ true
holds-set none i key n m e h = refl
holds-set (some r) i key n m e h = ground (arith, key_held-set (active_key r.unique) i key n m e)

-- A create that fails leaves the store as it is.
abbrev pub after : Store → Created → Store
after s (ok r) = r.0
after s (err e) = s

insert_run-Inv :
    (clock : ℕ) (input : CreateRunInput) (a : Option ℕ) (s : Store)
    → active_key input.unique ≡ a
    → Unowned a s.active_keys
    → Inv s
    → Inv (insert_run clock input s).0
unfolding insert_run
insert_run-Inv clock input none s e free v = record {
  held = λ i. simp e (ground (arith, v.held i, v.fresh i));
  owners = λ k. simp e (
      owned-fresh k (s.active_keys k) s.next_id _ s.runs (v.fresh s.next_id (omega arith))
        (v.owners k));
  fresh = λ i h. ground (arith, v.fresh i);
}
insert_run-Inv clock input (some key) s e free v = record {
  held = λ i. simp e (
      if_intro (λ o. holds o i (set key (some s.next_id) s.active_keys) ≡ true) (i == s.next_id) _
        (s.runs i) (λ same. simp e (ground arith))
        (λ _. holds-set (s.runs i) i key s.next_id s.active_keys free (v.held i)));
  owners = λ k. simp e (
      if_intro (λ o. owned k o (set s.next_id (some (insert_run clock input s).1) s.runs) ≡ true)
        (k == key) (some s.next_id) (s.active_keys k)
        (λ same. owned-new k key s.next_id _ s.runs refl e same)
        (λ _.
          owned-fresh k (s.active_keys k) s.next_id _ s.runs (v.fresh s.next_id (omega arith))
            (v.owners k)));
  fresh = λ i h. ground (arith, v.fresh i);
}

run_under-Unowned :
    (u : UniqueKey) (scope : Scope) (o : Option ℕ) (s : Store)
    → u.scope ≡ scope
    → keys_of scope s u.key ≡ o
    → run_under o s ≡ none
    → Inv s
    → Unowned (active_key (some u)) s.active_keys
run_under-Unowned u all_scope o s e k n v = rw e tt
run_under-Unowned u active_scope none s e k n v = rw e k
run_under-Unowned u active_scope (some i) s e k n v =
    absurd
      (ground (arith, v.owners u.key, ap (λ o. owned u.key o s.runs) k, ap (is_live_with u.key) n))

on_conflict-Inv :
    (clock : ℕ) (input : CreateRunInput) (joins : Bool) (o : Option Run) (s : Store)
    → ((o ≡ none) → Unowned (active_key input.unique) s.active_keys)
    → Inv s
    → Inv (after s (on_conflict clock input joins o s))
unfolding on_conflict inserted
on_conflict-Inv clock input joins none s free v =
    insert_run-Inv clock input (active_key input.unique) s refl (free refl) v
on_conflict-Inv clock input true (some run) s free v = v
on_conflict-Inv clock input false (some run) s free v = v

check_unique-Inv :
    (clock : ℕ) (input : CreateRunInput) (o : Option UniqueKey) (s : Store)
    → input.unique ≡ o
    → Inv s
    → Inv (after s (check_unique clock input o s))
unfolding check_unique inserted
check_unique-Inv clock input none s e v = insert_run-Inv clock input none s (ap active_key e) tt v
check_unique-Inv clock input (some u) s e v =
    on_conflict-Inv clock input u.joins (run_under (keys_of u.scope s u.key) s) s
      (λ n. rw e (run_under-Unowned u u.scope (keys_of u.scope s u.key) s refl refl n v)) v

reuse-Inv :
    (input : CreateRunInput) (o : Option Run) (s : Store) → Inv s → Inv (after s (reuse input o s))
reuse-Inv input none s v = v
reuse-Inv input (some run) s v =
    if_intro (λ r. Inv (after s r)) (run_matches_create_input run input) _ _ (λ _. v) (λ _. v)

pub check_idempotency-Inv :
    (clock : ℕ) (input : CreateRunInput) (o : Option ℕ) (s : Store)
    → Inv s
    → Inv (after s (check_idempotency clock input o s))
unfolding check_idempotency
check_idempotency-Inv clock input none s v = check_unique-Inv clock input input.unique s refl v
check_idempotency-Inv clock input (some i) s v = reuse-Inv input (s.runs i) s v
