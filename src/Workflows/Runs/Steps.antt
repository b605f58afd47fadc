-- ===== src/Workflows/Runs/Steps.antt =====
-- The operations on runs in any order.
use neemata.Common.{
  ℕ, ◌≤◌, ◌≡◌, inl, inr, refl, ap, subst, sym, ◌∙◌, Bool, true, false, Option, none, some, arith,
  ◌==◌, if_intro, Bool-cases,
}
use neemata.Workflows.Items.{now}
use neemata.Workflows.Transitions.{RunStatus, can_transition, is_terminal}
use neemata.Workflows.Runs.{
  Run, CreateRunInput, Store, active_key, create_run, points_to, release_key, update_run, moved,
  RunOperation, target, goes_ahead, operating, operate, set, looked_up,
}
use neemata.Workflows.Transitions.{cancelling, completed, failed, cancelled, every}
use neemata.Workflows.Runs.{
  mark_running, mark_waiting, complete, fail, request_cancellation, cancel,
}
use neemata.Workflows.Runs.Unique.{
  Inv, holds, key_held, key_is, is_live_with, owned, after, check_idempotency-Inv,
}
use neemata.Workflows.Runs.Released.{release-held, release-owned}

-- The operations go ahead exactly where the table of transitions lets them, those too that do not
-- ask it.
pub goes_ahead-table :
    (op : RunOperation) (status : RunStatus)
    → goes_ahead op status ≡ can_transition status (target op)
goes_ahead-table mark_running status = refl
goes_ahead-table mark_waiting status = refl
goes_ahead-table (complete output) status =
    every (λ s. goes_ahead (complete output) s ≡ can_transition s completed) refl refl refl refl
      refl refl refl status
goes_ahead-table (fail reason) status =
    every (λ s. goes_ahead (fail reason) s ≡ can_transition s failed) refl refl refl refl refl refl
      refl status
goes_ahead-table request_cancellation status =
    every (λ s. goes_ahead request_cancellation s ≡ can_transition s cancelling) refl refl refl refl
      refl refl refl status
goes_ahead-table cancel status =
    every (λ s. goes_ahead cancel s ≡ can_transition s cancelled) refl refl refl refl refl refl refl
      status

no_way_out : (from to : RunStatus) → can_transition from to ≡ true → is_terminal from ≡ false
no_way_out from to =
    every (λ f. can_transition f to ≡ true → is_terminal f ≡ false) (λ _. refl) (λ _. refl)
      (λ _. refl) (λ _. refl) (λ h. absurd (ground arith)) (λ h. absurd (ground arith))
      (λ h. absurd (ground arith)) from

goes_ahead-live :
    (op : RunOperation) (status : RunStatus)
    → goes_ahead op status ≡ true
    → is_terminal status ≡ false
goes_ahead-live op status h = no_way_out status (target op) (sym (goes_ahead-table op status) ∙ h)

-- A run moves on, and keeps its id and its key.
moved-held :
    (i : ℕ) (m : ℕ → Option ℕ) (r : Run) (op : RunOperation) (date : ℕ)
    → is_terminal r.status ≡ false
    → holds (some r) i m ≡ true
    → holds (some (moved op date r)) i m ≡ true
moved-held i m r op date live h = ground (arith, h)

moved-owned :
    (k : ℕ) (o : Option ℕ) (id : ℕ) (r after_it : Run) (runs : ℕ → Option Run)
    → runs id ≡ some r
    → is_terminal after_it.status ≡ false
    → after_it.unique ≡ r.unique
    → owned k o runs ≡ true
    → owned k o (set id (some after_it) runs) ≡ true
moved-owned k none id r after_it runs at live same h = refl
moved-owned k (some i) id r after_it runs at live same h =
    if_intro (λ q. is_live_with k q ≡ true) (i == id) (some after_it) (runs i)
      (λ e. ground (
        arith,
        live,
        ap (λ u. key_is k (active_key u)) same,
        sym (ap (is_live_with k) at) ∙ ap (λ j. is_live_with k (runs j)) (sym (number e)) ∙ h,
      ))
      (λ _. h)
  where
    number : (i == id) ≡ true → i ≡ id
    number e = ground arith

fresh-set :
    (i id : ℕ) (r : Run) (q : Option Run) (runs : ℕ → Option Run)
    → runs id ≡ some r
    → runs i ≡ none
    → set id q runs i ≡ none
fresh-set i id r q runs at h =
    if_intro (λ o. o ≡ none) (i == id) q (runs i)
      (λ e. absurd (ground (arith, ap filled (sym h ∙ ap runs (number e) ∙ at)))) (λ _. h)
  where
    filled : Option Run → Bool
    filled none = false
    filled (some x) = true

    number : (i == id) ≡ true → i ≡ id
    number e = ground arith

update_run-Inv :
    (id : ℕ) (op : RunOperation) (clock : ℕ) (r : Run) (s : Store)
    → s.runs id ≡ some r
    → is_terminal r.status ≡ false
    → Inv s
    → Inv (update_run id op clock r s)
unfolding update_run
update_run-Inv id op clock r s at live v =
    let own : holds (some r) id s.active_keys ≡ true =
      sym (ap (λ o. holds o id s.active_keys) at) ∙ v.held id in
    let same : r.id ≡ id = ground (arith, own) in
    let after_it : Run = moved op (now clock s.last_timestamp) r in
    let a : Option ℕ = active_key r.unique in
    elim (Bool-cases (is_terminal (target op))) [
      | inl over ↦ rw over (record {
        held = λ i.
            if_intro (λ o. holds o i (release_key a r.id s.active_keys) ≡ true) (i == id)
              (some after_it) (s.runs i) (λ e. ground (arith, over, same))
              (λ ne.
                release-held (s.runs i) i r.id a s.active_keys (ground (arith, same)) (v.held i));
        owners = λ k.
            subst
              (λ n.
                owned k (release_key a n s.active_keys k) (set id (some after_it) s.runs) ≡ true)
              (sym same) (release-owned k a id r after_it s at refl v);
        fresh = λ i h. fresh-set i id r (some after_it) s.runs at (v.fresh i h);
      })
      | inr goes ↦ rw goes (record {
        held = λ i.
            if_intro (λ o. holds o i s.active_keys ≡ true) (i == id) (some after_it) (s.runs i)
              (λ e.
                subst (λ j. holds (some after_it) j s.active_keys ≡ true) (number i id e)
                  (moved-held id s.active_keys r op (now clock s.last_timestamp) live own))
              (λ _. v.held i);
        owners =
            λ k. moved-owned k (s.active_keys k) id r after_it s.runs at goes refl (v.owners k);
        fresh = λ i h. fresh-set i id r (some after_it) s.runs at (v.fresh i h);
      })
    ]
  where
    number : (i id : ℕ) → (i == id) ≡ true → id ≡ i
    number i id e = ground arith

operating-Inv :
    (op : RunOperation) (id clock : ℕ) (o : Option Run) (s : Store)
    → s.runs id ≡ o
    → Inv s
    → Inv (operating op id clock o s)
unfolding operating
operating-Inv op id clock none s at v = v
operating-Inv op id clock (some r) s at v =
    if_intro Inv (goes_ahead op r.status) (update_run id op clock r s) s
      (λ h. update_run-Inv id op clock r s at (goes_ahead-live op r.status h) v) (λ _. v)

-- The operations on runs, and the rest of the runtime, which draws ids and times too.
pub data Step (s : Store) : Store → Type 0 where
  creates : (clock : ℕ) (input : CreateRunInput) → Step s (after s (create_run clock input s))
  operates : (op : RunOperation) (id clock : ℕ) → Step s (operate op id clock s)
  elsewhere :
      (n last : ℕ) → s.next_id ≤ n → Step s (record s { next_id = n; last_timestamp = last })

pub data Reach (s : Store) : Store → Type 0 where
  here : Reach s s
  next : {t u : Store} → Reach s t → Step t u → Reach s u

abbrev pub empty_store : Store
empty_store = record {
  runs = λ i. none;
  idempotency_keys = λ k. none;
  active_keys = λ k. none;
  all_keys = λ k. none;
  leases = λ i. none;
  next_id = 1;
  last_timestamp = 0;
}

Step-Inv : {s t : Store} → Step s t → Inv s → Inv t
unfolding create_run operate
Step-Inv {s} (creates clock input) v =
    check_idempotency-Inv clock input (looked_up input.idempotency_key s) s v
Step-Inv {s} (operates op id clock) v = operating-Inv op id clock (s.runs id) s refl v
Step-Inv {s} (elsewhere n last h) v = record {
  held = v.held;
  owners = v.owners;
  fresh = λ i g. v.fresh i (omega arith);
}

-- After any operations on an empty store: a run that is not over is the one that its active unique
-- key names, and a key that names a run names one with that key that is not over.
pub Store-Reach-Inv : {s : Store} → Reach empty_store s → Inv s
Store-Reach-Inv here = record { held = λ i. refl; owners = λ k. refl; fresh = λ i h. refl }
Store-Reach-Inv (next r st) = Step-Inv st (Store-Reach-Inv r)

-- In a store that operations have built, two runs that are not over and have the same active unique
-- key are one run.
pub one_active_run :
    (s : Store) (i j key : ℕ)
    → Reach empty_store s
    → is_live_with key (s.runs i) ≡ true
    → is_live_with key (s.runs j) ≡ true
    → i ≡ j
one_active_run s i j key r a b =
    let v = Store-Reach-Inv r in
    agree (s.active_keys key) (named (s.runs i) i (v.held i) a) (named (s.runs j) j (v.held j) b)
  where
    by_key :
        (a : Option ℕ) (i : ℕ)
        → key_is key a ≡ true
        → key_held a i s.active_keys ≡ true
        → points_to (s.active_keys key) i ≡ true
    by_key none i k h = absurd (ground arith)
    by_key (some k) i is_it h = subst (λ n. points_to (s.active_keys n) i ≡ true) (ground arith) h

    named :
        (o : Option Run) (i : ℕ)
        → holds o i s.active_keys ≡ true
        → is_live_with key o ≡ true
        → points_to (s.active_keys key) i ≡ true
    named none i h l = absurd (ground arith)
    named (some r) i h l = by_key (active_key r.unique) i (ground arith) (ground arith)

    agree : (o : Option ℕ) → points_to o i ≡ true → points_to o j ≡ true → i ≡ j
    agree none p q = absurd (ground arith)
    agree (some h) p q = ground arith
