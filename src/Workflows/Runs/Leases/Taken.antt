-- ===== src/Workflows/Runs/Leases/Taken.antt =====
-- Leases of runs that were taken over.
use neemata.Common.{
  ℕ, ◌+◌, ◌≤◌, ◌<◌, ◌≡◌, ◌⊎◌, inl, inr, refl, sym, ap, ◌∙◌, Bool, true, false, not, Option, none,
  some, arith, ◌==◌, if◌then◌else◌, if_intro,
}
use neemata.Workflows.Items.{now}
use neemata.Workflows.Runs.{Run, RunLease, Store, set}
use neemata.Workflows.Runs.Leases.{
  is_current, has_token, granting, acquire_run_lease, renewing, renew_run_lease, release_run_lease,
}

-- A store's lease that has not run out at a date, and one that has or is none.
abbrev pub Lasts : ℕ → Option RunLease → Type 0
Lasts date o = (l : RunLease) × (o ≡ some l) × (date < l.expires_at)

abbrev pub Lapsed : ℕ → Option RunLease → Type 0
Lapsed date o = (o ≡ none) ⊎ ((l : RunLease) × (o ≡ some l) × (l.expires_at ≤ date))

is_current-Lasts : (date : ℕ) (o : Option RunLease) → is_current date o ≡ true → Lasts date o
is_current-Lasts date none h = absurd (ground (arith, h))
is_current-Lasts date (some l) h = (l, refl, ground (arith, h))

is_current-Lapsed : (date : ℕ) (o : Option RunLease) → is_current date o ≡ false → Lapsed date o
is_current-Lapsed date none h = inl refl
is_current-Lapsed date (some l) h = inr (l, refl, ground (arith, h))

-- What `acquireRunLease` returns, and the store behind it.
pub record IsRefused (run_id date : ℕ) (s : Store) (r : Store × Option RunLease) : Type 0 where
  pub answer : r.1 ≡ none
  pub reason : Lasts date (s.leases run_id) ⊎ (s.runs run_id ≡ none)
  pub same : (j : ℕ) → r.0.leases j ≡ s.leases j

pub record IsGranted (run_id date lease_ms : ℕ) (s : Store) (l : RunLease)
    (r : Store × Option RunLease) : Type 0 where
  pub answer : r.1 ≡ some l
  pub lapsed : Lapsed date (s.leases run_id)
  pub run : (q : Run) × (s.runs run_id ≡ some q) × (l.version ≡ q.version)
  pub token : l.token ≡ s.next_id
  pub expires : l.expires_at ≡ date + lease_ms
  pub stored : (j : ℕ) → r.0.leases j ≡ (if j == run_id then some l else s.leases j)
  pub handed_out : r.0.next_id ≡ s.next_id + 1

abbrev pub Answered : ℕ → ℕ → ℕ → Store → Store × Option RunLease → Type 0
Answered run_id date lease_ms s r =
    IsRefused run_id date s r ⊎ ((l : RunLease) × IsGranted run_id date lease_ms s l r)

granting-Answered :
    (run_id lease_ms date : ℕ) (o : Option Run) (s : Store)
    → s.runs run_id ≡ o
    → Lapsed date (s.leases run_id)
    → Answered run_id date lease_ms s
        (granting run_id lease_ms date o (record s { last_timestamp = date }))
unfolding granting
granting-Answered run_id lease_ms date none s e free =
    inl (record { answer = refl; reason = inr e; same = λ j. refl })
granting-Answered run_id lease_ms date (some q) s e free = inr (
  record { token = s.next_id; version = q.version; expires_at = date + lease_ms },
  record {
    answer = refl;
    lapsed = free;
    run = (q, e, refl);
    token = refl;
    expires = refl;
    stored = λ j. refl;
    handed_out = omega arith;
  },
)

pub acquire-Answered :
    (run_id lease_ms clock : ℕ) (s : Store)
    → Answered run_id
        (now clock s.last_timestamp)
        lease_ms
        s
        (acquire_run_lease run_id lease_ms clock s)
unfolding acquire_run_lease
acquire-Answered run_id lease_ms clock s =
    let date : ℕ = now clock s.last_timestamp in
    if_intro (Answered run_id date lease_ms s) (is_current date (s.leases run_id)) _ _
      (λ e. inl (record {
        answer = refl;
        reason = inl (is_current-Lasts date (s.leases run_id) e);
        same = λ j. refl;
      }))
      (λ e.
        granting-Answered run_id lease_ms date (s.runs run_id) s refl
          (is_current-Lapsed date (s.leases run_id) e))

-- What touches the leases, in any order. `forgets` is the deletion of a run, and `elsewhere` the rest
-- of the runtime, which may draw ids.
pub data LeaseStep (s : Store) : Store → Type 0 where
  acquires : (run_id lease_ms clock : ℕ) → LeaseStep s (acquire_run_lease run_id lease_ms clock s).0
  renews :
      (run_id token lease_ms clock : ℕ)
      → LeaseStep s (renew_run_lease run_id token lease_ms clock s).0
  releases : (run_id token : ℕ) → LeaseStep s (release_run_lease run_id token s)
  forgets : (run_id : ℕ) → LeaseStep s (record s { leases = set run_id none s.leases })
  elsewhere :
      (t : Store) → ((j : ℕ) → t.leases j ≡ s.leases j) → s.next_id ≤ t.next_id → LeaseStep s t

pub data LeaseReach (s : Store) : Store → Type 0 where
  here : LeaseReach s s
  next : {t u : Store} → LeaseReach s t → LeaseStep t u → LeaseReach s u

abbrev pub differs : ℕ → Option RunLease → Bool
differs token none = true
differs token (some l) = not (l.token == token)

module _ (run_id old : ℕ) where
  -- A token that was handed out and is not the one of the lease that the store has.
  pub record IsLost (s : Store) : Type 0 where
    pub drawn : old < s.next_id
    pub other : differs old (s.leases run_id) ≡ true

  Answered-IsLost :
      (i date lease_ms : ℕ) (s : Store) (r : Store × Option RunLease)
      → s.next_id ≤ r.0.next_id
      → Answered i date lease_ms s r
      → IsLost s
      → IsLost r.0
  Answered-IsLost i date lease_ms s r le (inl refused) v = record {
    drawn = omega (arith, v.drawn, le);
    other = ap (differs old) (refused.same run_id) ∙ v.other;
  }
  Answered-IsLost i date lease_ms s r le (inr (l, granted)) v = record {
    drawn = omega (arith, v.drawn, le);
    other =
        ap (differs old) (granted.stored run_id) ∙ ground (arith, v.other, v.drawn, granted.token);
  }

  acquire-le :
      (i lease_ms clock : ℕ) (s : Store)
      → s.next_id ≤ (acquire_run_lease i lease_ms clock s).0.next_id
  unfolding acquire_run_lease granting
  acquire-le i lease_ms clock s =
      let date : ℕ = now clock s.last_timestamp in
      if_intro (λ (r : Store × Option RunLease). s.next_id ≤ r.0.next_id)
        (is_current date (s.leases i)) _ _ (λ _. omega arith)
        (λ _. granting-le i lease_ms date (s.runs i) (record s { last_timestamp = date }))
    where
      granting-le :
          (i lease_ms date : ℕ) (o : Option Run) (s : Store)
          → s.next_id ≤ (granting i lease_ms date o s).0.next_id
      granting-le i lease_ms date none s = omega arith
      granting-le i lease_ms date (some q) s = omega arith

  renewing-IsLost :
      (i token lease_ms clock : ℕ) (o : Option RunLease) (s : Store)
      → s.leases i ≡ o
      → IsLost s
      → IsLost (renewing i token lease_ms clock o s).0
  unfolding renewing
  renewing-IsLost i token lease_ms clock none s e v = v
  renewing-IsLost i token lease_ms clock (some l) s e v =
      if_intro (λ (r : Store × Option RunLease). IsLost r.0) (l.token == token) _ _
        (λ _. record { drawn = v.drawn; other = kept s.leases e v.other }) (λ _. v)
    where
      kept :
          (m : ℕ → Option RunLease)
          → m i ≡ some l
          → differs old (m run_id) ≡ true
          → differs old (
              set i
                (some (record l { expires_at = now clock s.last_timestamp + lease_ms }))
                m
                run_id)
            ≡ true
      kept m e d =
          if_intro (λ o. differs old o ≡ true) (run_id == i) _ _
            (λ same.
              let number : run_id ≡ i = ground arith in
              sym (ap (differs old) (ap m number ∙ e)) ∙ d)
            (λ _. d)

  dropped-IsLost :
      (i : ℕ) (s : Store) → IsLost s → IsLost (record s { leases = set i none s.leases })
  dropped-IsLost i s v = record {
    drawn = v.drawn;
    other = if_intro (λ o. differs old o ≡ true) (run_id == i) _ _ (λ _. refl) (λ _. v.other);
  }

  Step-IsLost : {s t : Store} → LeaseStep s t → IsLost s → IsLost t
  unfolding renew_run_lease release_run_lease
  Step-IsLost {s} (acquires i lease_ms clock) v =
      Answered-IsLost i (now clock s.last_timestamp) lease_ms s
        (acquire_run_lease i lease_ms clock s) (acquire-le i lease_ms clock s)
        (acquire-Answered i lease_ms clock s) v
  Step-IsLost {s} (renews i token lease_ms clock) v =
      renewing-IsLost i token lease_ms clock (s.leases i) s refl v
  Step-IsLost {s} (releases i token) v =
      if_intro IsLost (has_token token (s.leases i)) _ _ (λ _. dropped-IsLost i s v) (λ _. v)
  Step-IsLost {s} (forgets i) v = dropped-IsLost i s v
  Step-IsLost (elsewhere t same le) v = record {
    drawn = omega (arith, v.drawn, le);
    other = ap (differs old) (same run_id) ∙ v.other;
  }

  pub Reach-IsLost : {s t : Store} → LeaseReach s t → IsLost s → IsLost t
  Reach-IsLost here v = v
  Reach-IsLost (next r st) v = Step-IsLost st (Reach-IsLost r v)

  pub renewing-lost :
      (lease_ms clock : ℕ) (o : Option RunLease) (s : Store)
      → differs old o ≡ true
      → renewing run_id old lease_ms clock o s ≡ (s, none)
  unfolding renewing
  renewing-lost lease_ms clock none s d = refl
  renewing-lost lease_ms clock (some l) s d =
      let ne : (l.token == old) ≡ false = ground (arith, d) in rw ne refl

  pub has_token-lost : (o : Option RunLease) → differs old o ≡ true → has_token old o ≡ false
  has_token-lost none d = refl
  has_token-lost (some l) d = ground (arith, d)
