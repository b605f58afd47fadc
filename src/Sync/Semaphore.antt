-- ===== src/Sync/Semaphore.antt =====
-- packages/common/src/semaphore.ts. All waiters have the same timeout, so that the first to expire is
-- the head of the queue, which is the one that the timer's callback removes.
use neemata.Common.{
  ℕ, suc, ◌+◌, ◌-◌, ◌≤◌, ◌≡◌, ◌⊎◌, inl, inr, refl, ap, true, List, [], ◌∷◌, ◌++◌, arith, ltb, leb,
  if◌then◌else◌, if_intro, length, length-append,
}

-- Waiters are known by number; `granted` and `rejected` are those whose promise was settled, oldest
-- first.
pub record Semaphore : Type 0 where
  pub counter : ℕ
  pub queue : List ℕ
  pub granted : List ℕ
  pub full : List ℕ
  pub timed_out : List ℕ
  pub left : ℕ

abbrev pub semaphore : ℕ → Semaphore
semaphore concurrency = record {
  counter = concurrency;
  queue = [];
  granted = [];
  full = [];
  timed_out = [];
  left = 0;
}

pub enter : ℕ → ℕ → Semaphore → Semaphore
enter size who s =
    if ltb 0 s.counter
    then record s { counter = s.counter - 1; granted = s.granted ++ who ∷ [] }
    else if leb size (length s.queue)
    then record s { full = s.full ++ who ∷ [] }
    else record s { queue = s.queue ++ who ∷ [] }

leaving : List ℕ → Semaphore → Semaphore
leaving [] s = record s { counter = suc s.counter; left = suc s.left }
leaving (who ∷ rest) s = record s {
  queue = rest;
  granted = s.granted ++ who ∷ [];
  left = suc s.left;
}

pub leave : Semaphore → Semaphore
unfolding leaving
leave s = leaving s.queue s

expiring : List ℕ → Semaphore → Semaphore
expiring [] s = s
expiring (who ∷ rest) s = record s { queue = rest; timed_out = s.timed_out ++ who ∷ [] }

-- The timer of the head goes off.
pub expire : Semaphore → Semaphore
unfolding expiring
expire s = expiring s.queue s

-- Only who is inside leaves.
pub data Step (size : ℕ) (s : Semaphore) : Semaphore → Type 0 where
  enters : (who : ℕ) → Step size s (enter size who s)
  leaves : suc s.left ≤ length s.granted → Step size s (leave s)
  expires : Step size s (expire s)

pub data Reach (size : ℕ) (s : Semaphore) : Semaphore → Type 0 where
  here : Reach size s s
  next : {t u : Semaphore} → Reach size s t → Step size t u → Reach size s u

-- The permits are those free and those of the tasks inside; nobody waits for a free one; the queue
-- is bounded.
pub record Inv (concurrency size : ℕ) (s : Semaphore) : Type 0 where
  pub permits : s.counter + length s.granted ≡ concurrency + s.left
  pub useful : (s.counter ≡ 0) ⊎ (s.queue ≡ [])
  pub bounded : length s.queue ≤ size
  pub inside : s.left ≤ length s.granted

module _ (concurrency size : ℕ) where
  enter-Inv :
      (who : ℕ) (s : Semaphore) → Inv concurrency size s → Inv concurrency size (enter size who s)
  unfolding enter
  enter-Inv who s v =
      if_intro (Inv concurrency size) (ltb 0 s.counter) _ _
        (λ free. record {
          permits = rw length-append (ground (arith, v.permits));
          useful = inr (empty s free v.useful);
          bounded = v.bounded;
          inside = rw length-append (ground (arith, v.inside));
        })
        (λ none_free.
          if_intro (Inv concurrency size) (leb size (length s.queue)) _ _
            (λ _. record {
              permits = v.permits;
              useful = v.useful;
              bounded = v.bounded;
              inside = v.inside;
            })
            (λ room. record {
              permits = v.permits;
              useful = inl (ground arith);
              bounded = rw length-append (ground arith);
              inside = v.inside;
            }))
    where
      empty :
          (s : Semaphore) → ltb 0 s.counter ≡ true → (s.counter ≡ 0) ⊎ (s.queue ≡ []) → s.queue ≡ []
      empty s free (inl zero_left) = absurd (ground arith)
      empty s free (inr e) = e

  leaving-Inv :
      (l : List ℕ) (s : Semaphore)
      → s.queue ≡ l
      → suc s.left ≤ length s.granted
      → Inv concurrency size s
      → Inv concurrency size (leaving l s)
  unfolding leaving
  leaving-Inv [] s e h v = record {
    permits = omega (arith, v.permits);
    useful = inr e;
    bounded = v.bounded;
    inside = h;
  }
  leaving-Inv (who ∷ rest) s e h v = record {
    permits = rw length-append (omega (arith, v.permits));
    useful = inl (waited v.useful);
    bounded = omega (arith, v.bounded, ap length e);
    inside = rw length-append (omega arith);
  }
    where
      waited : (s.counter ≡ 0) ⊎ (s.queue ≡ []) → s.counter ≡ 0
      waited (inl z) = z
      waited (inr n) = absurd (omega (arith, ap length e, ap length n))

  expiring-Inv :
      (l : List ℕ) (s : Semaphore)
      → s.queue ≡ l
      → Inv concurrency size s
      → Inv concurrency size (expiring l s)
  unfolding expiring
  expiring-Inv [] s e v = v
  expiring-Inv (who ∷ rest) s e v = record {
    permits = v.permits;
    useful = inl (waited v.useful);
    bounded = omega (arith, v.bounded, ap length e);
    inside = v.inside;
  }
    where
      waited : (s.counter ≡ 0) ⊎ (s.queue ≡ []) → s.counter ≡ 0
      waited (inl z) = z
      waited (inr n) = absurd (omega (arith, ap length e, ap length n))

  -- After any calls, in which only tasks that are inside leave: the free permits and the tasks inside
  -- make up the concurrency, nobody waits while a permit is free, and the queue is within its size.
  pub Semaphore-Reach-Inv :
      {s : Semaphore} → Reach size (semaphore concurrency) s → Inv concurrency size s
  unfolding leave expire
  Semaphore-Reach-Inv here = record {
    permits = omega arith;
    useful = inr refl;
    bounded = omega arith;
    inside = omega arith;
  }
  Semaphore-Reach-Inv (next {t} r (enters who)) = enter-Inv who t (Semaphore-Reach-Inv r)
  Semaphore-Reach-Inv (next {t} r (leaves h)) = leaving-Inv t.queue t refl h (Semaphore-Reach-Inv r)
  Semaphore-Reach-Inv (next {t} r expires) = expiring-Inv t.queue t refl (Semaphore-Reach-Inv r)
