-- ===== src/Workflows/Schedules/Grid.antt =====
-- The next slot of a distance, and lists of slots.
use neemata.Common.{
  ℕ, zero, suc, ◌+◌, ◌-◌, ◌*◌, ◌/◌, ◌≤◌, ◌<◌, ◌≡◌, refl, Bool, true, ◌&&◌, some, List, [], ◌∷◌, ltb,
  arith,
}
use neemata.Workflows.Items.{now}
use neemata.Workflows.Schedules.{every, after_missed, next_schedule_run_at}

-- The slot of a distance is the first of the grid behind the date.
pub missed-later : (m d : ℕ) → 0 < m → d < (d / m + 1) * m
missed-later m d h = grind arith

pub missed-le : (m d : ℕ) → 0 < m → d / m * m ≤ d
missed-le m d h = grind arith

-- Every entry is smaller.
abbrev pub all_below : ℕ → List ℕ → Bool
all_below x [] = true
all_below x (f ∷ fs) = ltb f x && all_below x fs

abbrev pub is_descending : List ℕ → Bool
is_descending [] = true
is_descending (f ∷ fs) = all_below f fs && is_descending fs

pub all_below_mono : (x y : ℕ) (fs : List ℕ) → x ≤ y → all_below x fs ≡ true → all_below y fs ≡ true
all_below_mono x y [] le h = refl
all_below_mono x y (f ∷ fs) le h = ground (arith, h, all_below_mono x y fs le)

pub now-later : (clock last : ℕ) → last < now clock last
now-later clock last = ground arith

pub now-clock : (clock last : ℕ) → clock ≤ now clock last
now-clock clock last = ground arith

pub after_missed-later : (m date base n : ℕ) → after_missed m date base ≡ some n → date < n
after_missed-later zero date base n h = absurd (ground (arith, h))
after_missed-later (suc m) date base n h = ground (arith, h, missed-later (suc m) (date - base))

-- The next slot of a schedule that runs at a distance lies behind the date and on the grid of its
-- last one, and is the first such: at most one distance behind the later of the two.
pub every_slot :
    (next_cron : ℕ → ℕ → ℕ) (ms date base slot : ℕ)
    → next_schedule_run_at next_cron (every ms) date base ≡ some slot
    → (date < slot) × ((k : ℕ) × (slot ≡ base + (k + 1) * ms)) × (slot ≤ base + (date - base) + ms)
unfolding next_schedule_run_at
every_slot next_cron zero date base slot h = absurd (ground (arith, h))
every_slot next_cron (suc m) date base slot h = (
  after_missed-later (suc m) date base slot h,
  ((date - base) / suc m, ground (arith, h)),
  grind (arith, h, missed-le (suc m) (date - base)),
)
