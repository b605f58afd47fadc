-- ===== src/Workflows/Runs/Moves.antt =====
-- How an operation on a run changes the runs.
use neemata.Common.{
  ℕ, ◌+◌, ◌<◌, true, ◌⊎◌, ◌≡◌, inl, inr, refl, Bool-cases, sym, ap, ◌∙◌, false, ◌&&◌, Option, none,
  some, arith, ◌==◌, if◌then◌else◌, if_intro,
}
use neemata.Workflows.Items.{now}
use neemata.Workflows.Transitions.{
  RunStatus, queued, running, waiting, cancelling, completed, failed, cancelled, can_transition,
  is_terminal,
}
use neemata.Workflows.Runs.{
  moved, Run, Store, RunOperation, target, goes_ahead, update_run, operating, operate, mark_running,
  mark_waiting, request_cancellation, cancel, complete, fail,
}
use neemata.Workflows.Runs.Steps.{goes_ahead-table}

operating_self :
    (op : RunOperation) (id clock : ℕ) (s : Store) (r : Run)
    → s.runs id ≡ some r
    → (operating op id clock (some r) s).runs id ≡ (
        if can_transition r.status (target op)
        then some (moved op (now clock s.last_timestamp) r)
        else some r)
unfolding operating update_run
operating_self op id clock s r at = elim (Bool-cases (goes_ahead op r.status)) [
  | inl h ↦ rw (h, sym (goes_ahead-table op r.status) ∙ h) (ground arith)
  | inr h ↦ rw (h, sym (goes_ahead-table op r.status) ∙ h) at
]

operating_other :
    (op : RunOperation) (id clock : ℕ) (o : Option Run) (s : Store) (i : ℕ)
    → (i == id) ≡ false
    → (operating op id clock o s).runs i ≡ s.runs i
unfolding operating update_run
operating_other op id clock none s i ne = refl
operating_other op id clock (some q) s i ne =
    if_intro (λ (t : Store). t.runs i ≡ s.runs i) (goes_ahead op q.status) _ s (λ _. rw ne refl)
      (λ _. refl)

operate-moved :
    (op : RunOperation) (id clock : ℕ) (s : Store) (i : ℕ) (r : Run)
    → s.runs i ≡ some r
    → (operate op id clock s).runs i ≡ (
        if i == id && can_transition r.status (target op)
        then some (moved op (now clock s.last_timestamp) r)
        else some r)
unfolding operate
operate-moved op id clock s i r at = elim (Bool-cases (i == id)) [
  | inl same ↦
      let number : i ≡ id = ground arith in
      let here : s.runs id ≡ some r = ap s.runs (sym number) ∙ at in
      rw same (
        ap (operate op id clock s).runs number
        ∙ ap (λ o. (operating op id clock o s).runs id) here
        ∙ operating_self op id clock s r here)
  | inr apart ↦ rw apart (operating_other op id clock (s.runs id) s i apart ∙ at)
]

-- What an operation brings to a run: a status, and an output or an error.
abbrev pub brings : RunOperation → RunStatus × Option ℕ × Option ℕ
brings mark_running = (running, none, none)
brings mark_waiting = (waiting, none, none)
brings request_cancellation = (cancelling, none, none)
brings cancel = (cancelled, none, none)
brings (complete output) = (completed, some output, none)
brings (fail error) = (failed, none, some error)

abbrev pub replaces : Option ℕ → Option ℕ → Option ℕ
replaces none old = old
replaces (some new) old = some new

-- A run before and behind an operation that went ahead, when the time was last read as `last`.
pub record IsMoved (op : RunOperation) (last : ℕ) (before after : Run) : Type 0 where
  pub status : after.status ≡ (brings op).0
  pub output : after.output ≡ replaces (brings op).1 before.output
  pub error : after.error ≡ replaces (brings op).2 before.error
  pub version : after.version ≡ before.version + 1
  pub updated : last < after.updated_at
  pub number : after.id ≡ before.id
  pub shape : after.shape ≡ before.shape
  pub root : after.root ≡ before.root
  pub unique : after.unique ≡ before.unique

moved-brings :
    (op : RunOperation) (date : ℕ) (r : Run)
    → ((moved op date r).status ≡ (brings op).0)
      × ((moved op date r).output ≡ replaces (brings op).1 r.output)
      × ((moved op date r).error ≡ replaces (brings op).2 r.error)
moved-brings mark_running date r = (refl, refl, refl)
moved-brings mark_waiting date r = (refl, refl, refl)
moved-brings request_cancellation date r = (refl, refl, refl)
moved-brings cancel date r = (refl, refl, refl)
moved-brings (complete o) date r = (refl, refl, refl)
moved-brings (fail e) date r = (refl, refl, refl)

moved-IsMoved :
    (op : RunOperation) (clock last : ℕ) (r : Run) → IsMoved op last r (moved op (now clock last) r)
moved-IsMoved op clock last r =
    let b = moved-brings op (now clock last) r in
    record {
      status = b.0;
      output = b.1;
      error = b.2;
      version = omega arith;
      updated = ground arith;
      number = refl;
      shape = refl;
      root = refl;
      unique = refl;
    }

ended-stays : (status to : RunStatus) → is_terminal status ≡ true → can_transition status to ≡ false
ended-stays queued to h = absurd (ground (arith, h))
ended-stays running to h = absurd (ground (arith, h))
ended-stays waiting to h = absurd (ground (arith, h))
ended-stays cancelling to h = absurd (ground (arith, h))
ended-stays completed to h = refl
ended-stays failed to h = refl
ended-stays cancelled to h = refl

-- The run `i` behind an operation on the run `id`, where it was `before`.
abbrev pub Follows : RunOperation → ℕ → ℕ → Store → Run → Option Run → Type 0
Follows op id i s before after =
    ((after ≡ some before) × ((i == id && can_transition before.status (brings op).0) ≡ false))
    ⊎ ((q : Run) × (after ≡ some q)
        × ((i == id && can_transition before.status (brings op).0) ≡ true)
        × IsMoved op s.last_timestamp before q)

follows :
    (op : RunOperation) (id clock i : ℕ) (s : Store) (r : Run)
    → Follows op id i s r (
        if i == id && can_transition r.status (brings op).0
        then some (moved op (now clock s.last_timestamp) r)
        else some r)
follows op id clock i s r =
    if_intro (Follows op id i s r) (i == id && can_transition r.status (brings op).0) _ _
      (λ e. inr (
        moved op (now clock s.last_timestamp) r,
        refl,
        e,
        moved-IsMoved op clock s.last_timestamp r,
      ))
      (λ e. inl (refl, e))

-- An operation on a run changes that run only, and only if the table of transitions lets the run
-- into the status that the operation brings. Then the run has that status, the output or the error
-- that the operation brings besides the old ones that it does not replace, the next version and a
-- later date, and is otherwise as it was. A run that is over stays as it is.
pub operate-moves :
    (op : RunOperation) (id clock : ℕ) (s : Store) (i : ℕ) (r : Run)
    → s.runs i ≡ some r
    → Follows op id i s r ((operate op id clock s).runs i)
      × ((is_terminal r.status ≡ false) ⊎ ((operate op id clock s).runs i ≡ some r))
operate-moves op id clock s i r at =
    let status : target op ≡ (brings op).0 = (moved-brings op 0 r).0 in
    let e =
      operate-moved op id clock s i r at
      ∙ ap
          (λ t.
            if i == id && can_transition r.status t
            then some (moved op (now clock s.last_timestamp) r)
            else some r)
          status in
    (
      rw e (follows op id clock i s r),
      elim (Bool-cases (is_terminal r.status)) [
        | inl over ↦ inr (e ∙ ground (arith, ended-stays r.status (brings op).0 over))
        | inr runs ↦ inl runs
      ],
    )
