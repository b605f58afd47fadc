-- ===== src/Streaming/Window.antt =====
-- packages/client/src/layers/rpc.ts: how a client pays for the chunks of a streaming response. The
-- stream calls `pull` once for each read, the first read included: it is built without a buffer and
-- keeps a write waiting until the next read.
mod Tests
use neemata.Common.{
  ℕ, zero, suc, ◌+◌, ◌-◌, ◌*◌, ◌/◌, ◌^◌, ◌≤◌, ◌<◌, ◌≡◌, refl, ap, sym, ◌∙◌, Bool, true, false, not,
  ◌||◌, Option, none, some, List, [], ◌∷◌, ltb, leb, ◌==◌, if◌then◌else◌, arith, Outcome, ok, err,
  if_intro, Bool-cases, inl, inr,
}
use neemata.Streaming.Pump.{max_stream_credits}
use neemata.Streaming.Responses.{Response, Event, pulled, happen, pull, credited}
use neemata.Streaming.Responses.Steps.{Inv, chunks}
use neemata.Streaming.Responses.Runs.{Reach, response-Reach-Inv}

-- `resolveRpcStreamWindow` for an integer; the error is that it is out of range.
unfoldable pub resolve_rpc_stream_window : ℕ → Outcome ℕ ℕ
resolve_rpc_stream_window value =
    if ltb value 1 || ltb max_stream_credits value then err value else ok value

-- `Math.ceil(rpcStreamWindow / 2)`.
abbrev pub refill : ℕ → ℕ
refill window = (window + 1) / 2

-- The variables of the stream's `pull`.
pub record Window : Type 0 where
  pub initial_credit_grant : Bool
  pub pulls_until_refill : ℕ

abbrev pub fresh_window : ℕ → Window
fresh_window window = record { initial_credit_grant = true; pulls_until_refill = refill window }

-- `pull` while the client is connected, with the size of the message that it sends, if it sends one.
abbrev counting : ℕ → ℕ → Window × Option ℕ
counting window left =
    if ltb 0 left
    then (record { initial_credit_grant = false; pulls_until_refill = left }, none)
    else (
      record { initial_credit_grant = false; pulls_until_refill = refill window },
      some (refill window),
    )

unfoldable pub pull_window : ℕ → Window → Window × Option ℕ
pull_window window s =
    if s.initial_credit_grant
    then (record s { initial_credit_grant = false }, some window)
    else counting window (s.pulls_until_refill - 1)

abbrev pub size_or_none : Option ℕ → ℕ
size_or_none none = 0
size_or_none (some size) = size

-- The state after so many reads, and what was granted by then.
unfoldable pub reading : ℕ → ℕ → Window × ℕ
unfolding pull_window
reading window zero = (fresh_window window, 0)
reading window (suc k) =
    let before = reading window k in
    let r = pull_window window before.0 in (r.0, before.1 + size_or_none r.1)

-- After the first read the credit keeps step with the reads.
record Paced (window k : ℕ) (r : Window × ℕ) : Type 0 where
  opened : r.0.initial_credit_grant ≡ false
  least : 1 ≤ r.0.pulls_until_refill
  most : r.0.pulls_until_refill ≤ refill window
  pace : r.1 + refill window + 1 ≡ window + k + r.0.pulls_until_refill

pull-Paced :
    (window k : ℕ) (r : Window × ℕ)
    → 1 ≤ window
    → Paced window k r
    → Paced window
        (suc k)
        ((pull_window window r.0).0, r.1 + size_or_none (pull_window window r.0).1)
unfolding pull_window
pull-Paced window k r h p = rw (p.opened) (
    if_intro (λ (x : Window × Option ℕ). Paced window (suc k) (x.0, r.1 + size_or_none x.1))
      (ltb 0 (r.0.pulls_until_refill - 1))
      (
        record { initial_credit_grant = false; pulls_until_refill = r.0.pulls_until_refill - 1 },
        none,
      )
      (
        record { initial_credit_grant = false; pulls_until_refill = refill window },
        some (refill window),
      )
      (λ more. record {
        opened = refl;
        least = ground (arith, more);
        most = omega (arith, p.most);
        pace = omega (arith, p.pace, p.least);
      })
      (λ last. record {
        opened = refl;
        least = omega arith;
        most = omega arith;
        pace = ground (arith, last, p.pace, p.least);
      }))

reading-Paced : (window k : ℕ) → 1 ≤ window → Paced window (suc k) (reading window (suc k))
unfolding reading
reading-Paced window zero h = record {
  opened = refl;
  least = omega arith;
  most = omega arith;
  pace = omega arith;
}
reading-Paced window (suc k) h =
    pull-Paced window (suc k) (reading window (suc k)) h (reading-Paced window k h)

-- With a window of at least one, a client that does its `k + 1`st read has granted more chunks than it
-- read before, so that the read can be served, and at most a window more.
pub window_lead :
    (window k : ℕ)
    → 1 ≤ window
    → (k < (reading window (suc k)).1) × ((reading window (suc k)).1 ≤ k + window)
window_lead window k h =
    let p : Paced window (suc k) (reading window (suc k)) = reading-Paced window k h in
    (omega (arith, p.pace, p.least, p.most), omega (arith, p.pace, p.least, p.most))

abbrev pub next_pull : ℕ → ℕ → Option ℕ
unfolding pull_window reading
next_pull window k = (pull_window window (reading window k).0).1

pull_pos :
    (window : ℕ) (s : Window) (size : ℕ)
    → 1 ≤ window
    → (pull_window window s).1 ≡ some size
    → 1 ≤ size
unfolding pull_window
pull_pos window s size h =
    if_intro (λ (x : Window × Option ℕ). x.1 ≡ some size → 1 ≤ size) s.initial_credit_grant
      (record s { initial_credit_grant = false }, some window)
      (counting window (s.pulls_until_refill - 1)) (λ _ e. ground (arith, e))
      (λ _.
        if_intro (λ (x : Window × Option ℕ). x.1 ≡ some size → 1 ≤ size)
          (ltb 0 (s.pulls_until_refill - 1))
          (
            record { initial_credit_grant = false; pulls_until_refill = s.pulls_until_refill - 1 },
            none,
          )
          (
            record { initial_credit_grant = false; pulls_until_refill = refill window },
            some (refill window),
          )
          (λ _ e. ground (arith, e)) (λ _ e. ground (arith, e)))

window_bounds :
    (value window : ℕ)
    → resolve_rpc_stream_window value ≡ ok window
    → (1 ≤ window) × (window ≤ max_stream_credits)
unfolding resolve_rpc_stream_window
window_bounds value window h = ground (arith, h)

granted-next :
    (window k size : ℕ)
    → next_pull window k ≡ some size
    → (reading window (suc k)).1 ≡ (reading window k).1 + size
unfolding reading
granted-next window k size e = rw e refl

-- Let a client with a window that the source accepts have read `k` chunks of a streaming response, and
-- let it have sent the pulls of these reads and no other. Then the server accepts the pull that the
-- next read sends: it does not take it for a violation.
pub pull-credited :
    {t n : ℕ} {s : Response} (r : Reach t n s) (value window k size : ℕ)
    → resolve_rpc_stream_window value ≡ ok window
    → n ≡ (reading window k).1
    → k ≤ chunks s.sent
    → s.installed ≡ true
    → next_pull window k ≡ some size
    → pull size s ≡ credited size s
unfolding pull pull_window next_pull
pull-credited {t} {n} {s} r value window k size resolved paid had there e =
    let v : Inv n s = response-Reach-Inv r in
    let (positive, bounded) = window_bounds value window resolved in
    let fits : s.credits + size ≤ max_stream_credits =
      omega (arith, v.paid, (window_lead window k positive).1, granted-next window k size e) in
    let some_size : 1 ≤ size = pull_pos window (reading window k).0 size positive e in
    rw there (ground (arith, fits, some_size))
