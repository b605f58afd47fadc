-- ===== src/Streaming/Pump/Steps.antt =====
-- Each operation on a download keeps the invariant.
use mathlib.Core.List.{append-nil, append_assoc}
use neemata.Common.{
  ℕ, ◌+◌, ◌≤◌, ◌≡◌, refl, sym, ap, subst, ◌∙◌, Bool, true, false, not, ◌||◌, Option, none, some,
  List, [], ◌∷◌, ◌++◌, arith, ltb, ◌==◌, if_intro, if◌then◌else◌,
}
use neemata.Wire.Bytes.{Bytes, flatten}
use neemata.Wire.Utf8.{Text}
use neemata.Streaming.Pump.{
  Frame, Pump, max_stream_credits, pump, pump_loop, pump_fuel, settled, fail, grant, grant_open,
  Event, readable, source_end, source_error, grants, destroys,
}
use neemata.Streaming.Pump.Frames.{bytes_sent, waiting, held, Inv, IsIdle, fail-Inv, pumping-Inv}
use neemata.Streaming.Pump.Turns.{Ends, loop-Ends}

-- What the source produces at an event, and what the peer grants.
abbrev pub bytes_of : Event → Bytes
bytes_of (readable b) = b
bytes_of source_end = []
bytes_of (source_error r) = []
bytes_of (grants n) = []
bytes_of (destroys r) = []

abbrev pub size_of : Event → ℕ
size_of (grants n) = n
size_of (readable b) = 0
size_of source_end = 0
size_of (source_error r) = 0
size_of (destroys r) = 0

abbrev pub produced : List Event → Bytes
produced [] = []
produced (e ∷ es) = bytes_of e ++ produced es

abbrev pub granted_in : List Event → ℕ
granted_in [] = 0
granted_in (e ∷ es) = size_of e + granted_in es

-- Between events the pump does not run, and an open stream that was granted credit is idle.
pub record IsSettled (s : Pump) : Type 0 where
  pub at_rest : s.pumping ≡ false
  pub idle : s.granted ≡ true → IsIdle s

-- The invariant for what was produced, and for at most `bound` bytes granted.
abbrev pub Good : Bytes → ℕ → Pump → Type 0
Good source bound s = ((total : ℕ) × (total ≤ bound) × Inv source total s) × IsSettled s

fail_done :
    (reason : Text) (s : Pump)
    → ((fail reason s).finished ≡ true) × ((fail reason s).pumping ≡ s.pumping)
unfolding fail
fail_done reason s = ground arith

pub fail-Good :
    (source : Bytes) (total bound : ℕ) (reason : Text) (s : Pump)
    → total ≤ bound
    → s.pumping ≡ false
    → Inv source total s
    → Good source bound (fail reason s)
fail-Good source total bound reason s h rest v = (
  (total, h, fail-Inv source total reason s v),
  record { at_rest = (fail_done reason s).1 ∙ rest; idle = λ g f. cc (f, (fail_done reason s).0) },
)

granted-Inv :
    (source : Bytes) (total size : ℕ) (s : Pump)
    → Inv source total s
    → Inv source (total + size) (record s { granted = true; credits = s.credits + size })
granted-Inv source total size s v = record {
  in_order = v.in_order;
  kept = v.kept;
  spent = omega (arith, v.spent);
  silent = λ e. cc;
  chunks = v.chunks;
  closed = v.closed;
}

marked-Inv :
    (source : Bytes) (total : ℕ) (s : Pump)
    → Inv source total s
    → Inv source total (record s { granted = true })
marked-Inv source total s v = record {
  in_order = v.in_order;
  kept = v.kept;
  spent = v.spent;
  silent = λ e. cc;
  chunks = v.chunks;
  closed = v.closed;
}

pub Good-mono : (source : Bytes) (a b : ℕ) (s : Pump) → a ≤ b → Good source a s → Good source b s
Good-mono source a b s h ((total, le, v), i) = ((total, omega arith, v), i)

flatten-snoc : (l : List Bytes) (b : Bytes) → flatten (l ++ b ∷ []) ≡ flatten l ++ b
flatten-snoc [] b = append-nil b
flatten-snoc (x ∷ l) b = ap (λ t. x ++ t) (flatten-snoc l b) ∙ sym (append_assoc x (flatten l) b)

pub readable-Inv :
    (source : Bytes) (total : ℕ) (b : Bytes) (s : Pump)
    → Inv source total s
    → Inv (source ++ b) total (record s { reads = s.reads ++ b ∷ [] })
readable-Inv source total b s v = record {
  in_order = (
    v.in_order.0 ++ b,
    sym (append_assoc (bytes_sent s.sent) v.in_order.0 b) ∙ ap (λ l. l ++ b) v.in_order.1,
  );
  kept = λ f.
      ap (λ l. bytes_sent s.sent ++ (held s.buffered ++ l)) (flatten-snoc s.reads b)
      ∙ ap (λ l. bytes_sent s.sent ++ l) (sym (append_assoc (held s.buffered) (flatten s.reads) b))
      ∙ sym (append_assoc (bytes_sent s.sent) (waiting s) b)
      ∙ ap (λ l. l ++ b) (v.kept f);
  spent = v.spent;
  silent = v.silent;
  chunks = v.chunks;
  closed = v.closed;
}

-- The source's `end` and `error`, and `destroy` with no error, change nothing that was sent.
pub ended-Inv :
    (source : Bytes) (total : ℕ) (s : Pump)
    → Inv source total s
    → Inv source total (record s { source_ended = true })
ended-Inv source total s v = record {
  in_order = v.in_order;
  kept = v.kept;
  spent = v.spent;
  silent = v.silent;
  chunks = v.chunks;
  closed = v.closed;
}

pub pending-Inv :
    (source : Bytes) (total : ℕ) (reason : Text) (s : Pump)
    → Inv source total s
    → Inv source total (record s { pending_error = some reason })
pending-Inv source total reason s v = record {
  in_order = v.in_order;
  kept = v.kept;
  spent = v.spent;
  silent = v.silent;
  chunks = v.chunks;
  closed = v.closed;
}

pub destroyed-Inv :
    (source : Bytes) (total : ℕ) (s : Pump)
    → Inv source total s
    → Inv source total (record s { finished = true; buffered = none })
destroyed-Inv source total s v = record {
  in_order = v.in_order;
  kept = λ f. cc;
  spent = v.spent;
  silent = v.silent;
  chunks = λ f. cc;
  closed = v.closed;
}

module _ (drops : List Frame → Bytes → Bool) where
  settled-Good :
      (source : Bytes) (total bound : ℕ) (s : Pump) (r : Option Pump)
      → total ≤ bound
      → Ends drops source total r
      → Good source bound (settled s r)
  settled-Good source total bound s r h (t, e, v, i) =
      subst (λ o. Good source bound (settled s o)) (sym e)
        ((total, h, pumping-Inv source total false t v), record { at_rest = refl; idle = λ g. i })

  pub pump-Good :
      (source : Bytes) (total bound : ℕ) (s : Pump)
      → total ≤ bound
      → s.pumping ≡ false
      → Inv source total s
      → Good source bound (pump drops s)
  unfolding pump
  pump-Good source total bound s h rest v =
      if_intro (Good source bound) (s.pumping || s.finished || not s.granted) s
        (settled s (pump_loop drops (pump_fuel s) (record s { pumping = true })))
        (λ e. ((total, h, v), record { at_rest = rest; idle = λ g f. absurd (ground arith) }))
        (λ e. settled-Good source total bound s _ h (
          loop-Ends drops source total (pump_fuel s) (record s { pumping = true }) (ground arith)
            (ground arith) (pumping-Inv source total true s v)))

  grant_open-Good :
      (source : Bytes) (bound size : ℕ) (pending : Option Text) (s : Pump)
      → Good source bound s
      → Good source (size + bound) (grant_open drops pending size s)
  unfolding grant_open
  grant_open-Good source bound size (some reason) s ((total, h, v), i) =
      fail-Good source total (size + bound) reason (record s { granted = true }) (omega arith)
        i.at_rest (marked-Inv source total s v)
  grant_open-Good source bound size none s ((total, h, v), i) =
      pump-Good source (total + size) (size + bound)
        (record s { granted = true; credits = s.credits + size }) (omega arith) i.at_rest
        (granted-Inv source total size s v)

  pub grant-Good :
      (source : Bytes) (bound size : ℕ) (s : Pump)
      → Good source bound s
      → Good source (size + bound) (grant drops size s).0
  unfolding grant
  grant-Good source bound size s g =
      if_intro (λ (r : Pump × Bool). Good source (size + bound) r.0) (s.finished || size == 0)
        (s, true)
        (if ltb max_stream_credits (s.credits + size)
          then (s, false)
          else (grant_open drops s.pending_error size s, true))
        (λ e. weaker)
        (λ e.
          if_intro (λ (r : Pump × Bool). Good source (size + bound) r.0)
            (ltb max_stream_credits (s.credits + size)) (s, false)
            (grant_open drops s.pending_error size s, true) (λ over. weaker)
            (λ within. grant_open-Good source bound size s.pending_error s g))
    where
      weaker : Good source (size + bound) s
      weaker = Good-mono source bound (size + bound) s (omega arith) g
