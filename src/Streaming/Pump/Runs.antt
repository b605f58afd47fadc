-- ===== src/Streaming/Pump/Runs.antt =====
-- Whole histories of a download: what the sink has seen after any events.
use mathlib.Core.List.{append-nil, append_assoc}
use neemata.Common.{
  ℕ, ◌+◌, ◌≤◌, ◌≡◌, refl, sym, ap, subst, ◌∙◌, ◌⊎◌, inl, inr, Bool, true, false, not, ◌&&◌, none,
  some, List, [], ◌∷◌, ◌++◌, arith, Bool-cases, if_intro, if◌then◌else◌, length,
}
use neemata.Wire.Bytes.{Bytes}
use neemata.Streaming.Pump.{
  Frame, Pump, create, pump, fail, grant, destroy, Event, readable, source_end, source_error,
  grants, destroys, step, run,
}
use neemata.Streaming.Pump.Frames.{bytes_sent, waiting, IsClosedOnce, OnlyErrors, Inv}
use neemata.Streaming.Pump.Steps.{
  produced, granted_in, bytes_of, size_of, Good, pump-Good, fail-Good, grant-Good, Good-mono,
  readable-Inv, ended-Inv, pending-Inv, destroyed-Inv,
}

module _ (drops : List Frame → Bytes → Bool) where
  -- An event that brings no bytes and no credit.
  quiet :
      (source : Bytes) (bound : ℕ) (s : Pump)
      → Good source bound s
      → Good (source ++ []) (0 + bound) s
  quiet source bound s g =
      Good-mono (source ++ []) bound (0 + bound) s (omega arith)
        (subst (λ c. Good c bound s) (sym (append-nil source)) g)

  step-Good :
      (source : Bytes) (bound : ℕ) (s : Pump) (e : Event)
      → Good source bound s
      → Good (source ++ bytes_of e) (size_of e + bound) (step drops s e)
  unfolding step destroy
  step-Good source bound s (readable b) ((total, h, v), i) =
      pump-Good drops (source ++ b) total (0 + bound) (record s { reads = s.reads ++ b ∷ [] })
        (omega arith) i.at_rest (readable-Inv source total b s v)
  step-Good source bound s source_end ((total, h, v), i) =
      quiet source bound (pump drops (record s { source_ended = true })) (
        pump-Good drops source total bound (record s { source_ended = true }) h i.at_rest
          (ended-Inv source total s v))
  step-Good source bound s (source_error reason) ((total, h, v), i) =
      quiet source bound
        (if not s.granted && not s.finished
          then record s { pending_error = some reason }
          else fail reason s)
        (if_intro (Good source bound) (not s.granted && not s.finished)
          (record s { pending_error = some reason }) (fail reason s)
          (λ e. (
            (total, h, pending-Inv source total reason s v),
            record { at_rest = i.at_rest; idle = i.idle },
          ))
          (λ e. fail-Good source total bound reason s h i.at_rest v))
  step-Good source bound s (grants size) g =
      subst (λ c. Good c (size + bound) (grant drops size s).0) (sym (append-nil source))
        (grant-Good drops source bound size s g)
  step-Good source bound s (destroys (some reason)) ((total, h, v), i) =
      quiet source bound (fail reason s) (fail-Good source total bound reason s h i.at_rest v)
  step-Good source bound s (destroys none) ((total, h, v), i) =
      quiet source bound (record s { finished = true; buffered = none })
        (
          (total, h, destroyed-Inv source total s v),
          record { at_rest = i.at_rest; idle = λ g f. cc },
        )

  run-Good :
      (source : Bytes) (bound : ℕ) (s : Pump) (es : List Event)
      → Good source bound s
      → Good (source ++ produced es) (granted_in es + bound) (run drops s es)
  unfolding run
  run-Good source bound s [] g = quiet source bound s g
  run-Good source bound s (e ∷ es) g =
      subst (λ c. Good c (granted_in (e ∷ es) + bound) (run drops (step drops s e) es))
        (append_assoc source (bytes_of e) (produced es))
        (Good-mono _ _ _ _ (omega arith) (
          run-Good (source ++ bytes_of e) (size_of e + bound) (step drops s e) es
            (step-Good source bound s e g)))

  created-Good : (es : List Event) → Good (produced es) (granted_in es) (run drops create es)
  created-Good es =
      Good-mono (produced es) (granted_in es + 0) (granted_in es) (run drops create es)
        (omega arith)
        (run-Good [] 0 create es
          ((0, omega arith, create-Inv), record { at_rest = refl; idle = λ g. cc }))
    where
      create-Inv : Inv [] 0 create
      create-Inv = record {
        in_order = ([], refl);
        kept = λ f. refl;
        spent = omega arith;
        silent = λ g. tt;
        chunks = λ f. tt;
        closed = tt;
      }

  -- Whatever the source, the peer and the transport do, the bytes sent are a prefix of the bytes
  -- that the source produced, their number and the credit left are within what the peer granted,
  -- at most one closing frame is sent and none behind it, and before the first grant neither a
  -- chunk nor an end.
  pub run_safe :
      (es : List Event)
      → let s = run drops create es in
        ((rest : Bytes) × (bytes_sent s.sent ++ rest ≡ produced es))
        × (length (bytes_sent s.sent) + s.credits ≤ granted_in es)
        × IsClosedOnce s.sent
        × ((s.granted ≡ true) ⊎ OnlyErrors s.sent)
  run_safe es =
      let ((total, h, v), i) = created-Good es in
      (v.in_order, omega (arith, v.spent), v.closed, granted_or_silent (run drops create es) v)
    where
      granted_or_silent :
          {source : Bytes} {total : ℕ} (s : Pump)
          → Inv source total s
          → (s.granted ≡ true) ⊎ OnlyErrors s.sent
      granted_or_silent s v = elim (Bool-cases s.granted) [
        | inl e ↦ inl e
        | inr e ↦ inr (v.silent e)
      ]

  -- While the stream is open no byte is lost: behind those sent stand, in order, those that the
  -- pump holds and those that the source has ready.
  pub run_complete :
      (es : List Event)
      → (run drops create es).finished ≡ false
      → bytes_sent (run drops create es).sent ++ waiting (run drops create es) ≡ produced es
  run_complete es f = let ((total, h, v), i) = created-Good es in v.kept f

  -- Once credit was granted, an open stream has either used up its credit or sent all that the
  -- source produced.
  pub run_live :
      (es : List Event)
      → (run drops create es).finished ≡ false
      → (run drops create es).granted ≡ true
      → ((run drops create es).credits ≡ 0) ⊎ (bytes_sent (run drops create es).sent ≡ produced es)
  run_live es f g =
      let (grants', i) = created-Good es in
      all_or_none (run drops create es) (produced es) (i.idle g f) (run_complete es f)
    where
      all_or_none :
          (s : Pump) (source : Bytes)
          → (s.credits ≡ 0) ⊎ (waiting s ≡ [])
          → bytes_sent s.sent ++ waiting s ≡ source
          → (s.credits ≡ 0) ⊎ (bytes_sent s.sent ≡ source)
      all_or_none s source (inl none_left) k = inl none_left
      all_or_none s source (inr empty) k =
          inr (
            sym (append-nil (bytes_sent s.sent)) ∙ sym (ap (λ l. bytes_sent s.sent ++ l) empty) ∙ k)
