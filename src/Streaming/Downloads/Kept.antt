-- ===== src/Streaming/Downloads/Kept.antt =====
-- What the operations on downloads keep.
use neemata.Common.{
  ℕ, ◌+◌, ◌≤◌, ◌≡◌, refl, sym, ap, subst, ◌∙◌, Bool, true, false, not, ◌||◌, Option, none, some,
  List, [], ◌∷◌, arith, if_intro, if◌then◌else◌, length, drop, drop-append_length,
}
use neemata.Wire.Bytes.{Bytes}
use neemata.Wire.Utf8.{Text}
use neemata.Streaming.Pump.{Frame, chunk, end, error, Pump}
use neemata.Streaming.Pump.Extends.{closes, ends, Extends}
use neemata.Streaming.Index.{
  Key, key_eq, key_eq_refl, key_eq→eq, put, untrack, tracks, tracks-untrack,
}
use neemata.Streaming.Uploads.{of_connection}
use neemata.Streaming.Downloads.{
  ServerState, Sent, opened, sent_chunk, sent_end, sent_abort, Downloads, removing, touching,
  touched, suppressed, logged, on_frames, updating,
}

abbrev pub is_some : Option ServerState → Bool
is_some none = false
is_some (some st) = true

abbrev pub call_of : Option ServerState → Option ℕ
call_of none = none
call_of (some st) = some st.call_id

-- How many streams of a key were made, and how many closing frames the peer got for them.
abbrev pub opens : Key → List Sent → ℕ
opens k [] = 0
opens k (opened j ∷ l) = (if key_eq k j then 1 else 0) + opens k l
opens k (sent_chunk j b ∷ l) = opens k l
opens k (sent_end j ∷ l) = opens k l
opens k (sent_abort j r ∷ l) = opens k l

abbrev pub closings : Key → List Sent → ℕ
closings k [] = 0
closings k (opened j ∷ l) = closings k l
closings k (sent_chunk j b ∷ l) = closings k l
closings k (sent_end j ∷ l) = (if key_eq k j then 1 else 0) + closings k l
closings k (sent_abort j r ∷ l) = (if key_eq k j then 1 else 0) + closings k l

abbrev pub lives : Option ServerState → ℕ
lives none = 0
lives (some st) = 1

-- A stream whose pump is finished or not, as told; an unfinished one is not silenced.
abbrev pub IsLive : Bool → Option ServerState → Type 0
IsLive finished none = Unit {0}
IsLive finished (some st) =
    (st.timer ≡ true)
    × (st.stream.finished ≡ finished)
    × ((finished || not st.suppress_notify) ≡ true)

-- The one stream whose frames are being handed over may be finished.
abbrev pub closing : Bool → Key → Key → Bool
closing true j k = key_eq k j
closing false j k = false

pub record Inv (finished : Key → Bool) (m : Downloads) : Type 0 where
  pub live : (k : Key) → IsLive (finished k) (m.streams k)
  pub listed : (c i : ℕ) → tracks m.connections (of_connection c) i ≡ is_some (m.streams (c, i))
  pub called :
      (c call i : ℕ) → tracks m.calls (c, call) i ≡ true → call_of (m.streams (c, i)) ≡ some call
  pub closed_once : (k : Key) → closings k m.log + lives (m.streams k) ≤ opens k m.log

abbrev pub none_finished : Key → Bool
none_finished k = false

closing_other : (f : Bool) (j k : Key) → key_eq k j ≡ false → closing f j k ≡ false
closing_other true j k ne = ne
closing_other false j k ne = refl

-- A stream that is there goes, with at most one closing frame for it.
pub removed-Inv :
    (finished : Bool) (c i : ℕ) (st : ServerState) (m : Downloads) (log : List Sent)
    → m.streams (c, i) ≡ some st
    → ((k : Key) → closings k log ≤ (if key_eq k (c, i) then 1 else 0) + closings k m.log)
    → ((k : Key) → opens k log ≡ opens k m.log)
    → Inv (closing finished (c, i)) m
    → Inv none_finished (record {
      streams = put (c, i) none m.streams;
      calls = untrack (c, st.call_id) i m.calls;
      connections = untrack (of_connection c) i m.connections;
      log = log;
    })
removed-Inv finished c i st m log e few same v = record {
  live = λ k.
      if_intro (IsLive false) (key_eq k (c, i)) none (m.streams k) (λ _. tt)
        (λ ne. subst (λ b. IsLive b (m.streams k)) (closing_other finished (c, i) k ne) (v.live k));
  listed = λ d j. rw tracks-untrack (ground (arith, v.listed d j));
  called = λ d other j t. ground (
    arith,
    tracks-untrack (c, st.call_id) (d, other) i j m.calls,
    v.called d other j,
    key_eq→eq (d, j) (c, i),
  );
  closed_once = λ k. ground (arith, v.closed_once k, few k, same k, key_eq→eq k (c, i));
}

closing_self : (f : Bool) (j k : Key) → key_eq k j ≡ true → closing f j k ≡ f
closing_self true j k e = e
closing_self false j k e = refl

module _ (c i : ℕ) where
  ended-Inv :
      (finished : Bool) (o : Option ServerState) (m : Downloads)
      → m.streams (c, i) ≡ o
      → is_some o ≡ true
      → Inv (closing finished (c, i)) m
      → Inv none_finished (logged false (sent_end (c, i)) (removing c i o m))
  unfolding removing
  ended-Inv finished none m e p v = absurd (ground arith)
  ended-Inv finished (some st) m e p v =
      removed-Inv finished c i st m (sent_end (c, i) ∷ m.log) e (λ k. omega arith) (λ k. refl) v

  failed-Inv :
      (finished silent : Bool) (reason : Text) (o : Option ServerState) (m : Downloads)
      → m.streams (c, i) ≡ o
      → is_some o ≡ true
      → Inv (closing finished (c, i)) m
      → Inv none_finished (logged silent (sent_abort (c, i) reason) (removing c i o m))
  unfolding removing
  failed-Inv finished silent reason none m e p v = absurd (ground arith)
  failed-Inv finished true reason (some st) m e p v =
      removed-Inv finished c i st m m.log e (λ k. omega arith) (λ k. refl) v
  failed-Inv finished false reason (some st) m e p v =
      removed-Inv finished c i st m (sent_abort (c, i) reason ∷ m.log) e (λ k. omega arith)
        (λ k. refl) v

  replaced-Inv :
      (finished finished_after : Bool) (st after : ServerState) (m : Downloads) (log : List Sent)
      → m.streams (c, i) ≡ some st
      → after.call_id ≡ st.call_id
      → IsLive finished_after (some after)
      → ((k : Key) → closings k log ≡ closings k m.log)
      → ((k : Key) → opens k log ≡ opens k m.log)
      → Inv (closing finished (c, i)) m
      → Inv
          (closing finished_after (c, i))
          (record m { streams = put (c, i) (some after) m.streams; log = log })
  replaced-Inv finished finished_after st after m log e same l few opened_same v = record {
    live = λ k.
        if_intro (IsLive (closing finished_after (c, i) k)) (key_eq k (c, i)) (some after)
          (m.streams k)
          (λ here.
            subst (λ b. IsLive b (some after)) (sym (closing_self finished_after (c, i) k here)) l)
          (λ ne.
            subst (λ b. IsLive b (m.streams k)) (sym (closing_other finished_after (c, i) k ne))
              (subst (λ b. IsLive b (m.streams k)) (closing_other finished (c, i) k ne)
                (v.live k)));
    listed = λ d j. ground (arith, v.listed d j, key_eq→eq (d, j) (c, i));
    called = λ d other j t. ground (arith, v.called d other j t, key_eq→eq (d, j) (c, i));
    closed_once = λ k. ground (arith, v.closed_once k, few k, opened_same k, key_eq→eq k (c, i));
  }

  own-IsLive :
      (finished : Bool) (st : ServerState) (m : Downloads)
      → m.streams (c, i) ≡ some st
      → Inv (closing finished (c, i)) m
      → IsLive finished (some st)
  own-IsLive finished st m e v = subst (IsLive finished) e (
      subst (λ b. IsLive b (m.streams (c, i)))
        (closing_self finished (c, i) (c, i) (key_eq_refl (c, i))) (v.live (c, i)))

  present :
      (o : Option ServerState) (m : Key → Option ServerState)
      → is_some o ≡ true
      → is_some (put (c, i) o m (c, i)) ≡ true
  present o m p = rw (key_eq_refl (c, i)) p

  chunk-Inv :
      (finished : Bool) (bytes : Bytes) (o : Option ServerState) (m : Downloads)
      → m.streams (c, i) ≡ o
      → is_some o ≡ true
      → Inv (closing finished (c, i)) m
      → Inv (closing finished (c, i)) (logged false (sent_chunk (c, i) bytes) (touching (c, i) o m))
        × (is_some ((touching (c, i) o m).streams (c, i)) ≡ true)
  unfolding touching
  chunk-Inv finished bytes none m e p v = absurd (ground arith)
  chunk-Inv finished bytes (some st) m e p v =
      let own = own-IsLive finished st m e v in
      (
        replaced-Inv finished finished st (touched st) m (sent_chunk (c, i) bytes ∷ m.log) e refl
            (refl, own.1, own.2) (λ k. refl) (λ k. refl) v,
        present (some (touched st)) m.streams refl,
      )

  on_frames-Inv :
      (finished : Bool) (fs : List Frame) (m : Downloads)
      → closes finished fs ≡ true
      → is_some (m.streams (c, i)) ≡ true
      → Inv (closing finished (c, i)) m
      → Inv none_finished (on_frames c i fs m)
  unfolding on_frames
  on_frames-Inv true [] m h p v = absurd (ground arith)
  on_frames-Inv false [] m h p v = record {
    live = v.live;
    listed = v.listed;
    called = v.called;
    closed_once = v.closed_once;
  }
  on_frames-Inv finished (chunk bytes ∷ fs) m h p v =
      let r = chunk-Inv finished bytes (m.streams (c, i)) m refl p v in
      on_frames-Inv finished fs _ h r.1 r.0
  on_frames-Inv finished (end ∷ []) m h p v = ended-Inv finished (m.streams (c, i)) m refl p v
  on_frames-Inv finished (end ∷ f ∷ fs) m h p v = absurd (ground arith)
  on_frames-Inv finished (error reason ∷ []) m h p v =
      failed-Inv finished (suppressed (m.streams (c, i))) reason (m.streams (c, i)) m refl p v
  on_frames-Inv finished (error reason ∷ f ∷ fs) m h p v = absurd (ground arith)

  -- The pump of a live stream has run; `st` is its state, which may have been silenced if the
  -- stream is now finished.
  pub updating-Inv :
      (was st : ServerState) (after : Pump) (m : Downloads)
      → m.streams (c, i) ≡ some was
      → st.call_id ≡ was.call_id
      → st.timer ≡ true
      → was.stream ≡ st.stream
      → (after.finished || not st.suppress_notify) ≡ true
      → Extends st.stream after
      → Inv none_finished m
      → Inv none_finished (updating c i st after m)
  unfolding updating
  updating-Inv was st after m e same timer stream quiet x v =
      let w : Inv (closing false (c, i)) m = record {
        live = v.live;
        listed = v.listed;
        called = v.called;
        closed_once = v.closed_once;
      } in
      let unfinished : st.stream.finished ≡ false =
        ap (λ (p : Pump). p.finished) (sym stream) ∙ (own-IsLive false was m e w).1 in
      let fresh : drop (length st.stream.sent) after.sent ≡ x.frames =
        ap (drop (length st.stream.sent)) x.sent ∙ drop-append_length st.stream.sent x.frames in
      let t : Downloads = record m {
        streams = put (c, i) (some (record st { stream = after })) m.streams;
      } in
      subst (λ fs. Inv none_finished (on_frames c i fs t)) (sym fresh)
        (on_frames-Inv after.finished x.frames t
          (ap (λ b. ends b after.finished x.frames) (sym unfinished) ∙ x.ending)
          (present (some (record st { stream = after })) m.streams refl)
          (replaced-Inv false after.finished was (record st { stream = after }) m m.log e same
            (timer, refl, quiet) (λ k. refl) (λ k. refl) w))
