-- ===== src/Streaming/Downloads/Steps.antt =====
-- The operations on the downloads in any order.
use neemata.Common.{
  ℕ, ◌≡◌, refl, ap, subst, Bool, true, false, not, ◌||◌, Option, none, some, List, [], ◌∷◌, arith,
  if_intro,
}
use neemata.Wire.Bytes.{Bytes}
use neemata.Wire.Utf8.{Text}
use neemata.Streaming.Pump.{
  Frame, Pump, destroy, grant, step, Event, readable, source_end, source_error,
}
use neemata.Streaming.Pump.Extends.{
  Extends, destroy-Extends, finished-destroy, grant-Extends, readable-Extends, source_end-Extends,
  source_error-Extends,
}
use neemata.Streaming.Index.{key_eq, key_eq→eq, tracks-track, tracks-none, ids}
use neemata.Streaming.Uploads.{of_connection, idle_timeout_reason}
use neemata.Streaming.Downloads.{
  ServerState, Downloads, no_downloads, create_server_stream, removing, remove_server_stream,
  aborting, abort_server_stream, touched, pulling, pull_server_stream, violation_reason, emitting,
  expiring, abort_all, cleanup_connection,
}
use neemata.Streaming.Downloads.Kept.{Inv, IsLive, none_finished, removed-Inv, updating-Inv}

created-Inv :
    (c call i : ℕ) (m : Downloads)
    → m.streams (c, i) ≡ none
    → Inv none_finished m
    → Inv none_finished (create_server_stream c call i m)
unfolding create_server_stream
created-Inv c call i m free v = record {
  live = λ k.
      if_intro (IsLive false) (key_eq k (c, i)) _ (m.streams k) (λ _. (refl, refl, refl))
        (λ _. v.live k);
  listed = λ d j. rw tracks-track (ground (arith, v.listed d j));
  called = λ d other j t. ground (
    arith,
    tracks-track (c, call) (d, other) i j m.calls,
    v.called d other j,
    key_eq→eq (d, j) (c, i),
  );
  closed_once = λ k. ground (arith, v.closed_once k, key_eq→eq k (c, i));
}

gone-Inv :
    (c i : ℕ) (o : Option ServerState) (m : Downloads)
    → m.streams (c, i) ≡ o
    → Inv none_finished m
    → Inv none_finished (removing c i o m)
unfolding removing
gone-Inv c i none m e v = v
gone-Inv c i (some st) m e v =
    removed-Inv false c i st m m.log e (λ k. omega arith) (λ k. refl)
      (record { live = v.live; listed = v.listed; called = v.called; closed_once = v.closed_once })

own-IsLive :
    (c i : ℕ) (st : ServerState) (m : Downloads)
    → m.streams (c, i) ≡ some st
    → Inv none_finished m
    → IsLive false (some st)
own-IsLive c i st m e v = subst (IsLive false) e (v.live (c, i))

module _ (drops : List Frame → Bytes → Bool) where
  aborting-Inv :
      (c i : ℕ) (reason : Text) (notify : Bool) (o : Option ServerState) (m : Downloads)
      → m.streams (c, i) ≡ o
      → Inv none_finished m
      → Inv none_finished (aborting drops c i reason notify o m)
  unfolding aborting remove_server_stream
  aborting-Inv c i reason notify none m e v = v
  aborting-Inv c i reason notify (some st) m e v = gone-Inv c i _ _ refl (
      updating-Inv c i st (record st { suppress_notify = not notify || st.suppress_notify })
        (destroy drops (some reason) st.stream) m e refl (own-IsLive c i st m e v).0 refl
        (ap (λ b. b || not (not notify || st.suppress_notify))
          (finished-destroy drops reason st.stream))
        (destroy-Extends drops reason st.stream) v)

  abort-Inv :
      (c i : ℕ) (reason : Text) (notify : Bool) (m : Downloads)
      → Inv none_finished m
      → Inv none_finished (abort_server_stream drops c i reason notify m)
  unfolding abort_server_stream
  abort-Inv c i reason notify m v = aborting-Inv c i reason notify (m.streams (c, i)) m refl v

  or_true : (b : Bool) {a : Bool} → a ≡ true → (b || a) ≡ true
  or_true true e = refl
  or_true false e = e

  pulling-Inv :
      (c i size : ℕ) (o : Option ServerState) (m : Downloads)
      → m.streams (c, i) ≡ o
      → Inv none_finished m
      → Inv none_finished (pulling drops c i size o m)
  unfolding pulling
  pulling-Inv c i size none m e v = v
  pulling-Inv c i size (some st) m e v =
      let own = own-IsLive c i st m e v in
      let w =
        updating-Inv c i st (touched st) (grant drops size st.stream).0 m e refl refl refl
          (or_true (grant drops size st.stream).0.finished own.2)
          (grant-Extends drops size st.stream) v in
      if_intro (Inv none_finished) (grant drops size st.stream).1 _ _ (λ _. w)
        (λ _. abort-Inv c i violation_reason true _ w)

  emitting-Inv :
      (c i : ℕ) (event : Event) (o : Option ServerState) (m : Downloads)
      → ((s : Pump) → Extends s (step drops s event))
      → m.streams (c, i) ≡ o
      → Inv none_finished m
      → Inv none_finished (emitting drops c i event o m)
  unfolding emitting
  emitting-Inv c i event none m x e v = v
  emitting-Inv c i event (some st) m x e v =
      let own = own-IsLive c i st m e v in
      updating-Inv c i st st (step drops st.stream event) m e refl own.0 refl
        (or_true (step drops st.stream event).finished own.2) (x st.stream) v

  expiring-Inv :
      (c i : ℕ) (o : Option ServerState) (m : Downloads)
      → Inv none_finished m
      → Inv none_finished (expiring drops c i o m)
  unfolding expiring
  expiring-Inv c i none m v = v
  expiring-Inv c i (some st) m v =
      if_intro (Inv none_finished) st.timer _ m (λ _. abort-Inv c i idle_timeout_reason true m v)
        (λ _. v)

  abort_all-Inv :
      (c : ℕ) (l : List ℕ) (m : Downloads)
      → Inv none_finished m
      → Inv none_finished (abort_all drops c l m)
  unfolding abort_all
  abort_all-Inv c [] m v = v
  abort_all-Inv c (i ∷ l) m v = abort_all-Inv c l _ (abort-Inv c i _ false m v)

  -- A stream is created under an id that is not in use.
  pub data Step (m : Downloads) : Downloads → Type 0 where
    creates : (c call i : ℕ) → m.streams (c, i) ≡ none → Step m (create_server_stream c call i m)
    pulls : (c i size : ℕ) → Step m (pull_server_stream drops c i size m)
    reads :
        (c i : ℕ) (bytes : Bytes)
        → Step m (emitting drops c i (readable bytes) (m.streams (c, i)) m)
    ends_source : (c i : ℕ) → Step m (emitting drops c i source_end (m.streams (c, i)) m)
    fails :
        (c i : ℕ) (reason : Text)
        → Step m (emitting drops c i (source_error reason) (m.streams (c, i)) m)
    aborts :
        (c i : ℕ) (reason : Text) (notify : Bool)
        → Step m (abort_server_stream drops c i reason notify m)
    removes : (c i : ℕ) → Step m (remove_server_stream c i m)
    expires : (c i : ℕ) → Step m (expiring drops c i (m.streams (c, i)) m)
    cleans : (c : ℕ) → Step m (cleanup_connection drops c m)

  pub data Reach (m : Downloads) : Downloads → Type 0 where
    here : Reach m m
    next : {n o : Downloads} → Reach m n → Step n o → Reach m o

  Step-Inv : {m n : Downloads} → Step m n → Inv none_finished m → Inv none_finished n
  unfolding pull_server_stream remove_server_stream cleanup_connection
  Step-Inv {m} (creates c call i free) v = created-Inv c call i m free v
  Step-Inv {m} (pulls c i size) v = pulling-Inv c i size (m.streams (c, i)) m refl v
  Step-Inv {m} (reads c i bytes) v =
      emitting-Inv c i (readable bytes) (m.streams (c, i)) m (readable-Extends drops bytes) refl v
  Step-Inv {m} (ends_source c i) v =
      emitting-Inv c i source_end (m.streams (c, i)) m (source_end-Extends drops) refl v
  Step-Inv {m} (fails c i reason) v =
      emitting-Inv c i (source_error reason) (m.streams (c, i)) m
        (source_error-Extends drops reason) refl v
  Step-Inv {m} (aborts c i reason notify) v = abort-Inv c i reason notify m v
  Step-Inv {m} (removes c i) v = gone-Inv c i (m.streams (c, i)) m refl v
  Step-Inv {m} (expires c i) v = expiring-Inv c i (m.streams (c, i)) m v
  Step-Inv {m} (cleans c) v = abort_all-Inv c (ids (m.connections (of_connection c))) m v

  -- After any operations and source events on an empty manager, in which no stream is created under
  -- an id in use, whatever the transport drops: a live stream has its idle timer armed, its pump is
  -- not finished and it is not silenced; each connection's index names exactly its live streams, and
  -- a call's index only live streams of that call; and the peer got at most one closing frame for
  -- each stream, an end or an abort, and none for a live one.
  pub Downloads-Reach-Inv : {m : Downloads} → Reach no_downloads m → Inv none_finished m
  Downloads-Reach-Inv here = record {
    live = λ k. tt;
    listed = λ c i. tracks-none (of_connection c) i;
    called = λ c call i t. cc (t, tracks-none (c, call) i);
    closed_once = λ k. omega arith;
  }
  Downloads-Reach-Inv (next r s) = Step-Inv s (Downloads-Reach-Inv r)
