-- ===== src/Streaming/Uploads/Invariant.antt =====
-- The indices of the uploads agree with the streams.
use neemata.Common.{
  ℕ, ◌≤◌, ◌≡◌, refl, Bool, true, false, ◌||◌, Option, none, some, List, arith, ◌==◌, ltb, length,
  if_intro,
}
use neemata.Wire.Bytes.{Bytes}
use neemata.Wire.Utf8.{Text}
use neemata.Streaming.Pump.{max_stream_credits}
use neemata.Streaming.Index.{Key, key_eq_refl, put, key_eq→eq, tracks, tracks-track, tracks-untrack}
use neemata.Streaming.Uploads.{
  ClientState, Uploads, of_connection, create_client_stream, removing, remove_client_stream,
  granting, revoking, pushing, ending, aborting, Effect,
}

abbrev pub is_some : Option ClientState → Bool
is_some none = false
is_some (some st) = true

abbrev pub call_of : Option ClientState → Option ℕ
call_of none = none
call_of (some st) = some st.call_id

-- A live stream's credit is within the cap, its idle timer runs, and the peer was not told.
abbrev pub IsLive : Option ClientState → Type 0
IsLive none = Unit {0}
IsLive (some st) = (st.granted ≤ max_stream_credits) × (st.timer ≡ true) × (st.notified ≡ false)

-- A connection's index names its live streams exactly; a call's index names live streams of it.
pub record Inv (m : Uploads) : Type 0 where
  pub live : (k : Key) → IsLive (m.streams k)
  pub listed : (c i : ℕ) → tracks m.connections (of_connection c) i ≡ is_some (m.streams (c, i))
  pub called :
      (c call i : ℕ) → tracks m.calls (c, call) i ≡ true → call_of (m.streams (c, i)) ≡ some call

pub create-Inv :
    (c call i : ℕ) (m : Uploads)
    → m.streams (c, i) ≡ none
    → Inv m
    → Inv (create_client_stream c call i m)
unfolding create_client_stream
create-Inv c call i m free v = record {
  live = λ k. ground (arith, v.live k);
  listed = λ d j. rw tracks-track (ground (arith, v.listed d j));
  called = λ d other j t. ground (
    arith,
    tracks-track (c, call) (d, other) i j m.calls,
    v.called d other j,
    key_eq→eq (d, j) (c, i),
  );
}

removing-Inv :
    (c i : ℕ) (o : Option ClientState) (m : Uploads)
    → m.streams (c, i) ≡ o
    → Inv m
    → Inv (removing c i o m)
unfolding removing
removing-Inv c i none m e v = v
removing-Inv c i (some st) m e v = record {
  live = λ k. ground (arith, v.live k);
  listed = λ d j. rw tracks-untrack (ground (arith, v.listed d j));
  called = λ d other j t. ground (
    arith,
    tracks-untrack (c, st.call_id) (d, other) i j m.calls,
    v.called d other j,
    key_eq→eq (d, j) (c, i),
  );
}

-- A stream whose state changes in place, for the same call.
update-Inv :
    (c i : ℕ) (st after : ClientState) (m : Uploads) (log : List Effect)
    → m.streams (c, i) ≡ some st
    → after.call_id ≡ st.call_id
    → IsLive (some after)
    → Inv m
    → Inv (record m { streams = put (c, i) (some after) m.streams; log = log })
update-Inv c i st after m log e same l v = record {
  live = λ k. ground (arith, v.live k);
  listed = λ d j. ground (arith, v.listed d j, key_eq→eq (d, j) (c, i));
  called = λ d other j t. ground (arith, v.called d other j t, key_eq→eq (d, j) (c, i));
}

pub remove-Inv : (c i : ℕ) (m : Uploads) → Inv m → Inv (remove_client_stream c i m)
unfolding remove_client_stream
remove-Inv c i m v = removing-Inv c i (m.streams (c, i)) m refl v

logged-Inv : (m : Uploads) (log : List Effect) → Inv m → Inv (record m { log = log })
logged-Inv m log v = record { live = v.live; listed = v.listed; called = v.called }

pub granting-Inv :
    (c i size : ℕ) (o : Option ClientState) (m : Uploads)
    → m.streams (c, i) ≡ o
    → Inv m
    → Inv (granting (c, i) size o m)
unfolding granting
granting-Inv c i size none m e v = v
granting-Inv c i size (some st) m e v =
    update-Inv c i st _ m _ e refl (ground (arith, v.live (c, i))) v

pub revoking-Inv :
    (c i size : ℕ) (o : Option ClientState) (m : Uploads)
    → m.streams (c, i) ≡ o
    → Inv m
    → Inv (revoking (c, i) size o m)
unfolding revoking
revoking-Inv c i size none m e v = v
revoking-Inv c i size (some st) m e v =
    update-Inv c i st _ m _ e refl (ground (arith, v.live (c, i))) v

pub pushing-Inv :
    (c i : ℕ) (chunk : Bytes) (o : Option ClientState) (m : Uploads)
    → m.streams (c, i) ≡ o
    → Inv m
    → Inv (pushing (c, i) chunk o m).0
unfolding pushing
pushing-Inv c i chunk none m e v = v
pushing-Inv c i chunk (some st) m e v =
    if_intro (λ (r : Uploads × Bool). Inv r.0) (length chunk == 0 || ltb st.granted (length chunk))
      _ _ (λ _. v) (λ _. update-Inv c i st _ m _ e refl (ground (arith, v.live (c, i))) v)

pub ending-Inv :
    (c i : ℕ) (o : Option ClientState) (m : Uploads)
    → m.streams (c, i) ≡ o
    → Inv m
    → Inv (ending c i o m)
unfolding ending
ending-Inv c i none m e v = v
ending-Inv c i (some st) m e v = removing-Inv c i _ _ refl (logged-Inv m _ v)

pub aborting-Inv :
    (c i : ℕ) (reason : Text) (tell : Bool) (o : Option ClientState) (m : Uploads)
    → m.streams (c, i) ≡ o
    → Inv m
    → Inv (aborting c i reason tell o m)
unfolding aborting
aborting-Inv c i reason tell none m e v = v
aborting-Inv c i reason tell (some st) m e v = rw (key_eq_refl (c, i)) (record {
  live = λ k. ground (arith, v.live k);
  listed = λ d j. rw tracks-untrack (ground (arith, v.listed d j));
  called = λ d other j t. ground (
    arith,
    tracks-untrack (c, st.call_id) (d, other) i j m.calls,
    v.called d other j,
    key_eq→eq (d, j) (c, i),
  );
})
