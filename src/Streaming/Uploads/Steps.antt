-- ===== src/Streaming/Uploads/Steps.antt =====
-- The operations on the uploads in any order.
use neemata.Common.{
  ℕ, ◌≡◌, refl, ◌∙◌, Bool, true, false, ◌&&◌, Option, none, some, List, [], ◌∷◌, arith, ◌==◌,
  if_intro, if◌then◌else◌,
}
use neemata.Wire.Bytes.{Bytes}
use neemata.Wire.Utf8.{Text}
use neemata.Streaming.Index.{
  Key, key_eq, key_eq_refl, key_eq→eq, ids, member, tracks-untrack, tracks-none, member-ids,
}
use neemata.Streaming.Pump.{drop_reason}
use neemata.Streaming.Uploads.{
  ClientState, Effect, pull_size, send_pull, read_client_stream, Uploads, no_uploads, of_connection,
  create_client_stream, grant_client_stream, revoke_client_stream_grant, push_to_client_stream,
  end_client_stream, aborting, abort_client_stream, consume_client_stream, idle_expired, expiring,
  idle_timeout_reason, abort_all, abort_client_call_streams, cleanup_connection,
  get_client_call_stream_ids, closed_reason,
}
use neemata.Streaming.Uploads.Invariant.{
  Inv, create-Inv, granting-Inv, revoking-Inv, pushing-Inv, ending-Inv, aborting-Inv,
}

pub abort-Inv :
    (c i : ℕ) (reason : Text) (tell : Bool) (m : Uploads)
    → Inv m
    → Inv (abort_client_stream c i reason tell m)
unfolding abort_client_stream
abort-Inv c i reason tell m v = aborting-Inv c i reason tell (m.streams (c, i)) m refl v

consume-Inv : (c call i : ℕ) (m : Uploads) → Inv m → Inv (consume_client_stream c call i m)
unfolding consume_client_stream
consume-Inv c call i m v = record {
  live = v.live;
  listed = v.listed;
  called = λ d other j t.
      ground (arith, tracks-untrack (c, call) (d, other) i j m.calls, v.called d other j);
}

expiring-Inv : (c i : ℕ) (o : Option ClientState) (m : Uploads) → Inv m → Inv (expiring c i o m)
unfolding expiring
expiring-Inv c i none m v = v
expiring-Inv c i (some st) m v =
    if_intro Inv st.timer (abort_client_stream c i idle_timeout_reason true m) m
      (λ _. abort-Inv c i idle_timeout_reason true m v) (λ _. v)

logged-Inv : (l : List Effect) (m : Uploads) → Inv m → Inv (record m { log = l })
logged-Inv l m v = record { live = v.live; listed = v.listed; called = v.called }

send_pull-Inv :
    (c i size : ℕ) (dropped : Bool) (m : Uploads) → Inv m → Inv (send_pull c i size dropped m)
unfolding send_pull grant_client_stream revoke_client_stream_grant
send_pull-Inv c i size dropped m v =
    let granted : Inv (grant_client_stream c i (pull_size size) m) =
      granting-Inv c i (pull_size size) (m.streams (c, i)) m refl v in
    if_intro Inv dropped _ _ (λ _. revoking-Inv c i (pull_size size) _ _ refl granted)
      (λ _. logged-Inv _ _ granted)

read-Inv :
    (c i size : ℕ) (dropped : Bool) (m : Uploads)
    → Inv m
    → Inv (read_client_stream c i size dropped m)
unfolding read_client_stream
read-Inv c i size dropped m v =
    let sent : Inv (send_pull c i size dropped m) = send_pull-Inv c i size dropped m v in
    if_intro Inv dropped _ _
      (λ _. abort-Inv c i drop_reason true (send_pull c i size dropped m) sent) (λ _. sent)

abort_all-Inv :
    (c : ℕ) (l : List ℕ) (reason : Text) (tell : Bool) (m : Uploads)
    → Inv m
    → Inv (abort_all c l reason tell m)
unfolding abort_all
abort_all-Inv c [] reason tell m v = v
abort_all-Inv c (i ∷ l) reason tell m v =
    abort_all-Inv c l reason tell (abort_client_stream c i reason tell m)
      (abort-Inv c i reason tell m v)

-- The manager's operations. A stream is created under an id that is not in use.
pub data Step (m : Uploads) : Uploads → Type 0 where
  creates : (c call i : ℕ) → m.streams (c, i) ≡ none → Step m (create_client_stream c call i m)
  grants : (c i size : ℕ) → Step m (grant_client_stream c i size m)
  revokes : (c i size : ℕ) → Step m (revoke_client_stream_grant c i size m)
  reads : (c i size : ℕ) (dropped : Bool) → Step m (read_client_stream c i size dropped m)
  pushes : (c i : ℕ) (chunk : Bytes) → Step m (push_to_client_stream c i chunk m).0
  ends : (c i : ℕ) → Step m (end_client_stream c i m)
  aborts : (c i : ℕ) (reason : Text) (tell : Bool) → Step m (abort_client_stream c i reason tell m)
  consumes : (c call i : ℕ) → Step m (consume_client_stream c call i m)
  expires : (c i : ℕ) → Step m (idle_expired c i m)
  aborts_call : (c call : ℕ) (reason : Text) → Step m (abort_client_call_streams c call reason m)
  cleans : (c : ℕ) → Step m (cleanup_connection c m)

pub data Reach (m : Uploads) : Uploads → Type 0 where
  here : Reach m m
  next : {n o : Uploads} → Reach m n → Step n o → Reach m o

Step-Inv : {m n : Uploads} → Step m n → Inv m → Inv n
unfolding grant_client_stream revoke_client_stream_grant push_to_client_stream end_client_stream
    idle_expired abort_client_call_streams cleanup_connection
Step-Inv {m} (creates c call i free) v = create-Inv c call i m free v
Step-Inv {m} (grants c i size) v = granting-Inv c i size (m.streams (c, i)) m refl v
Step-Inv {m} (revokes c i size) v = revoking-Inv c i size (m.streams (c, i)) m refl v
Step-Inv {m} (reads c i size dropped) v = read-Inv c i size dropped m v
Step-Inv {m} (pushes c i chunk) v = pushing-Inv c i chunk (m.streams (c, i)) m refl v
Step-Inv {m} (ends c i) v = ending-Inv c i (m.streams (c, i)) m refl v
Step-Inv {m} (aborts c i reason tell) v = abort-Inv c i reason tell m v
Step-Inv {m} (consumes c call i) v = consume-Inv c call i m v
Step-Inv {m} (expires c i) v = expiring-Inv c i (m.streams (c, i)) m v
Step-Inv {m} (aborts_call c call reason) v =
    abort_all-Inv c (get_client_call_stream_ids c call m) reason true m v
Step-Inv {m} (cleans c) v =
    abort_all-Inv c (ids (m.connections (of_connection c))) closed_reason false m v

-- After any operations on an empty manager, in which no stream is created under an id in use: each
-- connection's index names exactly its live streams, a call's index only live streams of that
-- call, every live stream has its idle timer armed and a credit within the cap, and its peer has
-- not been told of an abort.
pub Reach-Inv : {m : Uploads} → Reach no_uploads m → Inv m
Reach-Inv here = record {
  live = λ k. tt;
  listed = λ c i. tracks-none (of_connection c) i;
  called = λ c call i t. cc (t, tracks-none (c, call) i);
}
Reach-Inv (next r s) = Step-Inv s (Reach-Inv r)

aborting-streams :
    (c i : ℕ) (reason : Text) (tell : Bool) (o : Option ClientState) (m : Uploads) (k : Key)
    → m.streams (c, i) ≡ o
    → (aborting c i reason tell o m).streams k ≡ (if key_eq k (c, i) then none else m.streams k)
unfolding aborting
aborting-streams c i reason tell none m k e = ground (arith, key_eq→eq k (c, i))
aborting-streams c i reason tell (some st) m k e = rw (key_eq_refl (c, i)) (ground arith)

abort_all-streams :
    (c : ℕ) (l : List ℕ) (reason : Text) (tell : Bool) (m : Uploads) (d j : ℕ)
    → (abort_all c l reason tell m).streams (d, j)
      ≡ (if d == c && member j l then none else m.streams (d, j))
unfolding abort_all abort_client_stream
abort_all-streams c [] reason tell m d j = ground arith
abort_all-streams c (i ∷ l) reason tell m d j = ground (
  arith,
  abort_all-streams c l reason tell (abort_client_stream c i reason tell m) d j,
  aborting-streams c i reason tell (m.streams (c, i)) m (d, j) refl,
)

-- Tearing a connection down removes all its uploads, and no other connection's.
pub cleanup-streams :
    (m : Uploads) (c d i : ℕ)
    → Reach no_uploads m
    → (cleanup_connection c m).streams (d, i) ≡ (if d == c then none else m.streams (d, i))
unfolding cleanup_connection
cleanup-streams m c d i r =
    let v = Reach-Inv r in
    abort_all-streams c (ids (m.connections (of_connection c))) closed_reason false m d i
    ∙ ground (arith, v.listed d i, member-ids m.connections (of_connection d) i)
