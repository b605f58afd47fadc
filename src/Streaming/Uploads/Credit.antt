-- ===== src/Streaming/Uploads/Credit.antt =====
-- Upload credit and abort notices over whole histories, read off the manager's log.
use neemata.Common.{
  ℕ, ◌+◌, ◌≤◌, ◌≡◌, refl, Bool, true, false, ◌||◌, Option, none, some, List, [], ◌∷◌, arith, ltb,
  ◌==◌, if_intro, if◌then◌else◌, length,
}
use neemata.Wire.Bytes.{Bytes}
use neemata.Wire.Utf8.{Text}
use neemata.Streaming.Index.{Key, key_eq, key_eq_refl, key_eq→eq, ids}
use neemata.Streaming.Pump.{drop_reason}
use neemata.Streaming.Uploads.{
  ClientState, Effect, created, pulled, wrote, ended, destroyed, told_peer, Uploads, no_uploads,
  of_connection, create_client_stream, granting, grant_client_stream, revoking,
  revoke_client_stream_grant, pushing, push_to_client_stream, removing, ending, end_client_stream,
  aborting, abort_client_stream, consume_client_stream, expiring, idle_expired, idle_timeout_reason,
  abort_all, abort_client_call_streams, cleanup_connection, get_client_call_stream_ids,
  closed_reason, pull_size, send_pull, read_client_stream,
}
use neemata.Streaming.Uploads.Steps.{
  Step, creates, grants, revokes, reads, pushes, ends, aborts, consumes, expires, aborts_call,
  cleans,
}

-- How often the streams of a key were created, and their peer told of an abort.
abbrev pub created_times : Key → List Effect → ℕ
created_times k [] = 0
created_times k (created j ∷ l) = (if key_eq k j then 1 else 0) + created_times k l
created_times k (pulled j n ∷ l) = created_times k l
created_times k (wrote j b ∷ l) = created_times k l
created_times k (ended j ∷ l) = created_times k l
created_times k (destroyed j r ∷ l) = created_times k l
created_times k (told_peer j r ∷ l) = created_times k l

abbrev pub told_times : Key → List Effect → ℕ
told_times k [] = 0
told_times k (told_peer j r ∷ l) = (if key_eq k j then 1 else 0) + told_times k l
told_times k (created j ∷ l) = told_times k l
told_times k (pulled j n ∷ l) = told_times k l
told_times k (wrote j b ∷ l) = told_times k l
told_times k (ended j ∷ l) = told_times k l
told_times k (destroyed j r ∷ l) = told_times k l

-- The bytes of the pulls that were sent for a key's streams, and those that reached them.
abbrev pub pulled_bytes : Key → List Effect → ℕ
pulled_bytes k [] = 0
pulled_bytes k (pulled j n ∷ l) = (if key_eq k j then n else 0) + pulled_bytes k l
pulled_bytes k (created j ∷ l) = pulled_bytes k l
pulled_bytes k (wrote j b ∷ l) = pulled_bytes k l
pulled_bytes k (ended j ∷ l) = pulled_bytes k l
pulled_bytes k (destroyed j r ∷ l) = pulled_bytes k l
pulled_bytes k (told_peer j r ∷ l) = pulled_bytes k l

abbrev pub wrote_bytes : Key → List Effect → ℕ
wrote_bytes k [] = 0
wrote_bytes k (wrote j b ∷ l) = (if key_eq k j then length b else 0) + wrote_bytes k l
wrote_bytes k (created j ∷ l) = wrote_bytes k l
wrote_bytes k (pulled j n ∷ l) = wrote_bytes k l
wrote_bytes k (ended j ∷ l) = wrote_bytes k l
wrote_bytes k (destroyed j r ∷ l) = wrote_bytes k l
wrote_bytes k (told_peer j r ∷ l) = wrote_bytes k l

abbrev pub credit_of : Option ClientState → ℕ
credit_of none = 0
credit_of (some st) = st.granted

abbrev pub lives : Option ClientState → ℕ
lives none = 0
lives (some st) = 1

pub record IsAccounted (m : Uploads) : Type 0 where
  pub flow : (k : Key) → wrote_bytes k m.log + credit_of (m.streams k) ≤ pulled_bytes k m.log
  pub notices : (k : Key) → told_times k m.log + lives (m.streams k) ≤ created_times k m.log

create-IsAccounted :
    (c call i : ℕ) (m : Uploads) → IsAccounted m → IsAccounted (create_client_stream c call i m)
unfolding create_client_stream
create-IsAccounted c call i m v = record {
  flow = λ k. ground (arith, v.flow k);
  notices = λ k. ground (arith, v.notices k);
}

-- A grant whose pull is sent.
sent-IsAccounted :
    (k : Key) (size : ℕ) (o : Option ClientState) (m : Uploads)
    → m.streams k ≡ o
    → IsAccounted m
    → IsAccounted (record (granting k size o m) { log = pulled k size ∷ (granting k size o m).log })
unfolding granting
sent-IsAccounted k size none m e v = record {
  flow = λ j. ground (arith, v.flow j, key_eq→eq j k);
  notices = λ j. ground (arith, v.notices j, key_eq→eq j k);
}
sent-IsAccounted k size (some st) m e v = record {
  flow = λ j. ground (arith, v.flow j, key_eq→eq j k);
  notices = λ j. ground (arith, v.notices j, key_eq→eq j k);
}

-- A grant that is rolled back leaves no credit behind.
rolled_back-IsAccounted :
    (k : Key) (size : ℕ) (o : Option ClientState) (m : Uploads)
    → m.streams k ≡ o
    → IsAccounted m
    → IsAccounted (revoking k size ((granting k size o m).streams k) (granting k size o m))
unfolding granting revoking
rolled_back-IsAccounted k size none m e v = rw e v
rolled_back-IsAccounted k size (some st) m e v = rw (key_eq_refl k) (record {
  flow = λ j. ground (arith, v.flow j, key_eq→eq j k);
  notices = λ j. ground (arith, v.notices j, key_eq→eq j k);
})

pushing-IsAccounted :
    (k : Key) (chunk : Bytes) (o : Option ClientState) (m : Uploads)
    → m.streams k ≡ o
    → IsAccounted m
    → IsAccounted (pushing k chunk o m).0
unfolding pushing
pushing-IsAccounted k chunk none m e v = v
pushing-IsAccounted k chunk (some st) m e v =
    if_intro (λ (r : Uploads × Bool). IsAccounted r.0)
      (length chunk == 0 || ltb st.granted (length chunk)) _ _ (λ _. v)
      (λ fits. record {
        flow = λ j. ground (arith, v.flow j, key_eq→eq j k);
        notices = λ j. ground (arith, v.notices j, key_eq→eq j k);
      })

ending-IsAccounted :
    (c i : ℕ) (o : Option ClientState) (m : Uploads)
    → m.streams (c, i) ≡ o
    → IsAccounted m
    → IsAccounted (ending c i o m)
unfolding ending
ending-IsAccounted c i none m e v = v
ending-IsAccounted c i (some st) m e v =
    rw (e, removing)
      (record {
        flow = λ j. ground (arith, v.flow j, key_eq→eq j (c, i));
        notices = λ j. ground (arith, v.notices j, key_eq→eq j (c, i));
      })

aborting-IsAccounted :
    (c i : ℕ) (reason : Text) (tell : Bool) (o : Option ClientState) (m : Uploads)
    → m.streams (c, i) ≡ o
    → IsAccounted m
    → IsAccounted (aborting c i reason tell o m)
unfolding aborting
aborting-IsAccounted c i reason tell none m e v = v
aborting-IsAccounted c i reason tell (some st) m e v = rw (key_eq_refl (c, i)) (record {
  flow = λ j. ground (arith, v.flow j, key_eq→eq j (c, i));
  notices = λ j. ground (arith, v.notices j, key_eq→eq j (c, i));
})

abort-IsAccounted :
    (c i : ℕ) (reason : Text) (tell : Bool) (m : Uploads)
    → IsAccounted m
    → IsAccounted (abort_client_stream c i reason tell m)
unfolding abort_client_stream
abort-IsAccounted c i reason tell m v =
    aborting-IsAccounted c i reason tell (m.streams (c, i)) m refl v

consume-IsAccounted :
    (c call i : ℕ) (m : Uploads) → IsAccounted m → IsAccounted (consume_client_stream c call i m)
unfolding consume_client_stream
consume-IsAccounted c call i m v = record { flow = v.flow; notices = v.notices }

expiring-IsAccounted :
    (c i : ℕ) (o : Option ClientState) (m : Uploads)
    → IsAccounted m
    → IsAccounted (expiring c i o m)
unfolding expiring
expiring-IsAccounted c i none m v = v
expiring-IsAccounted c i (some st) m v =
    if_intro IsAccounted st.timer (abort_client_stream c i idle_timeout_reason true m) m
      (λ _. abort-IsAccounted c i idle_timeout_reason true m v) (λ _. v)

send_pull-IsAccounted :
    (c i size : ℕ) (dropped : Bool) (m : Uploads)
    → IsAccounted m
    → IsAccounted (send_pull c i size dropped m)
unfolding send_pull grant_client_stream revoke_client_stream_grant
send_pull-IsAccounted c i size dropped m v =
    if_intro IsAccounted dropped _ _
      (λ _. rolled_back-IsAccounted (c, i) (pull_size size) (m.streams (c, i)) m refl v)
      (λ _. sent-IsAccounted (c, i) (pull_size size) (m.streams (c, i)) m refl v)

read-IsAccounted :
    (c i size : ℕ) (dropped : Bool) (m : Uploads)
    → IsAccounted m
    → IsAccounted (read_client_stream c i size dropped m)
unfolding read_client_stream
read-IsAccounted c i size dropped m v =
    let sent : IsAccounted (send_pull c i size dropped m) =
      send_pull-IsAccounted c i size dropped m v in
    if_intro IsAccounted dropped _ _
      (λ _. abort-IsAccounted c i drop_reason true (send_pull c i size dropped m) sent) (λ _. sent)

abort_all-IsAccounted :
    (c : ℕ) (l : List ℕ) (reason : Text) (tell : Bool) (m : Uploads)
    → IsAccounted m
    → IsAccounted (abort_all c l reason tell m)
unfolding abort_all
abort_all-IsAccounted c [] reason tell m v = v
abort_all-IsAccounted c (i ∷ l) reason tell m v =
    abort_all-IsAccounted c l reason tell (abort_client_stream c i reason tell m)
      (abort-IsAccounted c i reason tell m v)

-- A grant or a rollback on its own. The session calls neither of them but in a read.
abbrev pub is_partial : {m n : Uploads} → Step m n → Bool
is_partial (grants c i size) = true
is_partial (revokes c i size) = true
is_partial other = false

-- What a session does to the uploads: also the part of a read before the abort.
pub data SessionStep (m : Uploads) : Uploads → Type 0 where
  sends_pull : (c i size : ℕ) (dropped : Bool) → SessionStep m (send_pull c i size dropped m)
  whole : {n : Uploads} → (s : Step m n) → is_partial s ≡ false → SessionStep m n

pub data SessionReach : Uploads → Type 0 where
  empty : SessionReach no_uploads
  after : {m n : Uploads} → SessionReach m → SessionStep m n → SessionReach n

Step-IsAccounted :
    {m n : Uploads} (s : Step m n) → is_partial s ≡ false → IsAccounted m → IsAccounted n
unfolding push_to_client_stream end_client_stream idle_expired abort_client_call_streams
    cleanup_connection
Step-IsAccounted {m} (creates c call i free) w v = create-IsAccounted c call i m v
Step-IsAccounted {m} (grants c i size) w v = absurd (ground (arith, w))
Step-IsAccounted {m} (revokes c i size) w v = absurd (ground (arith, w))
Step-IsAccounted {m} (reads c i size dropped) w v = read-IsAccounted c i size dropped m v
Step-IsAccounted {m} (pushes c i chunk) w v =
    pushing-IsAccounted (c, i) chunk (m.streams (c, i)) m refl v
Step-IsAccounted {m} (ends c i) w v = ending-IsAccounted c i (m.streams (c, i)) m refl v
Step-IsAccounted {m} (aborts c i reason tell) w v = abort-IsAccounted c i reason tell m v
Step-IsAccounted {m} (consumes c call i) w v = consume-IsAccounted c call i m v
Step-IsAccounted {m} (expires c i) w v = expiring-IsAccounted c i (m.streams (c, i)) m v
Step-IsAccounted {m} (aborts_call c call reason) w v =
    abort_all-IsAccounted c (get_client_call_stream_ids c call m) reason true m v
Step-IsAccounted {m} (cleans c) w v =
    abort_all-IsAccounted c (ids (m.connections (of_connection c))) closed_reason false m v

SessionStep-IsAccounted : {m n : Uploads} → SessionStep m n → IsAccounted m → IsAccounted n
SessionStep-IsAccounted {m} (sends_pull c i size dropped) v =
    send_pull-IsAccounted c i size dropped m v
SessionStep-IsAccounted (whole s w) v = Step-IsAccounted s w v

-- After whatever a session does to an empty manager, in which no stream is created under an id in
-- use, for every key: the bytes written to its streams and the credit it still has are together at
-- most the bytes of the pulls that were sent to the peer, where a pull that the transport dropped
-- counts for nothing, also before its stream is aborted; and the peer was told of at most one abort
-- for each of its streams, and of none for a live one.
pub Reach-IsAccounted : {m : Uploads} → SessionReach m → IsAccounted m
Reach-IsAccounted empty = record { flow = λ k. omega arith; notices = λ k. omega arith }
Reach-IsAccounted (after r s) = SessionStep-IsAccounted s (Reach-IsAccounted r)
