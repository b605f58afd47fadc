-- ===== src/Streaming/Uploads/Tests.antt =====
-- Uploads at a concrete history.
use neemata.Common.{◌≡◌, refl, true, false, none, [], ◌∷◌, ◌==◌, if◌then◌else◌}
use neemata.Streaming.Uploads.{
  Uploads, no_uploads, create_client_stream, grant_client_stream, push_to_client_stream,
  cleanup_connection, send_pull, pushing, granting, revoking, revoke_client_stream_grant, touch,
}
use neemata.Streaming.Uploads.Invariant.{Inv}
use neemata.Streaming.Uploads.Steps.{
  creates, grants as grants_upload, pushes, Reach, here, next, Reach-Inv, cleanup-streams,
}
use neemata.Streaming.Uploads.Credit.{
  credit_of, IsAccounted, SessionReach, empty, after, sends_pull, whole, Reach-IsAccounted,
}

-- A stream of connection 1 for call 7 that is pulled and pushed, and one of connection 2.
abbrev pulled_uploads : Uploads
pulled_uploads =
    grant_client_stream 1 3 10 (create_client_stream 2 7 3 (create_client_stream 1 7 3 no_uploads))

abbrev busy_uploads : Uploads
busy_uploads = (push_to_client_stream 1 3 (5 ∷ 6 ∷ []) pulled_uploads).0

busy_reached : Reach no_uploads busy_uploads
unfolding create_client_stream
busy_reached =
    next (next (next (next here (creates 1 7 3 refl)) (creates 2 7 3 refl)) (grants_upload 1 3 10))
      (pushes 1 3 (5 ∷ 6 ∷ []))

Reach-Inv_example : Inv busy_uploads
Reach-Inv_example = Reach-Inv busy_reached

-- A pull of ten bytes that is sent, one of twenty that is dropped, and a push of two bytes.
abbrev read_uploads : Uploads
read_uploads =
    (push_to_client_stream 1 3 (5 ∷ 6 ∷ [])
      (send_pull 1 3 20 true (send_pull 1 3 10 false (create_client_stream 1 7 3 no_uploads)))).0

read_reached : SessionReach read_uploads
read_reached =
    after
      (after (after (after empty (whole (creates 1 7 3 refl) refl)) (sends_pull 1 3 10 false))
        (sends_pull 1 3 20 true))
      (whole (pushes 1 3 (5 ∷ 6 ∷ [])) refl)

credit_left : credit_of (read_uploads.streams (1, 3)) ≡ 8
unfolding push_to_client_stream pushing send_pull create_client_stream grant_client_stream granting
    revoke_client_stream_grant revoking touch
credit_left = refl

Reach-IsAccounted_example : IsAccounted read_uploads
Reach-IsAccounted_example = Reach-IsAccounted read_reached

cleanup-streams_example :
    (cleanup_connection 1 busy_uploads).streams (2, 3)
    ≡ (if 2 == 1 then none else busy_uploads.streams (2, 3))
cleanup-streams_example = cleanup-streams busy_uploads 1 2 3 busy_reached
