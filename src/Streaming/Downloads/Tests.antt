-- ===== src/Streaming/Downloads/Tests.antt =====
-- Downloads at a concrete history.
use neemata.Common.{◌≡◌, refl, Bool, false, List, [], ◌∷◌}
use neemata.Wire.Bytes.{Bytes}
use neemata.Streaming.Pump.{Frame, readable}
use neemata.Streaming.Downloads.{
  Downloads, no_downloads, create_server_stream, emitting, pull_server_stream, abort_server_stream,
}
use neemata.Streaming.Downloads.Kept.{Inv, none_finished}
use neemata.Streaming.Downloads.Steps.{
  Reach, here, next, creates, reads, pulls, Downloads-Reach-Inv,
}
use neemata.Streaming.Downloads.Silent.{abort-silent}

-- A transport that drops nothing.
abbrev reliable : List Frame → Bytes → Bool
reliable sent bytes = false

abbrev made : Downloads
made = create_server_stream 1 7 3 no_downloads

abbrev pulled : Downloads
pulled =
    pull_server_stream reliable 1 3 2
      (emitting reliable 1 3 (readable (4 ∷ 5 ∷ 6 ∷ [])) (made.streams (1, 3)) made)

pulled_reached : Reach reliable no_downloads pulled
pulled_reached =
    next (next (next here (creates 1 7 3 refl)) (reads 1 3 (4 ∷ 5 ∷ 6 ∷ []))) (pulls 1 3 2)

Downloads-Reach-Inv_example : Inv none_finished pulled
Downloads-Reach-Inv_example = Downloads-Reach-Inv reliable pulled_reached

abort-silent_example : (abort_server_stream reliable 1 3 (103 ∷ []) false pulled).log ≡ pulled.log
abort-silent_example = abort-silent reliable 1 3 (103 ∷ []) pulled pulled_reached
