-- ===== src/Streaming/Downloads/Silent.antt =====
-- An abort that the peer asked for is not echoed.
use neemata.Common.{
  ℕ, ◌≡◌, refl, ap, ◌∙◌, Bool, true, false, Option, none, some, List, [], ◌∷◌, drop, length,
  drop-append_length,
}
use neemata.Wire.Bytes.{Bytes}
use neemata.Wire.Utf8.{Text}
use neemata.Streaming.Pump.{Frame, error, Pump, destroy}
use neemata.Streaming.Pump.Extends.{sent-destroy}
use neemata.Streaming.Index.{key_eq_refl, put}
use neemata.Streaming.Downloads.{
  ServerState, Downloads, no_downloads, removing, remove_server_stream, on_frame, on_frames,
  updating, aborting, abort_server_stream,
}
use neemata.Streaming.Downloads.Kept.{IsLive}
use neemata.Streaming.Downloads.Steps.{Reach, Downloads-Reach-Inv}

removing-log : (c i : ℕ) (o : Option ServerState) (m : Downloads) → (removing c i o m).log ≡ m.log
unfolding removing
removing-log c i none m = refl
removing-log c i (some st) m = refl

silent-error :
    (c i : ℕ) (reason : Text) (st : ServerState) (m : Downloads)
    → st.suppress_notify ≡ true
    → m.streams (c, i) ≡ some st
    → (on_frames c i (error reason ∷ []) m).log ≡ m.log
unfolding on_frames on_frame remove_server_stream
silent-error c i reason st m quiet e = rw (e, quiet) (removing-log c i (some st) m)

module _ (drops : List Frame → Bytes → Bool) where
  aborting-log :
      (c i : ℕ) (reason : Text) (o : Option ServerState) (m : Downloads)
      → IsLive false o
      → (aborting drops c i reason false o m).log ≡ m.log
  unfolding aborting updating remove_server_stream
  aborting-log c i reason none m v = refl
  aborting-log c i reason (some st) m v =
      let after : Pump = destroy drops (some reason) st.stream in
      let st_after : ServerState = record st { suppress_notify = true; stream = after } in
      let t : Downloads = record m { streams = put (c, i) (some st_after) m.streams } in
      let frames : drop (length st.stream.sent) after.sent ≡ error reason ∷ [] =
        ap (drop (length st.stream.sent)) (sent-destroy drops reason st.stream v.1)
        ∙ drop-append_length st.stream.sent (error reason ∷ []) in
      let there : t.streams (c, i) ≡ some st_after = rw (key_eq_refl (c, i)) refl in
      removing-log c i _ _
      ∙ ap (λ fs. (on_frames c i fs t).log) frames
      ∙ silent-error c i reason st_after t refl there

  -- An abort that the peer is not to be told of sends it nothing, in any state that operations on an
  -- empty manager lead to.
  pub abort-silent :
      (c i : ℕ) (reason : Text) (m : Downloads)
      → Reach drops no_downloads m
      → (abort_server_stream drops c i reason false m).log ≡ m.log
  unfolding abort_server_stream
  abort-silent c i reason m r =
      aborting-log c i reason (m.streams (c, i)) m ((Downloads-Reach-Inv drops r).live (c, i))
