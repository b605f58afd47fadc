-- ===== src/Streaming/Responses/Tests.antt =====
-- A streaming response with two chunks, and one whose chunk is dropped.
use neemata.Common.{◌≡◌, refl, true, false, some, List, [], ◌∷◌, map}
use neemata.Streaming.Downloads.{violation_reason}
use neemata.Streaming.Responses.{
  Frame, stream_response, chunk, stream_end, stream_abort, Response, Event, pulled, enters, granted,
  produced, finished, flow_fails, respond, happen,
}
use neemata.Streaming.Responses.Steps.{Inv}
use neemata.Streaming.Responses.Runs.{answered, next, response-Reach-Inv}

run : List Event → Response → Response
run [] s = s
run (e ∷ es) s = run es (happen 30000 e s)

frames : Response → List Frame
frames s = map (λ x. x.frame) s.sent

-- The client pulls two chunks while the response is sent, and a third for the end.
whole :
    frames (
      run
        (pulled 2
          ∷ enters false
          ∷ produced 7 false false
          ∷ produced 8 false false
          ∷ pulled 1
          ∷ granted false
          ∷ finished false
          ∷ pulled 5
          ∷ [])
        (respond false))
    ≡ stream_end ∷ chunk 8 ∷ chunk 7 ∷ stream_response ∷ []
unfolding run frames respond happen
whole = refl

-- A dropped chunk, and then a dropped abort.
lost :
    (run
      (enters false ∷ pulled 1 ∷ granted false ∷ produced 7 true true ∷ [])
      (respond false)).terminated
    ≡ true
unfolding run respond happen
lost = refl

-- A pull of zero fails the stream.
violated :
    frames (run (enters false ∷ pulled 0 ∷ flow_fails false ∷ []) (respond false))
    ≡ stream_abort (some violation_reason) ∷ stream_response ∷ []
unfolding run frames respond happen
violated = refl

response-Reach-Inv_example : Inv 2 (
    happen 30000
      (produced 7 false false)
      (happen 30000 (enters false) (happen 30000 (pulled 2) (respond false))))
response-Reach-Inv_example =
    response-Reach-Inv
      (next (next (next (answered false) (pulled 2)) (enters false)) (produced 7 false false))
