-- ===== src/Streaming/Window/Tests.antt =====
-- A client with a window of two, and one with a window of eight.
use neemata.Common.{◌+◌, ◌≤◌, ◌<◌, ◌≡◌, refl, false, arith}
use neemata.Streaming.Responses.{
  Response, pulled, enters, produced, respond, happen, pull, credited,
}
use neemata.Streaming.Responses.Runs.{Reach, answered, next}
use neemata.Streaming.Window.{
  reading, next_pull, resolve_rpc_stream_window, window_lead, pull-credited,
}

-- Eight at once, and then four at every fourth read.
granted_later : (reading 8 12).1 ≡ 16
unfolding reading
granted_later = refl

window_lead_example : (11 < (reading 8 12).1) × ((reading 8 12).1 ≤ 11 + 8)
window_lead_example = window_lead 8 11 (omega arith)

-- The client has read the first chunk.
abbrev one_read : Response
one_read =
    happen 30000 (produced 7 false false)
      (happen 30000 (enters false) (happen 30000 (pulled 2) (respond false)))

abbrev one_reached : Reach 30000 2 one_read
one_reached = next (next (next (answered false) (pulled 2)) (enters false)) (produced 7 false false)

pull-credited_example : pull 1 one_read ≡ credited 1 one_read
unfolding resolve_rpc_stream_window reading next_pull happen respond
pull-credited_example = pull-credited one_reached 2 2 1 1 refl refl (omega arith) refl refl
