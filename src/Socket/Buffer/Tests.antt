-- ===== src/Socket/Buffer/Tests.antt =====
-- The write buffer of src/starnet_socket_server.cpp on a run in which `write` cuts and blocks.
use starnet.Common.{◌+◌, ◌≡◌, refl, Bool, true, false, List, [], ◌∷◌, ◌++◌, length}
use starnet.Socket.{WriteResult, takes}
use starnet.Socket.Buffer.{new_buffer}
use starnet.Socket.Buffer.Sent.{
  Sent, bytes_of, of_priority, waiting, BufferOp, send, writeable, run,
}
use starnet.Socket.Buffer.Runs.{run-whole_buffers}

-- A low buffer is cut after one byte, a high one comes before the next low one.
abbrev ops : List BufferOp
ops =
    send true (1 ∷ 2 ∷ [])
    ∷ send true (3 ∷ [])
    ∷ send false (4 ∷ 5 ∷ [])
    ∷ writeable
    ∷ writeable
    ∷ []

abbrev results : List WriteResult
results = takes 0 ∷ takes 8 ∷ takes 0 ∷ takes 8 ∷ takes 8 ∷ []

run_written :
    (run ops new_buffer [] (record { bytes = []; results = results })).2.bytes
    ≡ (1 ∷ 2 ∷ 4 ∷ 5 ∷ 3 ∷ [])
unfolding run
run_written = refl

run-whole_buffers_example :
    let (wb, sents, w) = run ops new_buffer [] (record { bytes = []; results = results }) in
    (order : List Sent) × (w.bytes ++ waiting wb.objs ++ waiting wb.low ≡ bytes_of order)
    × ((p : Bool) → of_priority p order ≡ of_priority p sents)
    × (wb.wb_size ≡ length (waiting wb.objs) + length (waiting wb.low))
run-whole_buffers_example = run-whole_buffers ops results
