-- ===== src/Grpc/Client/Hang.antt =====
-- A stream that breaks while the window is full.
use grpccapnp.Base.{ℕ, ◌≤◌, ◌≡◌, refl, ◌⊎◌, ◌≢◌, inl, inr, List, [], ◌∷◌, true, arith, length}
use grpccapnp.Grpc.Server.{ChunkRequest, ChunkResponse}
use grpccapnp.Grpc.Client.{
  max_inflight_requests, Writer, waiting, Reader, receiving, joining, returned, Server, serving,
  done, System, World, Action, writer_moves, reader_moves, server_moves, stream_breaks, writer_step,
  take_response, reader_step, serve, server_step, act, run,
}

-- The stream is broken, the writer waits for room in a full map, and the reader is about to see
-- that `Read` fails, or has seen it and joins the writer.
pub record IsStuck (s : System) : Type 0 where
  pub broken : s.stream.broken ≡ true
  pub waits : s.writer ≡ waiting
  pub full : max_inflight_requests ≤ length s.inflight_requests_map
  pub reads : (s.reader ≡ receiving) ⊎ (s.reader ≡ joining)

writer_step-IsStuck :
    (byte_size : List ℕ → ℕ → ℕ) (w : Writer) (s : System)
    → w ≡ waiting
    → IsStuck s
    → IsStuck (writer_step byte_size w s)
unfolding writer_step
writer_step-IsStuck byte_size w s e h = rw e (ground arith)

take_response-IsStuck :
    (rs : List ChunkResponse) (s : System) → IsStuck s → IsStuck (take_response rs s)
unfolding take_response
take_response-IsStuck [] s h = ground arith
take_response-IsStuck (r ∷ rs) s h = ground arith

reader_step-IsStuck :
    (world : World) (r : Reader) (s : System)
    → (r ≡ receiving) ⊎ (r ≡ joining)
    → IsStuck s
    → IsStuck (reader_step world r s)
unfolding reader_step
reader_step-IsStuck world r s (inl e) h = rw e (take_response-IsStuck s.stream.responses s h)
reader_step-IsStuck world r s (inr e) h =
    rw (e, h.waits) (record { broken = h.broken; waits = refl; full = h.full; reads = h.reads })

serve-IsStuck : (rs : List ChunkRequest) (s : System) → IsStuck s → IsStuck (serve rs s)
unfolding serve
serve-IsStuck [] s h = ground arith
serve-IsStuck (r ∷ rs) s h = ground arith

server_step-IsStuck : (v : Server) (s : System) → IsStuck s → IsStuck (server_step v s)
unfolding server_step
server_step-IsStuck serving s h = serve-IsStuck s.stream.requests s h
server_step-IsStuck (done status) s h = h

act-IsStuck : (world : World) (a : Action) (s : System) → IsStuck s → IsStuck (act world a s)
unfolding act
act-IsStuck world writer_moves s h = writer_step-IsStuck world.byte_size s.writer s h.waits h
act-IsStuck world reader_moves s h = reader_step-IsStuck world s.reader s h.reads h
act-IsStuck world server_moves s h = server_step-IsStuck s.server s h
act-IsStuck world stream_breaks s h = record {
  broken = refl;
  waits = h.waits;
  full = h.full;
  reads = h.reads;
}

pub run-IsStuck :
    (world : World) (actions : List Action) (s : System) → IsStuck s → IsStuck (run world actions s)
unfolding run
run-IsStuck world [] s h = h
run-IsStuck world (a ∷ actions) s h =
    run-IsStuck world actions (act world a s) (act-IsStuck world a s h)

pub never-returned : {r : Reader} → (r ≡ receiving) ⊎ (r ≡ joining) → r ≢ returned
never-returned (inl e) e' = cc
never-returned (inr e) e' = cc

-- If the stream breaks (the deadline passes, the server dies) while the writer waits with the map
-- full and the reader is in `Read`, then under no schedule does `ProcessFile` return: the reader's
-- loop ends, nothing empties the map any more, and the join waits for a writer that waits for room.
pub break_while_full :
    (world : World) (s : System) (actions : List Action)
    → s.writer ≡ waiting
    → max_inflight_requests ≤ length s.inflight_requests_map
    → s.reader ≡ receiving
    → (run world (stream_breaks ∷ actions) s).reader ≢ returned
unfolding run act
break_while_full world s actions w full r e =
    let broken : System = record s { stream = record s.stream { broken = true } } in
    let stuck =
      run-IsStuck world actions broken
        (record { broken = refl; waits = w; full = full; reads = inl r }) in
    never-returned stuck.reads e
