-- ===== src/Grpc/Client/Clean/Verified.antt =====
-- A run that returns and has logged nothing.
use grpccapnp.Base.{◌≡◌, refl, ap, subst, List, [], ◌∷◌, arith, length, inl}
use grpccapnp.Common.ChunkReader.{ChunkReader}
use grpccapnp.Grpc.Client.{
  Message, returned, System, World, Action, writer_moves, reader_moves, server_moves, stream_breaks,
  act, run, start,
}
use grpccapnp.Common.Metrics.{MetricsAggregator}
use grpccapnp.Grpc.Client.Clean.Invariant.{Joined, IsClean, same-Joined, writer_step-IsClean}
use grpccapnp.Grpc.Client.Clean.Reading.{reader_step-IsClean, server_step-IsClean}

pub act-IsClean :
    (world : World) (a : Action) (s : System)
    → IsClean world.expected s
    → IsClean world.expected (act world a s)
unfolding act
act-IsClean world writer_moves s h =
    writer_step-IsClean world.expected world.byte_size s.writer s refl h.told h
act-IsClean world reader_moves s h = reader_step-IsClean world s.reader s h.joined h
act-IsClean world server_moves s h = server_step-IsClean world.expected s.server s h
act-IsClean world stream_breaks s h = record {
  gave_up = λ e. inl refl;
  told = h.told;
  joined = same-Joined world.expected s.reader s _ refl refl (λ c. c) h.joined;
}

pub run-IsClean :
    (world : World) (actions : List Action) (s : System)
    → IsClean world.expected s
    → IsClean world.expected (run world actions s)
unfolding run
run-IsClean world [] s h = h
run-IsClean world (a ∷ actions) s h =
    run-IsClean world actions (act world a s) (act-IsClean world a s h)

-- Under every schedule and every break of the stream, whatever the file yields: if `ProcessFile` has
-- returned and no message is logged, then no request is left in the map and the number of verified
-- payload bytes is the expected size of the file.
pub returned_clean :
    (world : World) (actions : List Action) (file : ChunkReader)
    (metrics : MetricsAggregator Message)
    → (run world actions (start file metrics)).reader ≡ returned
    → (run world actions (start file metrics)).metrics.errors ≡ []
    → ((run world actions (start file metrics)).inflight_requests_map ≡ [])
      × ((run world actions (start file metrics)).total_bytes_verified_payload_by_reader
          ≡ world.expected)
returned_clean world actions file metrics over quiet =
    let s = run world actions (start file metrics) in
    let h : IsClean world.expected s =
      run-IsClean world actions (start file metrics)
        (record { gave_up = λ e. absurd (ground (arith, e)); told = tt; joined = tt }) in
    let (_, clean) : Joined world.expected returned s =
      subst (λ v. Joined world.expected v s) over h.joined in
    clean (ap length quiet)
