-- ===== src/Grpc/Client/Race/Deadlock.antt =====
-- Responses that overtake their requests again and again, until the window is full.
use grpccapnp.Base.{
  ℕ, zero, suc, ◌+◌, ◌≤◌, ◌<◌, ◌≡◌, refl, sym, ap, ◌∙◌, subst, ◌≢◌, ◌⊎◌, inl, inr, String, true,
  false, List, [], ◌∷◌, ◌++◌, none, arith, Byte, Bytes, length, is_empty, ltb, if◌then◌else◌,
}
use grpccapnp.Base.Chunks.{chunks_of, chunks_of-nil}
use grpccapnp.Common.Stream.{File, IsSound}
use grpccapnp.Common.ChunkReader.{ChunkReader, next_chunk}
use grpccapnp.Common.ChunkReader.Reading.{Delivered}
use grpccapnp.Common.ChunkReader.WholeFile.{fresh, fresh-Delivered, next_chunk-Next}
use grpccapnp.Common.Metrics.{MetricsAggregator, log_error, u64}
use grpccapnp.Grpc.Server.{respond}
use grpccapnp.Grpc.Client.Inflight.{InflightMap, find, assign, assign_fresh, find-assign_ne}
use grpccapnp.Grpc.Client.{
  Message, no_such_request, max_inflight_requests, waiting, reading, recording, receiving, matching,
  returned, serving, System, World, Action, writer_moves, reader_moves, server_moves, stream_breaks,
  entry, request_of, writer_step, reader_step, server_step, write_step, take_response, match_found,
  serve, act, run, start,
}
use grpccapnp.Grpc.Client.Fair.{chunks_left}
use grpccapnp.Grpc.Client.Hang.{IsStuck, run-IsStuck, never-returned}
use grpccapnp.Grpc.Client.Lockstep.{read_some}
use grpccapnp.Grpc.Client.Schedule.{run-append}

-- The writer waits for room in a full map, the reader for a response, and the server for a request.
record IsStarved (s : System) : Type 0 where
  waits : s.writer ≡ waiting
  full : max_inflight_requests ≤ length s.inflight_requests_map
  reads : s.reader ≡ receiving
  serves : s.server ≡ serving
  no_requests : s.stream.requests ≡ []
  no_responses : s.stream.responses ≡ []
  not_done : s.stream.writes_done ≡ false
  works : s.stream.broken ≡ false

act-IsStarved :
    (world : World) (a : Action) (s : System)
    → IsStarved s
    → IsStarved (act world a s) ⊎ IsStuck (act world a s)
unfolding act writer_step reader_step server_step take_response serve
act-IsStarved world writer_moves s h = ground arith
act-IsStarved world reader_moves s h = ground arith
act-IsStarved world server_moves s h = ground arith
act-IsStarved world stream_breaks s h = ground arith

run-IsStarved :
    (world : World) (actions : List Action) (s : System)
    → IsStarved s
    → IsStarved (run world actions s) ⊎ IsStuck (run world actions s)
unfolding run
run-IsStarved world [] s h = inl h
run-IsStarved world (a ∷ actions) s h = elim (act-IsStarved world a s h) [
  | inl starved ↦ run-IsStarved world actions (act world a s) starved
  | inr stuck ↦ inr (run-IsStuck world actions (act world a s) stuck)
]

-- The writer sends a chunk, and `overtaking` follows.
abbrev pub races : ℕ → List Action
races zero = []
races (suc k) =
    writer_moves
    ∷ writer_moves
    ∷ writer_moves
    ∷ server_moves
    ∷ reader_moves
    ∷ reader_moves
    ∷ writer_moves
    ∷ races k

-- Between two races.
abbrev raced : ChunkReader → InflightMap → ℕ → ℕ → MetricsAggregator Message → System
raced file m id sent metrics = record {
  writer = waiting;
  reader = receiving;
  server = serving;
  stream = record { requests = []; responses = []; writes_done = false; broken = false };
  file = file;
  inflight_requests_map = m;
  client_chunk_id_counter = id;
  total_chunks_actually_sent_by_writer = sent;
  writer_thread_finished_sending = false;
  writer_stream_broken = false;
  received_responses_count = 0;
  total_bytes_verified_payload_by_reader = 0;
  metrics = metrics;
}

race_round :
    (world : World) (file : ChunkReader) (m : InflightMap) (id sent : ℕ)
    (metrics : MetricsAggregator Message) (rest : List Action)
    → ltb (length m) max_inflight_requests ≡ true
    → is_empty (next_chunk file).1 ≡ false
    → find (u64 (id + 1)) m ≡ none
    → let id' = u64 (id + 1) in
      let info = entry world.byte_size id' (next_chunk file).1 in
      run world
        (writer_moves ∷ writer_moves ∷ writer_moves ∷ server_moves ∷ reader_moves ∷ reader_moves
          ∷ writer_moves ∷ rest)
        (raced file m id sent metrics)
      ≡ run world rest (
          raced
            (next_chunk file).0
            (assign id' info m)
            id'
            (u64 (sent + 1))
            (log_error (no_such_request id' 0 (length m)) metrics))
unfolding run act writer_step reader_step server_step write_step serve take_response match_found
    entry respond
race_round world file m id sent metrics rest room some_left fresh_id =
    let before = raced file m id sent metrics in
    let id' = u64 (id + 1) in
    let info = entry world.byte_size id' (next_chunk file).1 in
    let last_two : List Action = reader_moves ∷ writer_moves ∷ rest in
    let last_six : List Action =
      writer_moves ∷ writer_moves ∷ server_moves ∷ reader_moves ∷ last_two in
    let received : System = record before {
      writer = recording info;
      reader = matching (respond (request_of info));
      file = (next_chunk file).0;
      client_chunk_id_counter = id';
      total_chunks_actually_sent_by_writer = u64 (sent + 1);
    } in
    ap (λ b. run world last_six (if b then record before { writer = reading } else before)) room
    ∙ ap (λ s. run world (writer_moves ∷ server_moves ∷ reader_moves ∷ last_two) s)
        (read_some world.byte_size (record before { writer = reading }) some_left)
    ∙ ap (λ o. run world (writer_moves ∷ rest) (match_found (respond (request_of info)) received o))
        fresh_id

-- With a chunk for each race, and room for each entry, the races fill the map.
races-IsStarved :
    (world : World) (k : ℕ) (seen : Bytes) (file : ChunkReader) (m : InflightMap) (sent : ℕ)
    (metrics : MetricsAggregator Message)
    → Delivered seen file
    → k ≤ chunks_left file
    → length m + k ≡ max_inflight_requests
    → ((id : ℕ) → length m < id → find id m ≡ none)
    → IsStarved (run world (races k) (raced file m (length m) sent metrics))
unfolding run
races-IsStarved world zero seen file m sent metrics d enough filled fresh_ids = record {
  waits = refl;
  full = omega (arith, filled);
  reads = refl;
  serves = refl;
  no_requests = refl;
  no_responses = refl;
  not_done = refl;
  works = refl;
}
races-IsStarved world (suc k) seen file m sent metrics d enough filled fresh_ids =
    elim (next_chunk-Next seen file d) [
      | inl e ↦ absurd (
          omega (
            arith,
            enough,
            ap (λ q. length (chunks_of file.chunk_size q)) e.none_left,
            ap length (chunks_of-nil {A = Byte} file.chunk_size),
          ))
      | inr (b, bs, e, w) ↦
          let id = length m in
          let id' = u64 (id + 1) in
          let info = entry world.byte_size id' (next_chunk file).1 in
          let next_id : id' ≡ suc id = omega (arith, filled) in
          let unknown : find id' m ≡ none = fresh_ids id' (omega (arith, next_id)) in
          let (longer, _) = assign_fresh id' info m unknown in
          let m' = assign id' info m in
          let metrics' = log_error (no_such_request id' 0 id) metrics in
          let file' = (next_chunk file).0 in
          let one_less : chunks_left file ≡ suc (chunks_left file') =
            ap length w.cuts
            ∙ ap (λ q. suc (length (chunks_of q file'.file_stream.rest))) (sym w.same_chunk_size) in
          subst IsStarved
            (sym (
              race_round world file m id sent metrics (races k) (ground (arith, filled))
                (ap is_empty e) unknown))
            (subst
              (λ q. IsStarved (run world (races k) (raced file' m' q (u64 (sent + 1)) metrics')))
              (longer ∙ sym next_id)
              (races-IsStarved world k (seen ++ b ∷ bs) file' m' (u64 (sent + 1)) metrics'
                w.delivered (omega (arith, one_less, enough)) (omega (arith, longer, filled))
                (λ j above.
                  find-assign_ne id' j info m (λ same. omega (arith, same, above, longer, next_id))
                  ∙ fresh_ids j (omega (arith, above, longer)))))
    ]

-- For every file that reads to its end and has at least `MAX_INFLIGHT_REQUESTS` chunks there is a
-- schedule, on a stream that works, behind which `ProcessFile` never returns, whatever the threads do
-- from there and whether the stream breaks or not: as many responses overtake their requests as the
-- map has room for. The reader drops them, the entries stay, and the writer waits for room, the
-- server for a request and the reader for a response.
pub races_starve :
    (world : World) (actions : List Action) (name : String) (n : ℕ) (f : File)
    (metrics : MetricsAggregator Message)
    → IsSound f
    → 0 < n
    → max_inflight_requests ≤ length (chunks_of n f.bytes)
    → (run world (races max_inflight_requests ++ actions) (start (fresh name n f) metrics)).reader
      ≢ returned
unfolding find
races_starve world actions name n f metrics sound p many over =
    let s = start (fresh name n f) metrics in
    let starved : IsStarved (run world (races max_inflight_requests) s) =
      races-IsStarved world max_inflight_requests [] (fresh name n f) [] 0 metrics
        (fresh-Delivered name n f sound p) many refl (λ id above. refl) in
    let at_end =
      ap (λ q. q.reader) (sym (run-append world (races max_inflight_requests) actions s)) ∙ over in
    elim (run-IsStarved world actions (run world (races max_inflight_requests) s) starved) [
      | inl still ↦ never-returned (inl still.reads) at_end
      | inr stuck ↦ never-returned stuck.reads at_end
    ]
