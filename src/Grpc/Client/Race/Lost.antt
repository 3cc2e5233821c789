-- ===== src/Grpc/Client/Race/Lost.antt =====
-- The entry of a request whose response has come too early.
use grpccapnp.Base.{
  ℕ, suc, ◌+◌, ◌^◌, ◌≤◌, ◌<◌, ◌≡◌, ◌≢◌, refl, sym, ◌∙◌, subst, Bytes, List, [], ◌∷◌, All, Option,
  none, some, arith, length, Bool-cases, inl, inr, if◌then◌else◌,
}
use grpccapnp.Base.Int.{ℤ}
use grpccapnp.Common.ChunkReader.{ChunkReader}
use grpccapnp.Grpc.Server.{ChunkRequest, ChunkResponse, respond}
use grpccapnp.Grpc.Client.Inflight.{SentChunkInfo, find, find-assign_ne, find-erase_ne}
use grpccapnp.Grpc.Client.Finish.{finish_step-eq}
use grpccapnp.Grpc.Client.{
  Writer, waiting, reading, writing, recording, leaving, closing, ended, Reader, receiving,
  matching, verifying, joining, finishing, returned, Server, serving, done, System, World, Action,
  writer_moves, reader_moves, server_moves, stream_breaks, read_step, write_step, close_step,
  writer_step, take_response, match_found, verify_step, finish_step, reader_step, serve,
  server_step, request_of, act, run,
}
use grpccapnp.Grpc.Client.Agreement.{Agrees, All-snoc}
use grpccapnp.Grpc.Client.Agreement.Honesty.{act-Agrees}

abbrev pub WriterOther : ℕ → Writer → Type 0
WriterOther id (writing info) = info.client_assigned_id ≢ id
WriterOther id (recording info) = info.client_assigned_id ≢ id
WriterOther id _ = Unit {0}

abbrev pub ReaderOther : ℕ → Reader → Type 0
ReaderOther id (matching response) = response.original_client_chunk_id ≢ id
ReaderOther id _ = Unit {0}

-- The entry is in the map, and neither its request nor a response to it is anywhere.
pub record IsLost (id : ℕ) (info : SentChunkInfo) (s : System) : Type 0 where
  pub kept : find id s.inflight_requests_map ≡ some info
  pub counted : id ≤ s.client_chunk_id_counter
  pub writer : WriterOther id s.writer
  pub reader : ReaderOther id s.reader
  pub requests : All (λ q. q.client_assigned_chunk_id ≢ id) s.stream.requests
  pub responses : All (λ r. r.original_client_chunk_id ≢ id) s.stream.responses

module _ (id : ℕ) (info : SentChunkInfo) where
  read_step-IsLost :
      (byte_size : Bytes → ℕ → ℕ) (s : System)
      → s.client_chunk_id_counter + 1 < 2 ^ 64
      → s.writer ≡ reading
      → IsLost id info s
      → IsLost id info (read_step byte_size s)
  unfolding read_step
  read_step-IsLost byte_size s small is h = ground arith

  write_step-IsLost :
      (i : SentChunkInfo) (s : System)
      → i.client_assigned_id ≢ id
      → IsLost id info s
      → IsLost id info (write_step i s)
  unfolding write_step
  write_step-IsLost i s ne h =
      let more =
        All-snoc (λ q. q.client_assigned_chunk_id ≢ id) s.stream.requests (request_of i) h.requests
          ne in
      elim (Bool-cases s.stream.broken) [
        | inl e ↦ rw (e, if◌then◌else◌) (ground arith)
        | inr e ↦
            rw (e, if◌then◌else◌)
              (record {
                kept = h.kept;
                counted = h.counted;
                writer = ne;
                reader = h.reader;
                requests = more;
                responses = h.responses;
              })
      ]

  writer_step-IsLost :
      (byte_size : Bytes → ℕ → ℕ) (w : Writer) (s : System)
      → s.client_chunk_id_counter + 1 < 2 ^ 64
      → s.writer ≡ w
      → WriterOther id w
      → IsLost id info s
      → IsLost id info (writer_step byte_size w s)
  unfolding writer_step close_step
  writer_step-IsLost byte_size waiting s small is ne h = ground arith
  writer_step-IsLost byte_size reading s small is ne h = read_step-IsLost byte_size s small is h
  writer_step-IsLost byte_size (writing i) s small is ne h = write_step-IsLost i s ne h
  writer_step-IsLost byte_size (recording i) s small is ne h = record {
    kept = find-assign_ne i.client_assigned_id id i s.inflight_requests_map ne ∙ h.kept;
    counted = h.counted;
    writer = tt;
    reader = h.reader;
    requests = h.requests;
    responses = h.responses;
  }
  writer_step-IsLost byte_size leaving s small is ne h = ground arith
  writer_step-IsLost byte_size closing s small is ne h = ground arith
  writer_step-IsLost byte_size ended s small is ne h = h

  take_response-IsLost :
      (rs : List ChunkResponse) (s : System)
      → s.reader ≡ receiving
      → s.stream.responses ≡ rs
      → IsLost id info s
      → IsLost id info (take_response rs s)
  unfolding take_response
  take_response-IsLost [] s is e h = ground arith
  take_response-IsLost (r ∷ rs) s is e h =
      let (ne, others) = subst (All (λ q. q.original_client_chunk_id ≢ id)) e h.responses in
      ground (arith, ne, others)

  match_found-IsLost :
      (response : ChunkResponse) (s : System) (o : Option SentChunkInfo)
      → response.original_client_chunk_id ≢ id
      → IsLost id info s
      → IsLost id info (match_found response s o)
  unfolding match_found
  match_found-IsLost response s none ne h = ground arith
  match_found-IsLost response s (some i) ne h =
      ground (arith, find-erase_ne response.original_client_chunk_id id s.inflight_requests_map ne)

  verify_step-IsLost :
      (rtt_us : ℕ → ℤ) (i : SentChunkInfo) (r : ChunkResponse) (s : System)
      → IsLost id info s
      → IsLost id info (verify_step rtt_us i r s)
  unfolding verify_step
  verify_step-IsLost rtt_us i r s h = ground arith

  finish_step-IsLost :
      (expected : ℕ) (duration : ℤ) (s : System)
      → IsLost id info s
      → IsLost id info (finish_step expected duration s)
  finish_step-IsLost expected duration s h =
      let (m, e, _) = finish_step-eq expected duration s in
      subst (IsLost id info) (sym e) (ground arith)

  reader_step-IsLost :
      (world : World) (r : Reader) (s : System)
      → s.reader ≡ r
      → ReaderOther id r
      → IsLost id info s
      → IsLost id info (reader_step world r s)
  unfolding reader_step
  reader_step-IsLost world receiving s is ne h = take_response-IsLost s.stream.responses s is refl h
  reader_step-IsLost world (matching response) s is ne h =
      match_found-IsLost response s (find response.original_client_chunk_id s.inflight_requests_map)
        ne h
  reader_step-IsLost world (verifying i response) s is ne h =
      verify_step-IsLost world.rtt_us i response s h
  reader_step-IsLost world joining s is ne h = ground arith
  reader_step-IsLost world finishing s is ne h =
      finish_step-IsLost world.expected world.duration_ms s h
  reader_step-IsLost world returned s is ne h = h

  serve-IsLost :
      (qs : List ChunkRequest) (s : System)
      → s.stream.requests ≡ qs
      → IsLost id info s
      → IsLost id info (serve qs s)
  unfolding serve respond
  serve-IsLost [] s e h = ground arith
  serve-IsLost (q ∷ qs) s e h =
      let (ne, others) = subst (All (λ q. q.client_assigned_chunk_id ≢ id)) e h.requests in
      let more =
        All-snoc (λ r. r.original_client_chunk_id ≢ id) s.stream.responses (respond q) h.responses
          ne in
      elim (Bool-cases s.stream.broken) [
        | inl f ↦ rw (f, if◌then◌else◌) (ground arith)
        | inr f ↦
            rw (f, if◌then◌else◌)
              (record {
                kept = h.kept;
                counted = h.counted;
                writer = h.writer;
                reader = h.reader;
                requests = others;
                responses = more;
              })
      ]

  server_step-IsLost :
      (v : Server) (s : System) → IsLost id info s → IsLost id info (server_step v s)
  unfolding server_step
  server_step-IsLost serving s h = serve-IsLost s.stream.requests s refl h
  server_step-IsLost (done status) s h = h

  act-IsLost :
      (world : World) (a : Action) (s : System)
      → s.client_chunk_id_counter + 1 < 2 ^ 64
      → IsLost id info s
      → IsLost id info (act world a s)
  unfolding act
  act-IsLost world writer_moves s small h =
      writer_step-IsLost world.byte_size s.writer s small refl h.writer h
  act-IsLost world reader_moves s small h = reader_step-IsLost world s.reader s refl h.reader h
  act-IsLost world server_moves s small h = server_step-IsLost s.server s h
  act-IsLost world stream_breaks s small h = ground arith

  pub run-IsLost :
      (r : ChunkReader) (bad n : ℕ) (world : World) (actions : List Action) (s : System)
      → n + length actions < 2 ^ 64
      → Agrees r bad n s
      → IsLost id info s
      → IsLost id info (run world actions s)
  unfolding run
  run-IsLost r bad n world [] s small a h = h
  run-IsLost r bad n world (x ∷ actions) s small a h =
      run-IsLost r bad (suc n) world actions (act world x s) (omega arith)
        (act-Agrees r bad n world x s (omega arith) a)
        (act-IsLost world x s (omega (arith, a.counted)) h)
