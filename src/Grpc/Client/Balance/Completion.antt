-- ===== src/Grpc/Client/Balance/Completion.antt =====
-- A writer that has ended well has read the whole file.
use grpccapnp.Base.{
  ℕ, suc, ◌+◌, ◌^◌, ◌<◌, ◌≡◌, refl, sym, ap, ◌∙◌, subst, Bool, true, false, List, [], ◌∷◌, arith,
  Bytes, length, is_empty, not, ◌&&◌, ltb, Bool-cases, inl, inr, if◌then◌else◌, ◌⊎◌, String,
  length-append,
}
use grpccapnp.Common.ChunkReader.{ChunkReader, next_chunk, eof}
use grpccapnp.Grpc.Client.Mismatches.{mismatches}
use grpccapnp.Grpc.Client.{
  Message, max_inflight_requests, Writer, waiting, reading, writing, recording, leaving, closing,
  ended, System, World, Action, writer_moves, reader_moves, server_moves, stream_breaks,
  reader_step, act, run, start, read_step, write_step, close_step, writer_step, server_step,
}
use grpccapnp.Grpc.Client.Agreement.{after, WriterAgrees, Agrees}
use grpccapnp.Grpc.Client.Inflight.{payload}
use grpccapnp.Common.Stream.{File, IsSound}
use grpccapnp.Common.ChunkReader.Reading.{Delivered}
use grpccapnp.Common.ChunkReader.WholeFile.{fresh, fresh-Delivered, next_chunk-Next}
use grpccapnp.Common.Metrics.{MetricsAggregator}
use grpccapnp.Grpc.Client.Agreement.Writing.{close_cases}
use grpccapnp.Grpc.Client.Agreement.Honesty.{act-Agrees}
use grpccapnp.Grpc.Client.Balance.{held_by_reader, Balance}
use grpccapnp.Grpc.Client.Balance.Conservation.{after-Delivered, bytes_conserved}
use grpccapnp.Grpc.Client.Balance.Frame.{Keeps, reader_step-Keeps, server_step-Keeps}

-- Behind its loop, the writer has given up or has read all bytes.
abbrev pub Drained : ChunkReader → Writer → ℕ → Bool → Type 0
Drained r leaving k gave_up = (gave_up ≡ true) ⊎ ((after r k).file_stream.rest ≡ [])
Drained r closing k gave_up = (gave_up ≡ true) ⊎ ((after r k).file_stream.rest ≡ [])
Drained r ended k gave_up = (gave_up ≡ true) ⊎ ((after r k).file_stream.rest ≡ [])
Drained r _ k gave_up = Unit {0}

abbrev pub IsDrained : ChunkReader → System → Type 0
IsDrained r s = Drained r s.writer s.client_chunk_id_counter s.writer_stream_broken

-- An empty chunk comes only when nothing is left.
empty_at_end :
    (r : ChunkReader) (k : ℕ)
    → Delivered [] r
    → is_empty (next_chunk (after r k)).1 ≡ true
    → (after r k).file_stream.rest ≡ []
empty_at_end r k d e =
    let (seen, ih, _, _) = after-Delivered r k d in
    elim (next_chunk-Next seen (after r k) ih) [
      | inl at_end ↦ at_end.none_left
      | inr (b, bs, chunk, _) ↦ absurd (ground (arith, chunk, e))
    ]

read_step-IsDrained :
    (r : ChunkReader) (byte_size : Bytes → ℕ → ℕ) (s : System)
    → Delivered [] r
    → s.file ≡ after r s.client_chunk_id_counter
    → IsDrained r (read_step byte_size s)
unfolding read_step
read_step-IsDrained r byte_size s d at_file =
    let file = (next_chunk s.file).0 in
    let chunk = (next_chunk s.file).1 in
    elim (Bool-cases (is_empty chunk && eof file)) [
      | inl at_end ↦
          let empty : is_empty chunk ≡ true = ground (arith, at_end) in
          simp (at_end, if◌then◌else◌)
            (inr (
              empty_at_end r s.client_chunk_id_counter d
                (ap (λ f. is_empty (next_chunk f).1) (sym at_file) ∙ empty)))
      | inr more ↦ elim (Bool-cases (is_empty chunk && not (eof file))) [
        | inl fails ↦ simp (more, fails, if◌then◌else◌) (inl refl)
        | inr goes ↦ simp (more, goes, if◌then◌else◌) tt
      ]
    ]

writer_step-IsDrained :
    (r : ChunkReader) (byte_size : Bytes → ℕ → ℕ) (w : Writer) (s : System)
    → Delivered [] r
    → s.writer ≡ w
    → WriterAgrees r s.client_chunk_id_counter s.file w
    → Drained r w s.client_chunk_id_counter s.writer_stream_broken
    → IsDrained r (writer_step byte_size w s)
unfolding writer_step write_step close_step
writer_step-IsDrained r byte_size waiting s d is agrees h =
    elim (Bool-cases (ltb (length s.inflight_requests_map) max_inflight_requests)) [
      | inl room ↦ rw (room, if◌then◌else◌) tt
      | inr full ↦ simp (full, is, if◌then◌else◌) tt
    ]
writer_step-IsDrained r byte_size reading s d is agrees h =
    read_step-IsDrained r byte_size s d agrees
writer_step-IsDrained r byte_size (writing info) s d is agrees h =
    elim (Bool-cases s.stream.broken) [
      | inl broken ↦ simp (broken, if◌then◌else◌) (inl refl)
      | inr works ↦ simp (works, if◌then◌else◌) tt
    ]
writer_step-IsDrained r byte_size (recording info) s d is agrees h = tt
writer_step-IsDrained r byte_size leaving s d is agrees h = h
writer_step-IsDrained r byte_size closing s d is agrees h = elim (close_cases s) [
  | inl e ↦ subst (IsDrained r) (sym e) h
  | inr e ↦ subst (IsDrained r) (sym e) h
]
writer_step-IsDrained r byte_size ended s d is agrees h =
    subst (λ w. Drained r w s.client_chunk_id_counter s.writer_stream_broken) (sym is) h

IsDrained-Keeps : (r : ChunkReader) (s t : System) → Keeps s t → IsDrained r s → IsDrained r t
IsDrained-Keeps r s t (w, k, b) h = rw (w, k, b) h

act-IsDrained :
    (r : ChunkReader) (bad n : ℕ) (world : World) (a : Action) (s : System)
    → Delivered [] r
    → Agrees r bad n s
    → IsDrained r s
    → IsDrained r (act world a s)
unfolding act
act-IsDrained r bad n world writer_moves s d a h =
    writer_step-IsDrained r world.byte_size s.writer s d refl a.writer h
act-IsDrained r bad n world reader_moves s d a h =
    IsDrained-Keeps r s (reader_step world s.reader s) (reader_step-Keeps world s.reader s) h
act-IsDrained r bad n world server_moves s d a h =
    IsDrained-Keeps r s (server_step s.server s) (server_step-Keeps s.server s) h
act-IsDrained r bad n world stream_breaks s d a h = h

run-IsDrained :
    (r : ChunkReader) (bad n : ℕ) (world : World) (actions : List Action) (s : System)
    → Delivered [] r
    → n + length actions < 2 ^ 64
    → Agrees r bad n s
    → IsDrained r s
    → IsDrained r (run world actions s)
unfolding run
run-IsDrained r bad n world [] s d small a h = h
run-IsDrained r bad n world (x ∷ actions) s d small a h =
    run-IsDrained r bad (suc n) world actions (act world x s) d (omega arith)
      (act-Agrees r bad n world x s (omega arith) a) (act-IsDrained r bad n world x s d a h)

-- For a file of fewer than 2 ^ 64 bytes that reads to its end, read in chunks of more than 0 bytes,
-- under every schedule of fewer than 2 ^ 64 steps: once the writer has ended without giving up on the
-- stream, the payload bytes verified, those of the requests left in the map, and those in the hands of
-- the reader make up the whole file. So with an empty map and nothing being verified, each byte of
-- the file has been verified.
pub file_accounted :
    (world : World) (actions : List Action) (name : String) (n : ℕ) (f : File)
    (metrics : MetricsAggregator Message)
    → IsSound f
    → 0 < n
    → length f.bytes < 2 ^ 64
    → length actions < 2 ^ 64
    → (run world actions (start (fresh name n f) metrics)).writer ≡ ended
    → (run world actions (start (fresh name n f) metrics)).writer_stream_broken ≡ false
    → let s = run world actions (start (fresh name n f) metrics) in
      s.total_bytes_verified_payload_by_reader
        + payload s.inflight_requests_map
        + held_by_reader s.reader
      ≡ length f.bytes
file_accounted world actions name n f metrics sound chunked fits small is kept =
    let r = fresh name n f in
    let s = run world actions (start r metrics) in
    let d = fresh-Delivered name n f sound chunked in
    let started : Agrees r (mismatches metrics.errors) 0 (start r metrics) = record {
      counted = omega arith;
      writer = refl;
      reader = tt;
      requests = tt;
      responses = tt;
      entries = tt;
      logged = refl;
    } in
    let drained : Drained r ended s.client_chunk_id_counter s.writer_stream_broken =
      subst (λ w. Drained r w s.client_chunk_id_counter s.writer_stream_broken) is
        (run-IsDrained r _ 0 world actions (start r metrics) d (omega arith) started tt) in
    let balance : Balance r s ended s.reader =
      subst (λ w. Balance r s w s.reader) is
        (bytes_conserved world actions name n f metrics sound chunked fits small).0 in
    let (seen, delivered, sum, content) = after-Delivered r s.client_chunk_id_counter d in
    elim drained [
      | inl gave_up ↦ absurd (ground (arith, gave_up, kept))
      | inr none_left ↦ elim balance [
        | inl gave_up ↦ absurd (ground (arith, gave_up, kept))
        | inr e ↦ omega (
          arith,
          e,
          sum,
          ap length delivered.split,
          ap length none_left,
          ap length content,
          length-append seen (after r s.client_chunk_id_counter).file_stream.rest,
        )
      ]
    ]
