-- ===== src/Grpc/Client/Balance/Conservation.antt =====
-- No payload byte that the client reads from its file is lost track of.
use grpccapnp.Base.{
  ℕ, zero, suc, ◌+◌, ◌^◌, ◌≤◌, ◌<◌, ◌≡◌, refl, ap, ◌∙◌, List, [], ◌∷◌, ◌++◌, arith, Bytes, length,
  inr, String, length-append,
}
use grpccapnp.Common.ChunkReader.{ChunkReader}
use grpccapnp.Grpc.Client.Mismatches.{mismatches}
use grpccapnp.Grpc.Client.{
  Message, System, World, Action, writer_moves, reader_moves, server_moves, stream_breaks, act, run,
  start,
}
use grpccapnp.Grpc.Client.Agreement.{after, chunk_of, Agrees}
use grpccapnp.Common.Stream.{File, IsSound}
use grpccapnp.Common.ChunkReader.Reading.{Delivered, next_chunk-Advanced}
use grpccapnp.Common.ChunkReader.WholeFile.{fresh, fresh-Delivered}
use grpccapnp.Common.Metrics.{MetricsAggregator}
use grpccapnp.Grpc.Client.Agreement.Honesty.{act-Agrees}
use grpccapnp.Grpc.Client.Balance.{total, Balance, IsBalanced}
use grpccapnp.Grpc.Client.Balance.Writing.{writer_step-IsBalanced}
use grpccapnp.Grpc.Client.Balance.Reading.{reader_step-IsBalanced, server_step-IsBalanced}

pub act-IsBalanced :
    (r : ChunkReader) (bad n : ℕ) (world : World) (a : Action) (s : System)
    → suc n < 2 ^ 64
    → total r s.client_chunk_id_counter < 2 ^ 64
    → Agrees r bad n s
    → IsBalanced r s
    → IsBalanced r (act world a s)
unfolding act
act-IsBalanced r bad n world writer_moves s small fits a h =
    writer_step-IsBalanced r bad n small world.byte_size s.writer s refl a.writer a.counted h.keys
      h.balance
act-IsBalanced r bad n world reader_moves s small fits a h =
    reader_step-IsBalanced r world s.reader s refl fits a.reader h.keys h.balance
act-IsBalanced r bad n world server_moves s small fits a h = server_step-IsBalanced r s.server s h
act-IsBalanced r bad n world stream_breaks s small fits a h = record {
  keys = h.keys;
  balance = h.balance;
}

run-IsBalanced :
    (r : ChunkReader) (bad n : ℕ) (world : World) (actions : List Action) (s : System)
    → ((k : ℕ) → total r k < 2 ^ 64)
    → n + length actions < 2 ^ 64
    → Agrees r bad n s
    → IsBalanced r s
    → IsBalanced r (run world actions s)
unfolding run
run-IsBalanced r bad n world [] s fits small a h = h
run-IsBalanced r bad n world (x ∷ actions) s fits small a h =
    run-IsBalanced r bad (suc n) world actions (act world x s) fits (omega arith)
      (act-Agrees r bad n world x s (omega arith) a)
      (act-IsBalanced r bad n world x s (omega arith) (fits s.client_chunk_id_counter) a h)

-- The bytes of the chunks that were read, for a reader of a file that reads to its end.
pub after-Delivered :
    (r : ChunkReader) (k : ℕ)
    → Delivered [] r
    → (seen : Bytes) × Delivered seen (after r k)
      × (length seen ≡ total r k)
      × ((after r k).file_stream.content ≡ r.file_stream.content)
after-Delivered r zero d = ([], d, refl, refl)
after-Delivered r (suc k) d =
    let (seen, ih, sum, content) = after-Delivered r k d in
    let a = next_chunk-Advanced seen (after r k) ih in
    (
      seen ++ chunk_of r (suc k),
      a.delivered,
      omega (arith, sum, length-append seen (chunk_of r (suc k))),
      a.same_content ∙ content,
    )

pub total-le : (r : ChunkReader) (k : ℕ) → Delivered [] r → total r k ≤ length r.file_stream.content
total-le r k d =
    let (seen, ih, sum, content) = after-Delivered r k d in
    omega (
      arith,
      sum,
      ap length ih.split,
      ap length content,
      length-append seen (after r k).file_stream.rest,
    )

-- For a file of fewer than 2 ^ 64 bytes that reads to its end, read in chunks of more than 0 bytes,
-- under every schedule of fewer than 2 ^ 64 steps and every break of the stream: unless the writer
-- has given up on the stream, the payload bytes that were verified, those of the requests in the map
-- and those in the hands of the two threads add up exactly to the bytes of the chunks that were
-- read, which are no more than the file's.
pub bytes_conserved :
    (world : World) (actions : List Action) (name : String) (n : ℕ) (f : File)
    (metrics : MetricsAggregator Message)
    → IsSound f
    → 0 < n
    → length f.bytes < 2 ^ 64
    → length actions < 2 ^ 64
    → let r = fresh name n f in
      let s = run world actions (start r metrics) in
      Balance r s s.writer s.reader × (total r s.client_chunk_id_counter ≤ length f.bytes)
bytes_conserved world actions name n f metrics sound chunked fits small =
    let r = fresh name n f in
    let d = fresh-Delivered name n f sound chunked in
    let started : Agrees r (mismatches metrics.errors) 0 (start r metrics) = record {
      counted = omega arith;
      writer = refl;
      reader = tt;
      requests = tt;
      responses = tt;
      entries = tt;
      logged = refl;
    } in
    let h =
      run-IsBalanced r (mismatches metrics.errors) 0 world actions (start r metrics)
        (λ k. omega (arith, total-le r k d)) (omega arith) started
        (record { keys = tt; balance = inr refl }) in
    (h.balance, total-le r _ d)
