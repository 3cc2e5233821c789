-- ===== src/Grpc/Client/Tally/Completion.antt =====
-- What the reader has dropped by the time that `ProcessFile` returns.
use grpccapnp.Base.{
  ℕ, suc, ◌+◌, ◌^◌, ◌<◌, ◌≡◌, ◌≢◌, refl, sym, ap, ◌∙◌, subst, inl, inr, String, List, [], ◌∷◌, none,
  arith, length,
}
use mathlib.Core.List.{Memᴰ}
use grpccapnp.Common.Stream.{File, IsSound}
use grpccapnp.Common.ChunkReader.{ChunkReader}
use grpccapnp.Common.ChunkReader.WholeFile.{fresh, fresh-Delivered}
use grpccapnp.Common.Metrics.{MetricsAggregator}
use grpccapnp.Grpc.Client.Inflight.{SentChunkInfo, find}
use grpccapnp.Grpc.Client.Mismatches.{mismatches}
use grpccapnp.Grpc.Client.{
  Message, recording, returned, Server, serving, done, System, World, Action, writer_moves,
  reader_moves, server_moves, stream_breaks, act, run, start,
}
use grpccapnp.Grpc.Client.Agreement.{Agrees, WriterAgrees}
use grpccapnp.Grpc.Client.Agreement.Honesty.{act-Agrees}
use grpccapnp.Grpc.Client.Balance.{total, Keys, IsBalanced, find_fresh}
use grpccapnp.Grpc.Client.Balance.Conservation.{act-IsBalanced, total-le}
use grpccapnp.Grpc.Client.Tally.{dropped, in_insertion, Settled, IsDone, Behind, IsTallied}
use grpccapnp.Grpc.Client.Tally.Steps.{
  writer_step-IsTallied, reader_step-IsTallied, server_step-IsTallied,
}

-- The request that the writer is about to enter has no entry.
pub entered_fresh :
    (r : ChunkReader) (bad n : ℕ) (s : System) (info : SentChunkInfo)
    → Agrees r bad n s
    → IsBalanced r s
    → s.writer ≡ recording info
    → find info.client_assigned_id s.inflight_requests_map ≡ none
entered_fresh r bad n s info a b is =
    let (_, (id, _, _)) : WriterAgrees r s.client_chunk_id_counter s.file (recording info) =
      subst (WriterAgrees r s.client_chunk_id_counter s.file) is a.writer in
    let keys : Keys (recording info) s.client_chunk_id_counter s.inflight_requests_map =
      subst (λ w. Keys w s.client_chunk_id_counter s.inflight_requests_map) is b.keys in
    ap (λ k. find k s.inflight_requests_map) id
    ∙ find_fresh s.client_chunk_id_counter s.inflight_requests_map keys

act-IsTallied :
    (base : ℕ) (world : World) (a : Action) (s : System)
    → a ≢ stream_breaks
    → ((info : SentChunkInfo)
        → s.writer ≡ recording info
        → find info.client_assigned_id s.inflight_requests_map ≡ none)
    → IsTallied base s
    → IsTallied base (act world a s)
unfolding act
act-IsTallied base world writer_moves s still f h =
    writer_step-IsTallied base world.byte_size s.writer s refl f h
act-IsTallied base world reader_moves s still f h =
    reader_step-IsTallied base world s.reader s refl h
act-IsTallied base world server_moves s still f h = server_step-IsTallied base s.server s refl h
act-IsTallied base world stream_breaks s still f h = absurd (still refl)

run-IsTallied :
    (base : ℕ) (r : ChunkReader) (bad n : ℕ) (world : World) (actions : List Action) (s : System)
    → ((k : ℕ) → total r k < 2 ^ 64)
    → n + length actions < 2 ^ 64
    → ¬ Memᴰ stream_breaks actions
    → Agrees r bad n s
    → IsBalanced r s
    → IsTallied base s
    → IsTallied base (run world actions s)
unfolding run
run-IsTallied base r bad n world [] s fits small still a b h = h
run-IsTallied base r bad n world (x ∷ actions) s fits small still a b h =
    run-IsTallied base r bad (suc n) world actions (act world x s) fits (omega arith)
      (λ m. still (Memᴰ.tail m)) (act-Agrees r bad n world x s (omega arith) a)
      (act-IsBalanced r bad n world x s (omega arith) (fits s.client_chunk_id_counter) a b)
      (act-IsTallied base world x s (λ e. still (Memᴰ.head (sym e)))
        (λ info is. entered_fresh r bad n s info a b is) h)

-- A server that has returned has left no request behind.
no_request_left :
    (v : Server) (s : System)
    → IsDone v
    → Settled v s.stream.requests s.writer
    → (s.stream.requests ≡ []) × (in_insertion s.writer ≡ 0)
no_request_left serving s d h = elim d [ ]
no_request_left (done status) s d (none_left, over) = (none_left, ap in_insertion over)

returned_tally :
    (base : ℕ) (s : System)
    → s.reader ≡ returned
    → IsTallied base s
    → length s.inflight_requests_map + base ≡ dropped s.metrics.errors
returned_tally base s over h =
    let (no_response, d) : (s.stream.responses ≡ []) × IsDone s.server =
      subst (λ v. Behind v s.stream.responses s.server) over h.behind in
    let (no_request, inserted) = no_request_left s.server s d h.settled in
    ground (arith, h.tally, no_response, no_request, inserted, over)

-- For a file of fewer than 2 ^ 64 bytes that reads to its end, read in chunks of more than 0 bytes,
-- under every schedule of fewer than 2 ^ 64 steps on a stream that works: if `ProcessFile` has
-- returned, then each entry left in the map stands for exactly one response that the reader has
-- dropped, with a message.
pub drops_are_left :
    (world : World) (actions : List Action) (name : String) (n : ℕ) (f : File)
    (metrics : MetricsAggregator Message)
    → IsSound f
    → 0 < n
    → length f.bytes < 2 ^ 64
    → length actions < 2 ^ 64
    → ¬ Memᴰ stream_breaks actions
    → (run world actions (start (fresh name n f) metrics)).reader ≡ returned
    → let s = run world actions (start (fresh name n f) metrics) in
      length s.inflight_requests_map + dropped metrics.errors ≡ dropped s.metrics.errors
drops_are_left world actions name n f metrics sound chunked fits small still over =
    let r = fresh name n f in
    let d = fresh-Delivered name n f sound chunked in
    let base = dropped metrics.errors in
    returned_tally base (run world actions (start r metrics)) over (
      run-IsTallied base r (mismatches metrics.errors) 0 world actions (start r metrics)
        (λ k. omega (arith, total-le r k d)) (omega (arith, small)) still
        (record {
          counted = omega arith;
          writer = refl;
          reader = tt;
          requests = tt;
          responses = tt;
          entries = tt;
          logged = refl;
        })
        (record { keys = tt; balance = inr refl })
        (record {
          works = refl;
          tally = omega arith;
          closed = inl refl;
          settled = tt;
          behind = tt;
        }))
