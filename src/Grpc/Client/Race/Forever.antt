-- ===== src/Grpc/Client/Race/Forever.antt =====
-- A request whose response has overtaken it stays in the map.
use grpccapnp.Base.{
  ℕ, suc, ◌+◌, ◌^◌, ◌<◌, ◌≡◌, ◌≢◌, refl, sym, ap, ◌∙◌, subst, inr, String, false, List, [], ◌∷◌,
  ◌++◌, All, some, arith, length,
}
use grpccapnp.Common.Stream.{File, IsSound}
use grpccapnp.Common.ChunkReader.{ChunkReader}
use grpccapnp.Common.ChunkReader.WholeFile.{fresh, fresh-Delivered}
use grpccapnp.Common.Metrics.{MetricsAggregator}
use grpccapnp.Grpc.Client.Inflight.{SentChunkInfo, find, find-assign}
use grpccapnp.Grpc.Client.{
  Message, no_such_request, recording, receiving, serving, System, World, Action, request_of, act,
  run, start,
}
use grpccapnp.Grpc.Client.Agreement.{Agrees, WriterAgrees}
use grpccapnp.Grpc.Client.Agreement.Honesty.{act-Agrees}
use grpccapnp.Grpc.Client.Mismatches.{mismatches}
use grpccapnp.Grpc.Client.Schedule.{run-append}
use grpccapnp.Grpc.Client.Balance.{total, IsBalanced}
use grpccapnp.Grpc.Client.Balance.Conservation.{act-IsBalanced, total-le}
use grpccapnp.Grpc.Client.Tally.Completion.{entered_fresh}
use grpccapnp.Grpc.Client.Race.{overtaking, response_overtakes}
use grpccapnp.Grpc.Client.Race.Lost.{WriterOther, ReaderOther, IsLost, run-IsLost}

run-Both :
    (r : ChunkReader) (bad n : ℕ) (world : World) (actions : List Action) (s : System)
    → ((k : ℕ) → total r k < 2 ^ 64)
    → n + length actions < 2 ^ 64
    → Agrees r bad n s
    → IsBalanced r s
    → Agrees r bad (n + length actions) (run world actions s) × IsBalanced r (run world actions s)
unfolding run
run-Both r bad n world [] s fits small a b = (subst (λ k. Agrees r bad k s) (omega arith) a, b)
run-Both r bad n world (x ∷ actions) s fits small a b =
    let s' = run world actions (act world x s) in
    let (a', b') =
      run-Both r bad (suc n) world actions (act world x s) fits (omega arith)
        (act-Agrees r bad n world x s (omega arith) a)
        (act-IsBalanced r bad n world x s (omega arith) (fits s.client_chunk_id_counter) a b) in
    (subst (λ k. Agrees r bad k s') (omega arith) a', b')

start-Agrees :
    (r : ChunkReader) (metrics : MetricsAggregator Message)
    → Agrees r (mismatches metrics.errors) 0 (start r metrics)
start-Agrees r metrics = record {
  counted = omega arith;
  writer = refl;
  reader = tt;
  requests = tt;
  responses = tt;
  entries = tt;
  logged = refl;
}

-- The request is counted.
entered_counted :
    (r : ChunkReader) (bad n : ℕ) (s : System) (info : SentChunkInfo)
    → Agrees r bad n s
    → s.writer ≡ recording info
    → info.client_assigned_id ≡ s.client_chunk_id_counter
entered_counted r bad n s info a is =
    let (_, (id, _, _)) : WriterAgrees r s.client_chunk_id_counter s.file (recording info) =
      subst (WriterAgrees r s.client_chunk_id_counter s.file) is a.writer in
    id

-- For a file of fewer than 2 ^ 64 bytes that reads to its end, read in chunks of more than 0 bytes,
-- and any schedule with which the writer has written a request and not yet entered it into the map,
-- with nothing else in transit, on a stream that works: if the server and the reader get ahead of the
-- writer now, the right response to the request is thrown away, with a message that there is no such
-- request, and the request enters the map for good: after every continuation, of fewer than 2 ^ 64
-- steps in all, breaks of the stream included, its entry is still there.
pub lost_for_good :
    (world : World) (before after : List Action) (name : String) (n : ℕ) (f : File)
    (metrics : MetricsAggregator Message) (info : SentChunkInfo)
    → IsSound f
    → 0 < n
    → length f.bytes < 2 ^ 64
    → length before + 4 + length after < 2 ^ 64
    → (run world before (start (fresh name n f) metrics)).writer ≡ recording info
    → (run world before (start (fresh name n f) metrics)).reader ≡ receiving
    → (run world before (start (fresh name n f) metrics)).server ≡ serving
    → (run world before (start (fresh name n f) metrics)).stream.broken ≡ false
    → (run world before (start (fresh name n f) metrics)).stream.requests ≡ request_of info ∷ []
    → (run world before (start (fresh name n f) metrics)).stream.responses ≡ []
    → let s = run world before (start (fresh name n f) metrics) in
      ((run world overtaking s).metrics.errors
        ≡ s.metrics.errors
          ++ no_such_request info.client_assigned_id s.received_responses_count
              (length s.inflight_requests_map)
            ∷ [])
      × (find info.client_assigned_id (run world (overtaking ++ after) s).inflight_requests_map
          ≡ some info)
lost_for_good world before after name n f metrics info sound chunked fits small w rd v b rq rp =
    let r = fresh name n f in
    let s = run world before (start r metrics) in
    let s' = run world overtaking s in
    let bad = mismatches metrics.errors in
    let bytes : (k : ℕ) → total r k < 2 ^ 64 =
      λ k. omega (arith, total-le r k (fresh-Delivered name n f sound chunked)) in
    let (a, balanced) =
      run-Both r bad 0 world before (start r metrics) bytes (omega (arith, small))
        (start-Agrees r metrics) (record { keys = tt; balance = inr refl }) in
    let (a', _) =
      run-Both r bad (0 + length before) world overtaking s bytes (omega (arith, small)) a
        balanced in
    let (message, map, requests, responses, counter, writer, reader) =
      response_overtakes world s info w rd v b rq rp
        (entered_fresh r bad (0 + length before) s info a balanced w) in
    let id = info.client_assigned_id in
    let lost : IsLost id info s' = record {
      kept = ap (find id) map ∙ find-assign id info s.inflight_requests_map;
      counted = omega (arith, counter, entered_counted r bad (0 + length before) s info a w);
      writer = subst (WriterOther id) (sym writer) tt;
      reader = subst (ReaderOther id) (sym reader) tt;
      requests = subst (All (λ q. q.client_assigned_chunk_id ≢ id)) (sym requests) tt;
      responses = subst (All (λ q. q.original_client_chunk_id ≢ id)) (sym responses) tt;
    } in
    let kept =
      run-IsLost id info r bad (0 + length before + 4) world after s' (omega (arith, small)) a'
        lost in
    (
      message,
      ap (λ t. find id t.inflight_requests_map) (run-append world overtaking after s) ∙ kept.kept,
    )
