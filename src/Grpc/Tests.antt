-- ===== src/Grpc/Tests.antt =====
-- Runs of the gRPC client and server at concrete inputs.
use grpccapnp.Base.{ℕ, zero, suc, ◌≤◌, ◌≡◌, ◌≢◌, refl, ap, true, false, [], ◌∷◌, arith, length, ltb}
use grpccapnp.Base.Int.{pos}
use grpccapnp.Common.ChunkReader.{ChunkReader}
use grpccapnp.Common.ChunkReader.WholeFile.{fresh}
use grpccapnp.Common.Metrics.{MetricsAggregator}
use grpccapnp.Grpc.Server.{
  ChunkRequest, respond, process_file_chunks, process_file_chunks-ok, process_file_chunks-unknown,
}
use grpccapnp.Grpc.Client.Inflight.{SentChunkInfo, InflightMap}
use grpccapnp.Grpc.Client.{
  Message, returned, System, World, writer_moves, reader_moves, stream_breaks, run, start,
}
use grpccapnp.Grpc.Client.Bound.{inflight-le-max}
use grpccapnp.Grpc.Client.Hang.{break_while_full}

abbrev first : ChunkRequest
first = record { data_chunk = 1 ∷ 2 ∷ []; client_assigned_chunk_id = 1 }

abbrev second : ChunkRequest
second = record { data_chunk = 3 ∷ 4 ∷ []; client_assigned_chunk_id = 2 }

three_answered :
    (process_file_chunks (λ i. true) 0 (first ∷ second ∷ [])).responses
    ≡ respond first ∷ respond second ∷ []
three_answered =
    ap (λ served. served.responses)
      (process_file_chunks-ok (λ i. true) 0 (first ∷ second ∷ []) (λ j lt. refl))

process_file_chunks-unknown_example :
    (process_file_chunks (λ i. ltb i 1) 0 (first ∷ second ∷ [])).responses ≡ respond first ∷ []
process_file_chunks-unknown_example =
    ap (λ served. served.responses)
      (process_file_chunks-unknown (λ i. ltb i 1) 0 1 (first ∷ second ∷ []) (omega arith)
        (λ j lt. ground arith) refl)

abbrev world : World
world = record {
  byte_size = λ chunk id. length chunk;
  rtt_us = λ id. pos 5;
  duration_ms = pos 1;
  expected = 3;
}

abbrev metrics : MetricsAggregator Message
metrics = record {
  protocol_name = "gRPC";
  total_payload_to_transfer_bytes = 3;
  actual_payload_transferred_bytes = 0;
  total_on_wire_bytes = 0;
  chunk_size_bytes = 2;
  total_transaction_time_ms = pos 0;
  chunk_rtt_us = [];
  errors = [];
}

abbrev reader : ChunkReader
reader = fresh "test_file.dat" 2 (record { bytes = 1 ∷ 2 ∷ 3 ∷ []; size = 3; broken = false })

inflight-le-max_example :
    length
      (run world (writer_moves ∷ writer_moves ∷ []) (start reader metrics)).inflight_requests_map
    ≤ 2000
inflight-le-max_example = inflight-le-max world (writer_moves ∷ writer_moves ∷ []) reader metrics

abbrev info : SentChunkInfo
info = record {
  client_assigned_id = 1;
  original_payload_size = 2;
  on_wire_request_size_bytes = 4;
  original_data_for_verification = 1 ∷ 2 ∷ [];
}

-- A map with entries for the requests 1 to n.
abbrev filled : ℕ → InflightMap
filled zero = []
filled (suc n) = (suc n, record info { client_assigned_id = suc n }) ∷ filled n

length-filled : (n : ℕ) → length (filled n) ≡ n
length-filled zero = refl
length-filled (suc n) = ap suc (length-filled n)

abbrev full : System
full = record (start reader metrics) { inflight_requests_map = filled 2000 }

break_while_full_example :
    (run world (stream_breaks ∷ reader_moves ∷ writer_moves ∷ reader_moves ∷ []) full).reader
    ≢ returned
break_while_full_example =
    break_while_full world full (reader_moves ∷ writer_moves ∷ reader_moves ∷ []) refl
      (omega (arith, length-filled 2000)) refl
