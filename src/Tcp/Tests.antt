-- ===== src/Tcp/Tests.antt =====
-- Runs of the messaging, the server, the reader and the aggregator of the TCP benchmark.
use grpccapnp.Base.{
  ℕ, ◌*◌, ◌^◌, ◌<◌, ◌≤◌, ◌≡◌, inl, refl, true, false, List, [], ◌∷◌, ◌++◌, none, some, arith,
  length, All,
}
use grpccapnp.Base.Chunks.{chunks_of, pieces}
use grpccapnp.Common.Formulas.{formulas, size, over}
use grpccapnp.Common.Stream.{File, IsSound}
use grpccapnp.Tcp.Config.{chunk_size}
use grpccapnp.Tcp.Messaging.{
  Header, IsOctets, encode_length, parse_header, parse_header-encode_length,
}
use grpccapnp.Tcp.Messaging.Stream.{receive_header, frames}
use grpccapnp.Tcp.ChunkReader.{make_opened, eof}
use grpccapnp.Tcp.ChunkReader.WholeFile.{read_all, read_file-chunks}
use grpccapnp.Tcp.Metrics.{Moment, make, ChunkRttInfo}
use grpccapnp.Tcp.Metrics.Records.{
  Call, timer_started, chunk_started, chunk_recorded, bytes_processed, run, IsConsistent,
  counters_run,
}
use grpccapnp.Tcp.Server.{
  done, failed, eof as end_of_file, start, operation_aborted, other, on_accept,
}
use mathlib.Core.List.{Mem}
use grpccapnp.Tcp.Metrics.Report.{amount, rtt_lines}
use grpccapnp.Tcp.Metrics.Report.RoundTrips.{rtt_lines-between}
use grpccapnp.Tcp.Server.Accepting.{Accept, accept_all, accept_all-sessions}
use grpccapnp.Tcp.Server.Connection.{serve}
use grpccapnp.Tcp.Server.Answers.{serve-frames}
use grpccapnp.Tcp.Server.Bound.{header_read, body_read, complete_all, buffer-le}

abbrev three : File
three = record { bytes = 1 ∷ 2 ∷ 3 ∷ []; size = 3; broken = false }

abbrev three-IsSound : IsSound three
three-IsSound = record { sized = refl; works = refl }

abbrev header : Header
header = record { byte_0 = 0; byte_1 = 0; byte_2 = 1; byte_3 = 44 }

parse_header-encode_length_example :
    (parse_header (encode_length 70000) ≡ 70000)
    × IsOctets (encode_length 70000)
    × (encode_length (parse_header header) ≡ header)
    × (parse_header header < 2 ^ 32)
parse_header-encode_length_example =
    parse_header-encode_length 70000 header (omega arith) (omega arith)

-- Two messages, and then the end.
serve-frames_example :
    serve 9 start (frames ((1 ∷ 2 ∷ []) ∷ [] ∷ []) ++ []) ≡ some (frames ((2 ∷ 1 ∷ []) ∷ [] ∷ []))
unfolding receive_header
serve-frames_example =
    serve-frames 9 [] ((1 ∷ 2 ∷ []) ∷ [] ∷ []) [] (omega arith, (omega arith, tt)) (inl refl)
      (omega arith)

buffer-le_example :
    length
      (complete_all
        (header_read (done header) ∷ body_read (failed end_of_file) ∷ [])
        start).read_body_buffer
    ≤ chunk_size * 2
buffer-le_example = buffer-le (header_read (done header) ∷ body_read (failed end_of_file) ∷ [])

read_file-chunks_example :
    let r = make_opened three 2 in
    let (last, chunks) = read_all 4 r in
    (chunks ≡ (1 ∷ 2 ∷ []) ∷ (3 ∷ []) ∷ [])
    × (length chunks ≡ r.total_chunks)
    × (last.chunks_read_count ≡ r.total_chunks)
    × (eof last ≡ true)
unfolding chunks_of pieces
read_file-chunks_example = read_file-chunks three 2 three-IsSound (omega arith)

abbrev moment : Moment
moment = record { now = 5; stat_file = none; status_file = none; clk_tck = 100 }

abbrev calls : List Call
calls =
    timer_started moment
    ∷ chunk_started moment
    ∷ chunk_recorded moment 2 true
    ∷ chunk_recorded moment 1 false
    ∷ bytes_processed 4
    ∷ []

counters_run_example : IsConsistent formulas 4 (run formulas calls (make formulas "CPP_TCP" 3 2))
counters_run_example = counters_run formulas "CPP_TCP" 3 2 calls (omega arith)

-- Two connections, with an error between them.
abbrev accepts : List Accept
accepts = (true, done tt) ∷ (true, failed other) ∷ (true, done tt) ∷ []

sessions_until_abort :
    let l = accept_all accepts (record { sessions = []; accepting = true }) in
    (l.accepting ≡ true)
    × (length l.sessions ≡ 2)
    × (length (accept_all accepts (on_accept true (failed operation_aborted) l)).sessions ≡ 2)
sessions_until_abort =
    accept_all-sessions accepts accepts true (refl, refl, (refl, refl, (refl, refl, tt)))

abbrev slow : ChunkRttInfo
slow = record { chunk_index = 1; rtt_us = 9; chunk_size_bytes = 2; verified = true }

abbrev fast : ChunkRttInfo
fast = record { chunk_index = 2; rtt_us = 4; chunk_size_bytes = 1; verified = true }

average_between :
    (total : ℕ) × (least : ℕ) × (greatest : ℕ) × (rtt_lines formulas (slow ∷ fast ∷ [])
      ≡ amount "Chunk RTT (ms) - Avg, Min, Max" (
          over (over (size total) (size 2)) (size 1000)
          ∷ over (size least) (size 1000)
          ∷ over (size greatest) (size 1000)
          ∷ [])
        ∷ [])
    × Mem least (9 ∷ 4 ∷ [])
    × All (λ y. least ≤ y) (9 ∷ 4 ∷ [])
    × Mem greatest (9 ∷ 4 ∷ [])
    × All (λ y. y ≤ greatest) (9 ∷ 4 ∷ [])
    × (2 * least ≤ total)
    × (total ≤ 2 * greatest)
average_between = (rtt_lines-between formulas slow (fast ∷ [])).1
