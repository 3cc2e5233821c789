-- ===== src/Grpc/Client/Faults/Tests.antt =====
-- Runs of `ProcessFile` with an exception in the writer.
use grpccapnp.Base.{◌≡◌, ◌≢◌, refl, true, false, List, [], ◌∷◌, ◌++◌, map, bytes_eq}
use grpccapnp.Common.Reversal.{reverse_bytes}
use grpccapnp.Common.ChunkReader.{next_chunk, eof}
use grpccapnp.Common.ChunkReader.WholeFile.{fresh}
use grpccapnp.Common.Metrics.{
  log_error, record_chunk_sent, record_chunk_rtt_us, set_total_transaction_time_ms,
}
use grpccapnp.Grpc.Server.{respond, Status}
use grpccapnp.Grpc.Client.Inflight.{find, erase, assign}
use grpccapnp.Grpc.Client.{
  returned, writer_thread_exception, no_such_request, rpc_failed, writer_moves, reader_moves,
  server_moves, stream_breaks, start, act, writer_step, reader_step, server_step, read_step,
  write_step, close_step, entry, take_response, match_found, verify_step, serve, finish_step,
  leftover_check, status_check, total_check, final_status, is_ok,
}
use grpccapnp.Grpc.Client.Tests.{world, metrics, three, to_the_end}
use grpccapnp.Grpc.Client.Faults.{
  Event, acts, writer_throws, happen, occur, writer_caught, writer_fault,
}
use grpccapnp.Grpc.Client.Faults.Clean.{returned_quietly}
use grpccapnp.Grpc.Client.Faults.Opening.{thrown_writer_hangs}

abbrev undisturbed : List Event
undisturbed = map acts to_the_end

returned_quietly_example :
    let s = occur world undisturbed (start (fresh "test_file.dat" 2 three) metrics) in
    (s.inflight_requests_map ≡ []) × (s.total_bytes_verified_payload_by_reader ≡ 3)
unfolding occur happen act writer_step reader_step server_step read_step write_step close_step entry
    take_response match_found verify_step serve finish_step leftover_check status_check total_check
    final_status is_ok next_chunk eof find erase assign respond reverse_bytes bytes_eq
    record_chunk_sent record_chunk_rtt_us set_total_transaction_time_ms
returned_quietly_example =
    returned_quietly world undisturbed (fresh "test_file.dat" 2 three) metrics refl refl

-- The writer throws between its first `Write` and the insertion.
abbrev beginning : List Event
beginning = acts writer_moves ∷ acts writer_moves ∷ acts writer_moves ∷ []

abbrev later : List Event
later =
    acts writer_moves
    ∷ acts writer_moves
    ∷ acts server_moves
    ∷ acts reader_moves
    ∷ acts reader_moves
    ∷ acts reader_moves
    ∷ []

thrown_writer_hangs_example :
    (occur world
      (beginning ++ writer_throws "std::bad_alloc" true ∷ later)
      (start (fresh "test_file.dat" 2 three) metrics)).reader
    ≢ returned
unfolding occur happen act writer_step read_step write_step entry next_chunk
thrown_writer_hangs_example =
    thrown_writer_hangs world beginning later "std::bad_alloc" true (fresh "test_file.dat" 2 three)
      metrics (tt, (tt, (tt, tt))) tt (tt, (tt, (tt, (tt, (tt, (tt, tt))))))

-- Once the stream breaks (the deadline of the call passes), the call returns, with the exception,
-- the response without an entry and the status in its messages.
returned_by_deadline :
    let s =
      occur world
        (beginning
          ++ writer_throws "std::bad_alloc" false ∷ later
          ++ acts stream_breaks
            ∷ acts writer_moves
            ∷ acts reader_moves
            ∷ acts reader_moves
            ∷ acts reader_moves
            ∷ [])
        (start (fresh "test_file.dat" 2 three) metrics) in
    (s.reader ≡ returned)
    × (s.metrics.errors
        ≡ writer_thread_exception "std::bad_alloc"
          ∷ no_such_request 1 0 0
          ∷ rpc_failed Status.unknown
          ∷ [])
unfolding occur happen act writer_step reader_step server_step read_step write_step close_step entry
    take_response match_found verify_step serve finish_step leftover_check status_check total_check
    final_status is_ok next_chunk eof find erase assign respond reverse_bytes bytes_eq
    record_chunk_sent record_chunk_rtt_us set_total_transaction_time_ms writer_caught writer_fault
    log_error
returned_by_deadline = (refl, refl)
