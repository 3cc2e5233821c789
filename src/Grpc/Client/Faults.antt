-- ===== src/Grpc/Client/Faults.antt =====
-- The `try` blocks of src/grpc_app/grpc_client.cpp: an exception that leaves the writer's loop or the
-- reader's loop ends it with a message, and `ProcessFile` goes on behind the loop.
pub mod Clean
pub mod Forsaken
pub mod Opening
mod Tests
use grpccapnp.Base.{ℕ, ◌+◌, ◌≡◌, String, Bool, true, false, List, [], ◌∷◌, if◌then◌else◌}
use grpccapnp.Base.Int.{ℤ}
use grpccapnp.Common.Metrics.{
  MetricsAggregator, record_chunk_sent, record_chunk_rtt_us, log_error, u64,
}
use grpccapnp.Grpc.Client.Inflight.{SentChunkInfo, InflightMap, assign}
use grpccapnp.Grpc.Client.{
  Message, writer_thread_exception, read_loop_exception, Writer, waiting, reading, writing,
  recording, leaving, closing, ended, Reader, receiving, matching, verifying, joining, finishing,
  returned, System, World, Action, log, act,
}

-- A step of `act`, or an exception with its text. One that leaves `inflight_requests_map[id] = ...` has
-- or has not inserted the entry, with no data; one that leaves the handling of a response comes
-- before or behind the record of its time.
pub data Event : Type 0 where
  acts : Action → Event
  writer_throws : (what : String) (inserted : Bool) → Event
  reader_throws : (what : String) (booked : Bool) → Event

-- The map when the assignment to its entry is left.
interrupted : Bool → SentChunkInfo → InflightMap → InflightMap
interrupted inserted info m =
    if inserted
    then assign info.client_assigned_id (record info { original_data_for_verification = [] }) m
    else m

-- The writer's `catch`.
unfoldable pub writer_caught : String → System → System
writer_caught what s = record (log (writer_thread_exception what) s) {
  writer = leaving;
  writer_stream_broken = true;
}

-- Behind its loop, no exception of the writer's is expected.
pub writer_fault : String → Bool → Writer → System → System
unfolding writer_caught interrupted
writer_fault what inserted waiting s = writer_caught what s
writer_fault what inserted reading s = writer_caught what s
writer_fault what inserted (writing info) s = writer_caught what s
writer_fault what inserted (recording info) s =
    writer_caught what
      (record s { inflight_requests_map = interrupted inserted info s.inflight_requests_map })
writer_fault what inserted leaving s = s
writer_fault what inserted closing s = s
writer_fault what inserted ended s = s

-- The reader's `catch`.
unfoldable pub reader_caught : String → System → System
reader_caught what s = record (log (read_loop_exception what) s) { reader = joining }

-- The count is taken before anything can throw.
booking : Bool → (ℕ → ℤ) → SentChunkInfo → System → System
booking booked rtt_us info s = record s {
  received_responses_count = u64 (s.received_responses_count + 1);
  metrics =
      if booked
      then record_chunk_sent info.original_payload_size info.on_wire_request_size_bytes
          (record_chunk_rtt_us (rtt_us info.client_assigned_id) s.metrics)
      else s.metrics;
}

pub reader_fault : String → Bool → (ℕ → ℤ) → Reader → System → System
unfolding reader_caught booking
reader_fault what booked rtt_us receiving s = reader_caught what s
reader_fault what booked rtt_us (matching response) s = reader_caught what s
reader_fault what booked rtt_us (verifying info response) s =
    reader_caught what (booking booked rtt_us info s)
reader_fault what booked rtt_us joining s = s
reader_fault what booked rtt_us finishing s = s
reader_fault what booked rtt_us returned s = s

unfoldable pub happen : World → Event → System → System
unfolding writer_fault reader_fault
happen world (acts a) s = act world a s
happen world (writer_throws what inserted) s = writer_fault what inserted s.writer s
happen world (reader_throws what booked) s = reader_fault what booked world.rtt_us s.reader s

-- A schedule with its exceptions.
unfoldable pub occur : World → List Event → System → System
occur world [] s = s
occur world (e ∷ events) s = occur world events (happen world e s)
