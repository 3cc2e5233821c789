-- ===== src/Grpc/Client/Faults/Clean.antt =====
-- A run with exceptions that returns and has logged nothing.
use grpccapnp.Base.{
  ℕ, ◌≡◌, refl, ap, sym, subst, String, Bool, true, false, List, [], ◌∷◌, arith, length, inr, ◌≢◌,
}
use grpccapnp.Base.Int.{ℤ}
use grpccapnp.Common.ChunkReader.{ChunkReader}
use grpccapnp.Common.Metrics.{MetricsAggregator, record_chunk_sent, record_chunk_rtt_us}
use grpccapnp.Grpc.Client.{
  Message, writer_thread_exception, read_loop_exception, Writer, waiting, reading, writing,
  recording, leaving, closing, ended, Reader, receiving, matching, verifying, joining, finishing,
  returned, System, World, start,
}
use grpccapnp.Grpc.Server.{ChunkResponse}
use grpccapnp.Grpc.Client.Inflight.{SentChunkInfo}
use grpccapnp.Grpc.Client.Clean.{logged-log}
use grpccapnp.Grpc.Client.Clean.Invariant.{Joined, IsClean, unjoined}
use grpccapnp.Grpc.Client.Clean.Verified.{act-IsClean}
use grpccapnp.Grpc.Client.Faults.{
  Event, acts, writer_throws, reader_throws, writer_caught, writer_fault, reader_caught, booking,
  reader_fault, happen, occur, interrupted,
}

writer_caught-IsClean :
    (expected : ℕ) (what : String) (s t : System)
    → s.writer ≢ ended
    → Joined expected s.reader s
    → t.reader ≡ s.reader
    → IsClean expected (writer_caught what t)
unfolding writer_caught
writer_caught-IsClean expected what s t going joined same = record {
  gave_up = λ e. inr (omega (arith, logged-log (writer_thread_exception what) t));
  told = tt;
  joined =
      subst (λ v. Joined expected v (writer_caught what t)) (sym same)
        (unjoined expected s.reader s (writer_caught what t) going joined);
}

writer_fault-IsClean :
    (expected : ℕ) (what : String) (inserted : Bool) (w : Writer) (s : System)
    → s.writer ≡ w
    → IsClean expected s
    → IsClean expected (writer_fault what inserted w s)
unfolding writer_fault
writer_fault-IsClean expected what inserted waiting s is h =
    writer_caught-IsClean expected what s s (λ e. cc) h.joined refl
writer_fault-IsClean expected what inserted reading s is h =
    writer_caught-IsClean expected what s s (λ e. cc) h.joined refl
writer_fault-IsClean expected what inserted (writing info) s is h =
    writer_caught-IsClean expected what s s (λ e. cc) h.joined refl
writer_fault-IsClean expected what inserted (recording info) s is h =
    writer_caught-IsClean expected what s
      (record s { inflight_requests_map = interrupted inserted info s.inflight_requests_map })
      (λ e. cc) h.joined refl
writer_fault-IsClean expected what inserted leaving s is h = h
writer_fault-IsClean expected what inserted closing s is h = h
writer_fault-IsClean expected what inserted ended s is h = h

reader_caught-IsClean :
    (expected : ℕ) (what : String) (s : System)
    → IsClean expected s
    → IsClean expected (reader_caught what s)
unfolding reader_caught
reader_caught-IsClean expected what s h = record {
  gave_up = λ e. inr (omega (arith, logged-log (read_loop_exception what) s));
  told = h.told;
  joined = tt;
}

booking-IsClean :
    (expected : ℕ) (booked : Bool) (rtt_us : ℕ → ℤ) (info : SentChunkInfo)
    (response : ChunkResponse) (s : System)
    → s.reader ≡ verifying info response
    → IsClean expected s
    → IsClean expected (booking booked rtt_us info s)
unfolding booking record_chunk_sent record_chunk_rtt_us
booking-IsClean expected true rtt_us info response s is h = record {
  gave_up = h.gave_up;
  told = h.told;
  joined = subst (λ v. Joined expected v (booking true rtt_us info s)) (sym is) tt;
}
booking-IsClean expected false rtt_us info response s is h = record {
  gave_up = h.gave_up;
  told = h.told;
  joined = subst (λ v. Joined expected v (booking false rtt_us info s)) (sym is) tt;
}

reader_fault-IsClean :
    (expected : ℕ) (what : String) (booked : Bool) (rtt_us : ℕ → ℤ) (r : Reader) (s : System)
    → s.reader ≡ r
    → IsClean expected s
    → IsClean expected (reader_fault what booked rtt_us r s)
unfolding reader_fault
reader_fault-IsClean expected what booked rtt_us receiving s is h =
    reader_caught-IsClean expected what s h
reader_fault-IsClean expected what booked rtt_us (matching response) s is h =
    reader_caught-IsClean expected what s h
reader_fault-IsClean expected what booked rtt_us (verifying info response) s is h =
    reader_caught-IsClean expected what _
      (booking-IsClean expected booked rtt_us info response s is h)
reader_fault-IsClean expected what booked rtt_us joining s is h = h
reader_fault-IsClean expected what booked rtt_us finishing s is h = h
reader_fault-IsClean expected what booked rtt_us returned s is h = h

happen-IsClean :
    (world : World) (e : Event) (s : System)
    → IsClean world.expected s
    → IsClean world.expected (happen world e s)
unfolding happen
happen-IsClean world (acts a) s h = act-IsClean world a s h
happen-IsClean world (writer_throws what inserted) s h =
    writer_fault-IsClean world.expected what inserted s.writer s refl h
happen-IsClean world (reader_throws what booked) s h =
    reader_fault-IsClean world.expected what booked world.rtt_us s.reader s refl h

occur-IsClean :
    (world : World) (events : List Event) (s : System)
    → IsClean world.expected s
    → IsClean world.expected (occur world events s)
unfolding occur
occur-IsClean world [] s h = h
occur-IsClean world (e ∷ events) s h =
    occur-IsClean world events (happen world e s) (happen-IsClean world e s h)

-- Under every schedule, every break of the stream and every exception that leaves the loop of the
-- writer or of the reader, whatever the file yields: if `ProcessFile` has returned and no message is
-- logged, then no request is left in the map and the number of verified payload bytes is the expected
-- size of the file.
pub returned_quietly :
    (world : World) (events : List Event) (file : ChunkReader) (metrics : MetricsAggregator Message)
    → (occur world events (start file metrics)).reader ≡ returned
    → (occur world events (start file metrics)).metrics.errors ≡ []
    → ((occur world events (start file metrics)).inflight_requests_map ≡ [])
      × ((occur world events (start file metrics)).total_bytes_verified_payload_by_reader
          ≡ world.expected)
returned_quietly world events file metrics over quiet =
    let s = occur world events (start file metrics) in
    let h : IsClean world.expected s =
      occur-IsClean world events (start file metrics)
        (record { gave_up = λ e. absurd (ground (arith, e)); told = tt; joined = tt }) in
    let (_, clean) : Joined world.expected returned s =
      subst (λ v. Joined world.expected v s) over h.joined in
    clean (ap length quiet)
