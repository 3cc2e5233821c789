-- ===== src/Grpc/Client/Faults/Opening.antt =====
-- The stream of `ProcessFile` before the writer closes its side.
use grpccapnp.Base.{
  ℕ, ◌≡◌, refl, sym, ap, ◌∙◌, subst, ◌≢◌, ◌⊎◌, inr, String, Bool, true, false, Option, none, some,
  List, [], ◌∷◌, ◌++◌, arith, Bytes, All,
}
use grpccapnp.Base.Int.{ℤ}
use grpccapnp.Common.ChunkReader.{ChunkReader}
use grpccapnp.Common.Metrics.{MetricsAggregator}
use grpccapnp.Grpc.Server.{ChunkRequest, ChunkResponse}
use grpccapnp.Grpc.Client.Inflight.{SentChunkInfo, find}
use grpccapnp.Grpc.Client.{
  Message, Writer, waiting, reading, writing, recording, leaving, closing, ended, Reader, receiving,
  matching, verifying, joining, finishing, returned, Server, serving, done, System, World,
  writer_moves, reader_moves, server_moves, stream_breaks, read_step, write_step, close_step,
  writer_step, take_response, match_found, verify_step, reader_step, serve, server_step, act, start,
}
use grpccapnp.Grpc.Client.Finish.{finish_step-eq}
use grpccapnp.Grpc.Client.Faults.{
  Event, acts, writer_throws, reader_throws, writer_caught, writer_fault, happen, occur,
}
use grpccapnp.Grpc.Client.Faults.Forsaken.{Looping, Undisturbed, IsForsaken, occur-IsForsaken}

-- Only a writer that has ended has closed its side.
abbrev Unclosed : Writer → Bool → Type 0
Unclosed ended writes_done = Unit {0}
Unclosed _ writes_done = writes_done ≡ false

record IsOpen (s : System) : Type 0 where
  works : s.stream.broken ≡ false
  unclosed : Unclosed s.writer s.stream.writes_done
  listens : (s.stream.writes_done ≡ true) ⊎ ((s.server ≡ serving) × Looping s.reader)

writer_step-IsOpen :
    (byte_size : Bytes → ℕ → ℕ) (w : Writer) (s : System)
    → s.writer ≡ w
    → IsOpen s
    → IsOpen (writer_step byte_size w s)
unfolding writer_step read_step write_step close_step
writer_step-IsOpen byte_size waiting s is h = ground arith
writer_step-IsOpen byte_size reading s is h = ground arith
writer_step-IsOpen byte_size (writing info) s is h = ground arith
writer_step-IsOpen byte_size (recording info) s is h = ground arith
writer_step-IsOpen byte_size leaving s is h = ground arith
writer_step-IsOpen byte_size closing s is h = ground arith
writer_step-IsOpen byte_size ended s is h = h

take_response-IsOpen :
    (rs : List ChunkResponse) (s : System) → IsOpen s → IsOpen (take_response rs s)
unfolding take_response
take_response-IsOpen [] s h = ground arith
take_response-IsOpen (r ∷ rs) s h = ground arith

match_found-IsOpen :
    (response : ChunkResponse) (s : System) (o : Option SentChunkInfo)
    → IsOpen s
    → IsOpen (match_found response s o)
unfolding match_found
match_found-IsOpen response s none h = ground arith
match_found-IsOpen response s (some info) h = ground arith

verify_step-IsOpen :
    (rtt_us : ℕ → ℤ) (info : SentChunkInfo) (r : ChunkResponse) (s : System)
    → IsOpen s
    → IsOpen (verify_step rtt_us info r s)
unfolding verify_step
verify_step-IsOpen rtt_us info r s h = ground arith

reader_step-IsOpen :
    (world : World) (r : Reader) (s : System)
    → s.reader ≡ r
    → IsOpen s
    → IsOpen (reader_step world r s)
unfolding reader_step
reader_step-IsOpen world receiving s is h = take_response-IsOpen s.stream.responses s h
reader_step-IsOpen world (matching response) s is h =
    match_found-IsOpen response s (find response.original_client_chunk_id s.inflight_requests_map) h
reader_step-IsOpen world (verifying info response) s is h =
    verify_step-IsOpen world.rtt_us info response s h
reader_step-IsOpen world joining s is h = ground arith
reader_step-IsOpen world finishing s is h =
    let (m, e, _) = finish_step-eq world.expected world.duration_ms s in
    subst IsOpen (sym e) (ground arith)
reader_step-IsOpen world returned s is h = h

serve-IsOpen : (rs : List ChunkRequest) (s : System) → IsOpen s → IsOpen (serve rs s)
unfolding serve
serve-IsOpen [] s h = ground arith
serve-IsOpen (r ∷ rs) s h = ground arith

server_step-IsOpen : (v : Server) (s : System) → IsOpen s → IsOpen (server_step v s)
unfolding server_step
server_step-IsOpen serving s h = serve-IsOpen s.stream.requests s h
server_step-IsOpen (done status) s h = h

writer_fault-IsOpen :
    (what : String) (inserted : Bool) (w : Writer) (s : System)
    → s.writer ≡ w
    → IsOpen s
    → IsOpen (writer_fault what inserted w s)
unfolding writer_fault writer_caught
writer_fault-IsOpen what inserted waiting s is h = ground arith
writer_fault-IsOpen what inserted reading s is h = ground arith
writer_fault-IsOpen what inserted (writing info) s is h = ground arith
writer_fault-IsOpen what inserted (recording info) s is h = ground arith
writer_fault-IsOpen what inserted leaving s is h = h
writer_fault-IsOpen what inserted closing s is h = h
writer_fault-IsOpen what inserted ended s is h = h

happen-IsOpen :
    (world : World) (e : Event) (s : System) → Undisturbed e → IsOpen s → IsOpen (happen world e s)
unfolding happen act
happen-IsOpen world (acts writer_moves) s u h = writer_step-IsOpen world.byte_size s.writer s refl h
happen-IsOpen world (acts reader_moves) s u h = reader_step-IsOpen world s.reader s refl h
happen-IsOpen world (acts server_moves) s u h = server_step-IsOpen s.server s h
happen-IsOpen world (acts stream_breaks) s u h = elim u [ ]
happen-IsOpen world (writer_throws what inserted) s u h =
    writer_fault-IsOpen what inserted s.writer s refl h
happen-IsOpen world (reader_throws what booked) s u h = elim u [ ]

occur-IsOpen :
    (world : World) (events : List Event) (s : System)
    → All Undisturbed events
    → IsOpen s
    → IsOpen (occur world events s)
unfolding occur
occur-IsOpen world [] s u h = h
occur-IsOpen world (e ∷ events) s (u, us) h =
    occur-IsOpen world events (happen world e s) us (happen-IsOpen world e s u h)

-- The writer is in its `try` block.
abbrev pub InLoop : Writer → Type 0
InLoop waiting = Unit {0}
InLoop reading = Unit {0}
InLoop (writing info) = Unit {0}
InLoop (recording info) = Unit {0}
InLoop _ = ⊥

thrown-IsForsaken :
    (what : String) (inserted : Bool) (w : Writer) (s : System)
    → s.writer ≡ w
    → InLoop w
    → IsOpen s
    → IsForsaken (writer_fault what inserted w s)
unfolding writer_fault writer_caught
thrown-IsForsaken what inserted waiting s is inside h = ground arith
thrown-IsForsaken what inserted reading s is inside h = ground arith
thrown-IsForsaken what inserted (writing info) s is inside h = ground arith
thrown-IsForsaken what inserted (recording info) s is inside h = ground arith
thrown-IsForsaken what inserted leaving s is inside h = elim inside [ ]
thrown-IsForsaken what inserted closing s is inside h = elim inside [ ]
thrown-IsForsaken what inserted ended s is inside h = elim inside [ ]

occur-append :
    (world : World) (xs ys : List Event) (s : System)
    → occur world (xs ++ ys) s ≡ occur world ys (occur world xs s)
unfolding occur
occur-append world [] ys s = refl
occur-append world (e ∷ xs) ys s = occur-append world xs ys (happen world e s)

loops-ne-returned : (r : Reader) → Looping r → r ≢ returned
loops-ne-returned r h e = subst Looping e h

-- If an exception leaves the writer's loop, then `ProcessFile` returns under no schedule, as long as
-- the stream does not break and the reader's loop does not throw: the writer's `catch` makes it
-- skip `WritesDone`, so the server waits for requests and the reader for responses.
pub thrown_writer_hangs :
    (world : World) (before after : List Event) (what : String) (inserted : Bool)
    (file : ChunkReader) (metrics : MetricsAggregator Message)
    → All Undisturbed before
    → InLoop (occur world before (start file metrics)).writer
    → All Undisturbed after
    → (occur world (before ++ writer_throws what inserted ∷ after) (start file metrics)).reader
      ≢ returned
unfolding occur happen
thrown_writer_hangs world before after what inserted file metrics calm inside calm' over =
    let s = occur world before (start file metrics) in
    let opened : IsOpen s =
      occur-IsOpen world before (start file metrics) calm
        (record { works = refl; unclosed = refl; listens = inr (refl, tt) }) in
    let forsaken =
      occur-IsForsaken world after (writer_fault what inserted s.writer s) calm'
        (thrown-IsForsaken what inserted s.writer s refl inside opened) in
    loops-ne-returned _ forsaken.loops (
      ap (λ q. q.reader)
        (sym (occur-append world before (writer_throws what inserted ∷ after) (start file metrics)))
      ∙ over)
