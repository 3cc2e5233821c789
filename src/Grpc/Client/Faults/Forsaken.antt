-- ===== src/Grpc/Client/Faults/Forsaken.antt =====
-- A writer that has left its loop by an exception, and never closes its side of the stream.
use grpccapnp.Base.{
  ℕ, ◌≡◌, refl, subst, String, Bool, true, false, Option, none, some, List, [], ◌∷◌, arith, Bytes,
  All,
}
use grpccapnp.Base.Int.{ℤ}
use grpccapnp.Grpc.Server.{ChunkRequest, ChunkResponse}
use grpccapnp.Grpc.Client.Inflight.{SentChunkInfo, find}
use grpccapnp.Grpc.Client.{
  Writer, waiting, reading, writing, recording, leaving, closing, ended, Reader, receiving,
  matching, verifying, joining, finishing, returned, Server, serving, done, System, World,
  writer_moves, reader_moves, server_moves, stream_breaks, read_step, write_step, close_step,
  writer_step, take_response, match_found, verify_step, reader_step, serve, server_step, act,
}
use grpccapnp.Grpc.Client.Faults.{
  Event, acts, writer_throws, reader_throws, writer_caught, writer_fault, happen, occur,
}

-- The reader is in its loop.
abbrev pub Looping : Reader → Type 0
Looping receiving = Unit {0}
Looping (matching response) = Unit {0}
Looping (verifying info response) = Unit {0}
Looping _ = ⊥

-- The stream works, the writer has given up without `WritesDone`, and so the server and the reader
-- are in their loops.
pub record IsForsaken (s : System) : Type 0 where
  pub works : s.stream.broken ≡ false
  pub given_up : s.writer_stream_broken ≡ true
  pub unclosed : s.stream.writes_done ≡ false
  pub serves : s.server ≡ serving
  pub loops : Looping s.reader

writer_step-IsForsaken :
    (byte_size : Bytes → ℕ → ℕ) (w : Writer) (s : System)
    → IsForsaken s
    → IsForsaken (writer_step byte_size w s)
unfolding writer_step read_step write_step close_step
writer_step-IsForsaken byte_size waiting s h = ground arith
writer_step-IsForsaken byte_size reading s h = ground arith
writer_step-IsForsaken byte_size (writing info) s h = ground arith
writer_step-IsForsaken byte_size (recording info) s h = ground arith
writer_step-IsForsaken byte_size leaving s h = ground arith
writer_step-IsForsaken byte_size closing s h = ground arith
writer_step-IsForsaken byte_size ended s h = h

take_response-IsForsaken :
    (rs : List ChunkResponse) (s : System) → IsForsaken s → IsForsaken (take_response rs s)
unfolding take_response
take_response-IsForsaken [] s h = ground arith
take_response-IsForsaken (r ∷ rs) s h = ground arith

match_found-IsForsaken :
    (response : ChunkResponse) (s : System) (o : Option SentChunkInfo)
    → IsForsaken s
    → IsForsaken (match_found response s o)
unfolding match_found
match_found-IsForsaken response s none h = ground arith
match_found-IsForsaken response s (some info) h = ground arith

verify_step-IsForsaken :
    (rtt_us : ℕ → ℤ) (info : SentChunkInfo) (r : ChunkResponse) (s : System)
    → IsForsaken s
    → IsForsaken (verify_step rtt_us info r s)
unfolding verify_step
verify_step-IsForsaken rtt_us info r s h = ground arith

reader_step-IsForsaken :
    (world : World) (r : Reader) (s : System)
    → s.reader ≡ r
    → IsForsaken s
    → IsForsaken (reader_step world r s)
unfolding reader_step
reader_step-IsForsaken world receiving s is h = take_response-IsForsaken s.stream.responses s h
reader_step-IsForsaken world (matching response) s is h =
    match_found-IsForsaken response s
      (find response.original_client_chunk_id s.inflight_requests_map) h
reader_step-IsForsaken world (verifying info response) s is h =
    verify_step-IsForsaken world.rtt_us info response s h
reader_step-IsForsaken world joining s is h = absurd (subst Looping is h.loops)
reader_step-IsForsaken world finishing s is h = absurd (subst Looping is h.loops)
reader_step-IsForsaken world returned s is h = absurd (subst Looping is h.loops)

serve-IsForsaken : (rs : List ChunkRequest) (s : System) → IsForsaken s → IsForsaken (serve rs s)
unfolding serve
serve-IsForsaken [] s h = ground arith
serve-IsForsaken (r ∷ rs) s h = ground arith

server_step-IsForsaken : (v : Server) (s : System) → IsForsaken s → IsForsaken (server_step v s)
unfolding server_step
server_step-IsForsaken serving s h = serve-IsForsaken s.stream.requests s h
server_step-IsForsaken (done status) s h = h

writer_fault-IsForsaken :
    (what : String) (inserted : Bool) (w : Writer) (s : System)
    → IsForsaken s
    → IsForsaken (writer_fault what inserted w s)
unfolding writer_fault writer_caught
writer_fault-IsForsaken what inserted waiting s h = ground arith
writer_fault-IsForsaken what inserted reading s h = ground arith
writer_fault-IsForsaken what inserted (writing info) s h = ground arith
writer_fault-IsForsaken what inserted (recording info) s h = ground arith
writer_fault-IsForsaken what inserted leaving s h = h
writer_fault-IsForsaken what inserted closing s h = h
writer_fault-IsForsaken what inserted ended s h = h

-- Neither does the stream break, nor does the reader's loop throw.
abbrev pub Undisturbed : Event → Type 0
Undisturbed (acts stream_breaks) = ⊥
Undisturbed (reader_throws what booked) = ⊥
Undisturbed _ = Unit {0}

happen-IsForsaken :
    (world : World) (e : Event) (s : System)
    → Undisturbed e
    → IsForsaken s
    → IsForsaken (happen world e s)
unfolding happen act
happen-IsForsaken world (acts writer_moves) s u h =
    writer_step-IsForsaken world.byte_size s.writer s h
happen-IsForsaken world (acts reader_moves) s u h = reader_step-IsForsaken world s.reader s refl h
happen-IsForsaken world (acts server_moves) s u h = server_step-IsForsaken s.server s h
happen-IsForsaken world (acts stream_breaks) s u h = elim u [ ]
happen-IsForsaken world (writer_throws what inserted) s u h =
    writer_fault-IsForsaken what inserted s.writer s h
happen-IsForsaken world (reader_throws what booked) s u h = elim u [ ]

pub occur-IsForsaken :
    (world : World) (events : List Event) (s : System)
    → All Undisturbed events
    → IsForsaken s
    → IsForsaken (occur world events s)
unfolding occur
occur-IsForsaken world [] s u h = h
occur-IsForsaken world (e ∷ events) s (u, us) h =
    occur-IsForsaken world events (happen world e s) us (happen-IsForsaken world e s u h)
