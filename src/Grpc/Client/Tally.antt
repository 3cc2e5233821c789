-- ===== src/Grpc/Client/Tally.antt =====
-- How many responses the reader of src/grpc_app/grpc_client.cpp has dropped for want of an entry in the
-- map, and how many entries are left for that.

pub mod Steps
pub mod Completion
use grpccapnp.Base.{ℕ, ◌+◌, ◌≡◌, ◌⊎◌, Bool, true, false, List, [], ◌∷◌, ◌++◌, arith, length}
use grpccapnp.Base.Int.{ℤ}
use grpccapnp.Common.Metrics.{MetricsAggregator, log_error, set_total_transaction_time_ms}
use grpccapnp.Grpc.Server.{ChunkRequest, ChunkResponse, Status}
use grpccapnp.Grpc.Client.{
  Message, no_such_request, Writer, recording, ended, Reader, matching, joining, finishing,
  returned, Server, serving, done, System, leftover_check, status_check, total_check, final_status,
  finish_step,
}

abbrev pub is_drop : Message → ℕ
is_drop (no_such_request id received map_size) = 1
is_drop _ = 0

-- How many messages say that a response was dropped.
abbrev pub dropped : List Message → ℕ
dropped [] = 0
dropped (m ∷ ms) = is_drop m + dropped ms

pub dropped-append :
    (ms : List Message) (m : Message) → dropped (ms ++ m ∷ []) ≡ dropped ms + is_drop m
dropped-append [] m = omega arith
dropped-append (x ∷ ms) m = omega (arith, dropped-append ms m)

abbrev pub in_insertion : Writer → ℕ
in_insertion (recording info) = 1
in_insertion _ = 0

abbrev pub in_search : Reader → ℕ
in_search (matching response) = 1
in_search _ = 0

-- The server returns when all is read and the writer has closed its side, and the reader leaves its
-- loop when the server has returned and all is read.
abbrev pub Settled : Server → List ChunkRequest → Writer → Type 0
Settled serving requests w = Unit {0}
Settled (done status) requests w = (requests ≡ []) × (w ≡ ended)

abbrev pub IsDone : Server → Type 0
IsDone serving = ⊥
IsDone (done status) = Unit {0}

abbrev pub Behind : Reader → List ChunkResponse → Server → Type 0
Behind joining responses v = (responses ≡ []) × IsDone v
Behind finishing responses v = (responses ≡ []) × IsDone v
Behind returned responses v = (responses ≡ []) × IsDone v
Behind _ responses v = Unit {0}

-- On a stream that works each request that was written is on its way, answered, being looked for, or
-- was found or dropped; `base` messages on drops are from before.
pub record IsTallied (base : ℕ) (s : System) : Type 0 where
  pub works : s.stream.broken ≡ false
  pub tally :
      length s.inflight_requests_map + in_insertion s.writer + base
      ≡ length s.stream.requests
        + length s.stream.responses
        + in_search s.reader
        + dropped s.metrics.errors
  pub closed : (s.stream.writes_done ≡ false) ⊎ (s.writer ≡ ended)
  pub settled : Settled s.server s.stream.requests s.writer
  pub behind : Behind s.reader s.stream.responses s.server

leftover_check-dropped :
    (s : System) → dropped (leftover_check s).metrics.errors ≡ dropped s.metrics.errors
unfolding leftover_check log_error
leftover_check-dropped s = ground (
  arith,
  dropped-append s.metrics.errors (Message.requests_remaining (length s.inflight_requests_map)),
)

status_check-dropped :
    (status : Status) (s : System)
    → dropped (status_check status s).metrics.errors ≡ dropped s.metrics.errors
unfolding status_check log_error
status_check-dropped Status.ok s = ground arith
status_check-dropped Status.unknown s =
    ground (arith, dropped-append s.metrics.errors (Message.rpc_failed Status.unknown))

total_check-dropped :
    (expected : ℕ) (status : Status) (s : System)
    → dropped (total_check expected status s).metrics.errors ≡ dropped s.metrics.errors
unfolding total_check log_error
total_check-dropped expected status s = ground (
  arith,
  dropped-append s.metrics.errors
      (Message.data_loss s.total_bytes_verified_payload_by_reader expected),
)

-- The end of `ProcessFile` drops no response.
pub finish_step-dropped :
    (expected : ℕ) (duration_ms : ℤ) (s : System)
    → dropped (finish_step expected duration_ms s).metrics.errors ≡ dropped s.metrics.errors
unfolding finish_step set_total_transaction_time_ms
finish_step-dropped expected duration_ms s = omega (
  arith,
  total_check-dropped expected (final_status s) _,
  status_check-dropped (final_status s) _,
  leftover_check-dropped s,
)
