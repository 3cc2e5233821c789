-- ===== src/Grpc/Client/Fair/Accounts.antt =====
-- Where the bytes of the file are at the end of a fair run.
use grpccapnp.Base.{
  ℕ, ◌+◌, ◌*◌, ◌^◌, ◌≤◌, ◌<◌, ◌≡◌, sym, ap, subst, inl, inr, String, List, [], ◌∷◌, arith, length,
  flatten, All,
}
use mathlib.Core.List.{Memᴰ}
use mathlib.Core.List.Memᴰ
use grpccapnp.Base.Chunks.{chunks_of}
use grpccapnp.Common.Stream.{File, IsSound}
use grpccapnp.Common.ChunkReader.WholeFile.{fresh}
use grpccapnp.Common.Metrics.{MetricsAggregator}
use grpccapnp.Grpc.Client.Inflight.{payload}
use grpccapnp.Grpc.Client.{
  Message, max_inflight_requests, ended, returned, System, World, Action, stream_breaks, act, run,
  start,
}
use grpccapnp.Grpc.Client.Balance.{held_by_reader}
use grpccapnp.Grpc.Client.Balance.Completion.{file_accounted}
use grpccapnp.Grpc.Client.Clean.Invariant.{Joined, IsClean}
use grpccapnp.Grpc.Client.Clean.Verified.{run-IsClean}
use grpccapnp.Grpc.Client.Schedule.{run-append}
use grpccapnp.Grpc.Client.Tally.{dropped}
use grpccapnp.Grpc.Client.Tally.Completion.{drops_are_left}
use grpccapnp.Grpc.Client.Fair.{IsAlive}
use grpccapnp.Grpc.Client.Fair.Moves.{act-Moves}
use grpccapnp.Grpc.Client.Fair.Termination.{IsFair, start-IsAlive, fair_schedule_ends}

run-IsAlive :
    (world : World) (segment : List Action) (s : System)
    → ¬ Memᴰ stream_breaks segment
    → IsAlive s
    → IsAlive (run world segment s)
unfolding run
run-IsAlive world [] s still h = h
run-IsAlive world (a ∷ segment) s still h =
    let kept : IsAlive (act world a s) =
      elim (act-Moves world a s (λ e. still (Memᴰ.head (sym e))) h) [
        | inl waits ↦ subst IsAlive (sym waits) h
        | inr (alive, _) ↦ alive
      ] in
    run-IsAlive world segment (act world a s) (λ m. still (Memᴰ.tail m)) kept

segments-IsAlive :
    (world : World) (segments : List (List Action)) (s : System)
    → All IsFair segments
    → IsAlive s
    → IsAlive (run world (flatten segments) s)
unfolding run flatten
segments-IsAlive world [] s fair h = h
segments-IsAlive world (segment ∷ segments) s ((_, _, _, still), fair) h =
    subst IsAlive (sym (run-append world segment (flatten segments) s)) (
      segments-IsAlive world segments (run world segment s) fair
        (run-IsAlive world segment s still h))

-- `ProcessFile` returns behind the join.
joined_ended :
    (world : World) (actions : List Action) (s : System)
    → IsClean world.expected s
    → (run world actions s).reader ≡ returned
    → (run world actions s).writer ≡ ended
joined_ended world actions s h over =
    let joined : Joined world.expected returned (run world actions s) =
      subst (λ v. Joined world.expected v (run world actions s)) over
        (run-IsClean world actions s h).joined in
    joined.0

segments_still :
    (segments : List (List Action)) → All IsFair segments → ¬ Memᴰ stream_breaks (flatten segments)
unfolding flatten
segments_still [] fair m = elim m [ ]
segments_still (segment ∷ segments) ((_, _, _, still), fair) m =
    elim (Memᴰ.append_cases segment m) [
      | inl here ↦ still here
      | inr there ↦ segments_still segments fair there
    ]

-- For a file of fewer than 2 ^ 64 bytes that reads to its end, cut into fewer than
-- `MAX_INFLIGHT_REQUESTS` chunks of more than 0 bytes, under every schedule of fewer than 2 ^ 64 steps
-- made of at least 10 segments for each chunk and 8 more, in each of which each thread moves and the
-- stream does not break: `ProcessFile` has returned, each byte of the file has either been verified or
-- belongs to a request left in the map, and the requests left are as many as the messages on a
-- dropped response that were logged. So without such a message the whole file is verified.
pub fair_schedule_accounts :
    (world : World) (segments : List (List Action)) (name : String) (n : ℕ) (f : File)
    (metrics : MetricsAggregator Message)
    → IsSound f
    → 0 < n
    → length f.bytes < 2 ^ 64
    → length (flatten segments) < 2 ^ 64
    → length (chunks_of n f.bytes) < max_inflight_requests
    → All IsFair segments
    → 10 * length (chunks_of n f.bytes) + 8 ≤ length segments
    → let s = run world (flatten segments) (start (fresh name n f) metrics) in
      (s.reader ≡ returned)
      × (s.total_bytes_verified_payload_by_reader + payload s.inflight_requests_map
          ≡ length f.bytes)
      × (length s.inflight_requests_map + dropped metrics.errors ≡ dropped s.metrics.errors)
fair_schedule_accounts world segments name n f metrics sound p fits short few fair many =
    let s₀ = start (fresh name n f) metrics in
    let s = run world (flatten segments) s₀ in
    let over = fair_schedule_ends world segments name n f metrics sound p few fair many in
    let closed : s.writer ≡ ended =
      joined_ended world (flatten segments) s₀
        (record { gave_up = λ e. absurd (ground (arith, e)); told = tt; joined = tt }) over in
    let alive : IsAlive s =
      segments-IsAlive world segments s₀ fair (start-IsAlive name n f metrics sound p few) in
    (
      over,
      omega (
        arith,
        file_accounted world (flatten segments) name n f metrics sound p fits short closed
            alive.kept,
        ap held_by_reader over,
      ),
      drops_are_left world (flatten segments) name n f metrics sound p fits short
          (segments_still segments fair) over,
    )
