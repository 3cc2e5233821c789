-- ===== src/Grpc/Client/Fair/Termination.antt =====
-- `ProcessFile` comes to its end when each thread moves again and again.
use grpccapnp.Base.{
  ℕ, ◌+◌, ◌*◌, ◌≤◌, ◌<◌, ◌≡◌, refl, sym, ap, ◌∙◌, subst, ◌⊎◌, inl, inr, String, List, [], ◌∷◌,
  arith, length, flatten, All,
}
use mathlib.Core.List.{Memᴰ}
use mathlib.Core.List.Memᴰ
use grpccapnp.Base.Chunks.{chunks_of}
use grpccapnp.Common.Stream.{File, IsSound}
use grpccapnp.Common.ChunkReader.WholeFile.{fresh, fresh-Delivered}
use grpccapnp.Common.Metrics.{MetricsAggregator}
use grpccapnp.Grpc.Client.{
  Message, max_inflight_requests, Reader, returned, System, World, Action, writer_moves,
  reader_moves, server_moves, stream_breaks, act, run, start,
}
use grpccapnp.Grpc.Client.Fair.{rank, IsAlive}
use grpccapnp.Grpc.Client.Fair.Moves.{act-Moves}
use grpccapnp.Grpc.Client.Fair.Idle.{all_idle}
use grpccapnp.Grpc.Client.Schedule.{run-append, run-returned}

-- Each thread moves, and the network keeps still.
abbrev pub IsFair : List Action → Type 0
IsFair segment =
    Memᴰ writer_moves segment
    × Memᴰ reader_moves segment
    × Memᴰ server_moves segment
    × (¬ Memᴰ stream_breaks segment)

abbrev Lowers : World → List Action → System → Type 0
Lowers world segment s = IsAlive (run world segment s) × (rank (run world segment s) < rank s)

-- Nobody in the segment can move.
abbrev Rests : World → List Action → System → Type 0
Rests world segment s =
    (run world segment s ≡ s) × ((a : Action) → Memᴰ a segment → act world a s ≡ s)

-- In a segment without a break, either every thread in it waits, or the measure falls.
run-cases :
    (world : World) (segment : List Action) (s : System)
    → ¬ Memᴰ stream_breaks segment
    → IsAlive s
    → Rests world segment s ⊎ Lowers world segment s
unfolding run
run-cases world [] s still h = inl (refl, λ a m. elim m [ ])
run-cases world (a ∷ segment) s still h =
    let t = act world a s in
    let later : IsAlive t → Rests world segment t ⊎ Lowers world segment t =
      run-cases world segment t (λ m. still (Memᴰ.tail m)) in
    elim (act-Moves world a s (λ e. still (Memᴰ.head (sym e))) h) [
      | inl waits ↦ elim (later (subst IsAlive (sym waits) h)) [
        | inl (rests, all) ↦ inl (
          rests ∙ waits,
          λ b m. elim (Memᴰ.cases_cons m) [
            | inl same ↦ ap (λ c. act world c s) same ∙ waits
            | inr there ↦ subst (λ q. act world b q ≡ q) waits (all b there)
          ],
        )
        | inr (alive, less) ↦ inr (alive, omega (arith, less, ap rank waits))
      ]
      | inr (alive, less) ↦ elim (later alive) [
        | inl (rests, _) ↦ inr (subst IsAlive (sym rests) alive, omega (arith, less, ap rank rests))
        | inr (alive', less') ↦ inr (alive', omega (arith, less, less'))
      ]
    ]

ranked : (r : Reader) (s : System) → s.reader ≡ r → rank s ≤ 0 → s.reader ≡ returned
ranked r s e h = ground arith

segments_return :
    (world : World) (segments : List (List Action)) (s : System)
    → All IsFair segments
    → IsAlive s
    → rank s ≤ length segments
    → (run world (flatten segments) s).reader ≡ returned
unfolding run flatten
segments_return world [] s fair h small = ranked s.reader s refl small
segments_return world (segment ∷ segments) s ((w, r, v, still), fair) h small =
    let t = run world segment s in
    let split = run-append world segment (flatten segments) s in
    ap (λ q. q.reader) split ∙ elim (run-cases world segment s still h) [
      | inl (rests, all) ↦ run-returned world (flatten segments) t (
          ap (λ q. q.reader) rests
          ∙ all_idle world s h (all writer_moves w) (all reader_moves r) (all server_moves v))
      | inr (alive, less) ↦ segments_return world segments t fair alive (omega (arith, less, small))
    ]

pub start-IsAlive :
    (name : String) (n : ℕ) (f : File) (metrics : MetricsAggregator Message)
    → IsSound f
    → 0 < n
    → length (chunks_of n f.bytes) < max_inflight_requests
    → IsAlive (start (fresh name n f) metrics)
start-IsAlive name n f metrics sound p few = record {
  works = refl;
  kept = refl;
  read = ([], fresh-Delivered name n f sound p);
  window = omega (arith, few);
  closes = tt;
}

-- For a file that reads to its end, cut into fewer than `MAX_INFLIGHT_REQUESTS` chunks of more than 0
-- bytes: under every schedule made of at least 10 segments for each chunk and 8 more, in each of
-- which the writer, the reader and the server move at least once, in any order and any number of
-- times, and the stream does not break, `ProcessFile` has returned at its end. No interleaving keeps
-- the threads waiting for one another for ever, even where responses overtake their requests.
pub fair_schedule_ends :
    (world : World) (segments : List (List Action)) (name : String) (n : ℕ) (f : File)
    (metrics : MetricsAggregator Message)
    → IsSound f
    → 0 < n
    → length (chunks_of n f.bytes) < max_inflight_requests
    → All IsFair segments
    → 10 * length (chunks_of n f.bytes) + 8 ≤ length segments
    → (run world (flatten segments) (start (fresh name n f) metrics)).reader ≡ returned
fair_schedule_ends world segments name n f metrics sound p few fair many =
    segments_return world segments (start (fresh name n f) metrics) fair
      (start-IsAlive name n f metrics sound p few) (omega (arith, many))
