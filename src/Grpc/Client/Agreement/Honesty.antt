-- ===== src/Grpc/Client/Agreement/Honesty.antt =====
-- Against the server of this program no verification of the client fails.
use grpccapnp.Base.{ℕ, suc, ◌+◌, ◌^◌, ◌<◌, ◌≡◌, refl, subst, List, [], ◌∷◌, arith, length}
use grpccapnp.Common.ChunkReader.{ChunkReader}
use grpccapnp.Common.Metrics.{MetricsAggregator}
use grpccapnp.Grpc.Client.Agreement.Writing.{writer_step-Agrees}
use grpccapnp.Grpc.Client.Agreement.Serving.{server_step-Agrees}
use grpccapnp.Grpc.Client.Agreement.Reading.{reader_step-Agrees}
use grpccapnp.Grpc.Client.Mismatches.{mismatches}
use grpccapnp.Grpc.Client.{
  Message, System, World, Action, writer_moves, reader_moves, server_moves, stream_breaks, act, run,
  start,
}
use grpccapnp.Grpc.Client.Agreement.{Agrees}

pub act-Agrees :
    (r : ChunkReader) (bad n : ℕ) (world : World) (a : Action) (s : System)
    → suc n < 2 ^ 64
    → Agrees r bad n s
    → Agrees r bad (suc n) (act world a s)
unfolding act
act-Agrees r bad n world writer_moves s small h =
    writer_step-Agrees r bad n small world.byte_size s.writer s refl h.writer h
act-Agrees r bad n world reader_moves s small h =
    reader_step-Agrees r bad n world s.reader s h.reader h
act-Agrees r bad n world server_moves s small h = server_step-Agrees r bad n s.server s h
act-Agrees r bad n world stream_breaks s small h = record {
  counted = omega (arith, h.counted);
  writer = h.writer;
  reader = h.reader;
  requests = h.requests;
  responses = h.responses;
  entries = h.entries;
  logged = h.logged;
}

pub run-Agrees :
    (r : ChunkReader) (bad n : ℕ) (world : World) (actions : List Action) (s : System)
    → n + length actions < 2 ^ 64
    → Agrees r bad n s
    → Agrees r bad (n + length actions) (run world actions s)
unfolding run
run-Agrees r bad n world [] s small h = subst (λ k. Agrees r bad k s) (omega arith) h
run-Agrees r bad n world (a ∷ actions) s small h =
    subst (λ k. Agrees r bad k (run world actions (act world a s))) (omega arith)
      (run-Agrees r bad (suc n) world actions (act world a s) (omega arith)
        (act-Agrees r bad n world a s (omega arith) h))

-- Against the handler of the server of this program, under every schedule of fewer than 2 ^ 64 steps
-- and every break of the stream, whatever the file yields, no verification of the client fails: the
-- messages on a wrong size or content are as many as were logged before.
pub never_mismatched :
    (world : World) (actions : List Action) (file : ChunkReader)
    (metrics : MetricsAggregator Message)
    → length actions < 2 ^ 64
    → mismatches (run world actions (start file metrics)).metrics.errors ≡ mismatches metrics.errors
never_mismatched world actions file metrics small =
    (run-Agrees file (mismatches metrics.errors) 0 world actions (start file metrics) (omega arith)
      (record {
        counted = omega arith;
        writer = refl;
        reader = tt;
        requests = tt;
        responses = tt;
        entries = tt;
        logged = refl;
      })).logged
