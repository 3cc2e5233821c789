-- ===== src/Grpc/Client/Agreement/Serving.antt =====
-- The steps of the server keep what belongs together.
use grpccapnp.Base.{
  ℕ, suc, ap, List, [], ◌∷◌, arith, reverse, ◌||◌, All, Bool-cases, inl, inr, if◌then◌else◌,
}
use grpccapnp.Common.Reversal.{reverse_bytes}
use grpccapnp.Common.ChunkReader.{ChunkReader}
use grpccapnp.Grpc.Server.{ChunkRequest, respond}
use grpccapnp.Grpc.Client.{Server, serving, done, System, serve, server_step}
use grpccapnp.Grpc.Client.Agreement.{Asks, Answers, Agrees, All-snoc, later-Agrees}

module _ (r : ChunkReader) (bad n : ℕ) where
  serve-Agrees :
      (qs : List ChunkRequest) (s : System)
      → All (Asks r) qs
      → Agrees r bad n s
      → Agrees r bad (suc n) (serve qs s)
  unfolding serve respond reverse_bytes
  serve-Agrees [] s h a = elim (Bool-cases (s.stream.writes_done || s.stream.broken)) [
    | inl over ↦
        rw (over, if◌then◌else◌)
          (record {
            counted = omega (arith, a.counted);
            writer = a.writer;
            reader = a.reader;
            requests = a.requests;
            responses = a.responses;
            entries = a.entries;
            logged = a.logged;
          })
    | inr open_still ↦ rw (open_still, if◌then◌else◌) (later-Agrees r bad n s a)
  ]
  serve-Agrees (q ∷ qs) s h a = elim (Bool-cases s.stream.broken) [
    | inl broken ↦
        rw (broken, if◌then◌else◌)
          (record {
            counted = omega (arith, a.counted);
            writer = a.writer;
            reader = a.reader;
            requests = a.requests;
            responses = a.responses;
            entries = a.entries;
            logged = a.logged;
          })
    | inr works ↦
        simp (works, if◌then◌else◌)
          (record {
            counted = omega (arith, a.counted);
            writer = a.writer;
            reader = a.reader;
            requests = h.1;
            responses =
                All-snoc (Answers r) s.stream.responses (respond q) a.responses (ap reverse h.0);
            entries = a.entries;
            logged = a.logged;
          })
  ]

  pub server_step-Agrees :
      (v : Server) (s : System) → Agrees r bad n s → Agrees r bad (suc n) (server_step v s)
  unfolding server_step
  server_step-Agrees serving s a = serve-Agrees s.stream.requests s a.requests a
  server_step-Agrees (done status) s a = later-Agrees r bad n s a
