-- ===== src/Grpc/Client/Agreement/Reading.antt =====
-- The steps of the reader keep what belongs together.
use grpccapnp.Base.{
  ℕ, suc, ◌≡◌, refl, sym, ap, ◌∙◌, subst, List, [], ◌∷◌, Option, none, some, arith, length, reverse,
  All, Bool-cases, inl, inr, if◌then◌else◌, ◌⊎◌, bytes_eq_refl, ==_refl,
}
use grpccapnp.Common.Reversal.{reverse_bytes}
use grpccapnp.Common.ChunkReader.{ChunkReader}
use grpccapnp.Base.Int.{ℤ}
use grpccapnp.Common.Metrics.{record_chunk_sent, record_chunk_rtt_us}
use grpccapnp.Grpc.Client.Finish.{finish_step-eq}
use grpccapnp.Grpc.Server.{ChunkResponse}
use grpccapnp.Grpc.Client.Inflight.{SentChunkInfo, find, Entries-erase, Entries-find}
use grpccapnp.Grpc.Client.Mismatches.{mismatches-log_error}
use grpccapnp.Grpc.Client.{
  Reader, receiving, matching, verifying, joining, finishing, returned, System, World,
  take_response, match_found, verify_step, finish_step, no_such_request, reader_step,
}
use grpccapnp.Grpc.Client.Agreement.{Sent, Answers, ReaderAgrees, Agrees, later-Agrees}

-- A response that answers a request is the reversal that the reader expects.
pub expected_received :
    (r : ChunkReader) (info : SentChunkInfo) (p : ChunkResponse)
    → Sent r p.original_client_chunk_id info
    → Answers r p
    → p.reversed_chunk_data ≡ reverse info.original_data_for_verification
expected_received r info p (_, chunk, _) answers = answers ∙ sym (ap reverse chunk)

pub take_nothing :
    (s : System) → (take_response [] s ≡ record s { reader = joining }) ⊎ (take_response [] s ≡ s)
unfolding take_response
take_nothing s = ground arith

pub join_writer :
    (world : World) (s : System)
    → (reader_step world joining s ≡ record s { reader = finishing })
      ⊎ (reader_step world joining s ≡ s)
unfolding reader_step
join_writer world s = ground arith

module _ (r : ChunkReader) (bad n : ℕ) where
  move-Agrees :
      (s : System) (w : Reader)
      → ReaderAgrees r w
      → Agrees r bad n s
      → Agrees r bad (suc n) (record s { reader = w })
  move-Agrees s w free a = record {
    counted = omega (arith, a.counted);
    writer = a.writer;
    reader = free;
    requests = a.requests;
    responses = a.responses;
    entries = a.entries;
    logged = a.logged;
  }

  take_response-Agrees :
      (ps : List ChunkResponse) (s : System)
      → All (Answers r) ps
      → Agrees r bad n s
      → Agrees r bad (suc n) (take_response ps s)
  unfolding take_response
  take_response-Agrees [] s h a = elim (take_nothing s) [
    | inl over ↦ subst (Agrees r bad (suc n)) (sym over) (move-Agrees s joining tt a)
    | inr idle ↦ subst (Agrees r bad (suc n)) (sym idle) (later-Agrees r bad n s a)
  ]
  take_response-Agrees (p ∷ ps) s h a = elim (Bool-cases s.stream.broken) [
    | inl broken ↦ simp (broken, if◌then◌else◌) (move-Agrees s joining tt a)
    | inr works ↦
        simp (works, if◌then◌else◌)
          (record {
            counted = omega (arith, a.counted);
            writer = a.writer;
            reader = h.0;
            requests = a.requests;
            responses = h.1;
            entries = a.entries;
            logged = a.logged;
          })
  ]

  match_found-Agrees :
      (p : ChunkResponse) (s : System) (o : Option SentChunkInfo)
      → find p.original_client_chunk_id s.inflight_requests_map ≡ o
      → Answers r p
      → Agrees r bad n s
      → Agrees r bad (suc n) (match_found p s o)
  unfolding match_found
  match_found-Agrees p s none is answers a = record {
    counted = omega (arith, a.counted);
    writer = a.writer;
    reader = tt;
    requests = a.requests;
    responses = a.responses;
    entries = a.entries;
    logged = omega (
      arith,
      a.logged,
      mismatches-log_error
          (no_such_request p.original_client_chunk_id s.received_responses_count
            (length s.inflight_requests_map))
          s.metrics,
    );
  }
  match_found-Agrees p s (some info) is answers a = record {
    counted = omega (arith, a.counted);
    writer = a.writer;
    reader = (
      Entries-find (Sent r) p.original_client_chunk_id s.inflight_requests_map info a.entries is,
      answers,
    );
    requests = a.requests;
    responses = a.responses;
    entries = Entries-erase (Sent r) p.original_client_chunk_id s.inflight_requests_map a.entries;
    logged = a.logged;
  }

  verify_step-Agrees :
      (rtt_us : ℕ → ℤ) (info : SentChunkInfo) (p : ChunkResponse) (s : System)
      → Sent r p.original_client_chunk_id info
      → Answers r p
      → Agrees r bad n s
      → Agrees r bad (suc n) (verify_step rtt_us info p s)
  unfolding verify_step reverse_bytes record_chunk_sent record_chunk_rtt_us
  verify_step-Agrees rtt_us info p s sent answers a =
      rw
        (
          expected_received r info p sent answers,
          ==_refl (length (reverse info.original_data_for_verification)),
          bytes_eq_refl (reverse info.original_data_for_verification),
          if◌then◌else◌,
        )
        (record {
          counted = omega (arith, a.counted);
          writer = a.writer;
          reader = tt;
          requests = a.requests;
          responses = a.responses;
          entries = a.entries;
          logged = a.logged;
        })

  finish_step-Agrees :
      (expected : ℕ) (duration : ℤ) (s : System)
      → Agrees r bad n s
      → Agrees r bad (suc n) (finish_step expected duration s)
  finish_step-Agrees expected duration s a =
      let (m, is, same) = finish_step-eq expected duration s in
      subst (Agrees r bad (suc n)) (sym is) (record {
        counted = omega (arith, a.counted);
        writer = a.writer;
        reader = tt;
        requests = a.requests;
        responses = a.responses;
        entries = a.entries;
        logged = same ∙ a.logged;
      })

  pub reader_step-Agrees :
      (world : World) (w : Reader) (s : System)
      → ReaderAgrees r w
      → Agrees r bad n s
      → Agrees r bad (suc n) (reader_step world w s)
  unfolding reader_step
  reader_step-Agrees world receiving s h a = take_response-Agrees s.stream.responses s a.responses a
  reader_step-Agrees world (matching p) s h a = match_found-Agrees p s _ refl h a
  reader_step-Agrees world (verifying info p) s (sent, answers) a =
      verify_step-Agrees world.rtt_us info p s sent answers a
  reader_step-Agrees world joining s h a = elim (join_writer world s) [
    | inl ends ↦ subst (Agrees r bad (suc n)) (sym ends) (move-Agrees s finishing tt a)
    | inr idle ↦ subst (Agrees r bad (suc n)) (sym idle) (later-Agrees r bad n s a)
  ]
  reader_step-Agrees world finishing s h a = finish_step-Agrees world.expected world.duration_ms s a
  reader_step-Agrees world returned s h a = later-Agrees r bad n s a
