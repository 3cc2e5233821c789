-- ===== src/Grpc/Client/Balance/Reading.antt =====
-- The steps of the reader and of the server keep the balance.
use grpccapnp.Base.{
  ℕ, ◌^◌, ◌<◌, ◌≡◌, refl, sym, subst, List, [], ◌∷◌, Option, none, some, arith, length, reverse,
  ◌||◌, Bool-cases, inl, inr, if◌then◌else◌, bytes_eq_refl, ==_refl,
}
use grpccapnp.Common.Reversal.{reverse_bytes}
use grpccapnp.Common.ChunkReader.{ChunkReader}
use grpccapnp.Base.Int.{ℤ}
use grpccapnp.Grpc.Client.Finish.{finish_step-eq}
use grpccapnp.Grpc.Server.{ChunkRequest, ChunkResponse}
use grpccapnp.Grpc.Client.Inflight.{SentChunkInfo, find, erase_found}
use grpccapnp.Grpc.Client.{
  Reader, receiving, matching, verifying, joining, finishing, returned, Server, serving, done,
  System, World, take_response, match_found, verify_step, finish_step, reader_step, serve,
  server_step,
}
use grpccapnp.Grpc.Client.Agreement.{Sent, Answers, ReaderAgrees}
use grpccapnp.Grpc.Client.Agreement.Reading.{expected_received, take_nothing, join_writer}
use grpccapnp.Grpc.Client.Balance.{total, Balance, Keys, IsBalanced, Keys-erase}

module _ (r : ChunkReader) where
  move-IsBalanced :
      (s : System) (v : Reader)
      → Keys s.writer s.client_chunk_id_counter s.inflight_requests_map
      → Balance r s s.writer v
      → IsBalanced r (record s { reader = v })
  move-IsBalanced s v keys balance = record { keys = keys; balance = balance }

  stay-IsBalanced :
      (s : System) (v : Reader)
      → s.reader ≡ v
      → Keys s.writer s.client_chunk_id_counter s.inflight_requests_map
      → Balance r s s.writer v
      → IsBalanced r s
  stay-IsBalanced s v is keys balance = record {
    keys = keys;
    balance = subst (Balance r s s.writer) (sym is) balance;
  }

  take_response-IsBalanced :
      (ps : List ChunkResponse) (s : System)
      → s.reader ≡ receiving
      → Keys s.writer s.client_chunk_id_counter s.inflight_requests_map
      → Balance r s s.writer receiving
      → IsBalanced r (take_response ps s)
  unfolding take_response
  take_response-IsBalanced [] s is keys balance = elim (take_nothing s) [
    | inl over ↦ subst (IsBalanced r) (sym over) (move-IsBalanced s joining keys balance)
    | inr idle ↦ subst (IsBalanced r) (sym idle) (stay-IsBalanced s receiving is keys balance)
  ]
  take_response-IsBalanced (p ∷ ps) s is keys balance = elim (Bool-cases s.stream.broken) [
    | inl broken ↦ simp (broken, if◌then◌else◌) (move-IsBalanced s joining keys balance)
    | inr works ↦ simp (works, if◌then◌else◌) (record { keys = keys; balance = balance })
  ]

  match_found-IsBalanced :
      (p : ChunkResponse) (s : System) (o : Option SentChunkInfo)
      → find p.original_client_chunk_id s.inflight_requests_map ≡ o
      → Keys s.writer s.client_chunk_id_counter s.inflight_requests_map
      → Balance r s s.writer receiving
      → IsBalanced r (match_found p s o)
  unfolding match_found
  match_found-IsBalanced p s none is keys balance = record { keys = keys; balance = balance }
  match_found-IsBalanced p s (some info) is keys balance =
      let (_, taken) = erase_found p.original_client_chunk_id s.inflight_requests_map info is in
      record {
        keys =
            Keys-erase s.writer s.client_chunk_id_counter p.original_client_chunk_id
              s.inflight_requests_map keys;
        balance = elim balance [ inl b ↦ inl b | inr e ↦ inr (omega (arith, e, taken)) ];
      }

  verify_step-IsBalanced :
      (rtt_us : ℕ → ℤ) (info : SentChunkInfo) (p : ChunkResponse) (s : System)
      → total r s.client_chunk_id_counter < 2 ^ 64
      → Sent r p.original_client_chunk_id info
      → Answers r p
      → Keys s.writer s.client_chunk_id_counter s.inflight_requests_map
      → Balance r s s.writer (verifying info p)
      → IsBalanced r (verify_step rtt_us info p s)
  unfolding verify_step reverse_bytes
  verify_step-IsBalanced rtt_us info p s small sent answers keys balance =
      rw
        (
          expected_received r info p sent answers,
          ==_refl (length (reverse info.original_data_for_verification)),
          bytes_eq_refl (reverse info.original_data_for_verification),
          if◌then◌else◌,
        )
        (record {
          keys = keys;
          balance = elim balance [ inl b ↦ inl b | inr e ↦ inr (omega (arith, e, small)) ];
        })

  finish_step-IsBalanced :
      (expected : ℕ) (duration : ℤ) (s : System)
      → Keys s.writer s.client_chunk_id_counter s.inflight_requests_map
      → Balance r s s.writer finishing
      → IsBalanced r (finish_step expected duration s)
  finish_step-IsBalanced expected duration s keys balance =
      let (m, is, _) = finish_step-eq expected duration s in
      subst (IsBalanced r) (sym is) (record { keys = keys; balance = balance })

  pub reader_step-IsBalanced :
      (world : World) (v : Reader) (s : System)
      → s.reader ≡ v
      → total r s.client_chunk_id_counter < 2 ^ 64
      → ReaderAgrees r v
      → Keys s.writer s.client_chunk_id_counter s.inflight_requests_map
      → Balance r s s.writer v
      → IsBalanced r (reader_step world v s)
  unfolding reader_step
  reader_step-IsBalanced world receiving s is small agrees keys balance =
      take_response-IsBalanced s.stream.responses s is keys balance
  reader_step-IsBalanced world (matching p) s is small agrees keys balance =
      match_found-IsBalanced p s _ refl keys balance
  reader_step-IsBalanced world (verifying info p) s is small (sent, answers) keys balance =
      verify_step-IsBalanced world.rtt_us info p s small sent answers keys balance
  reader_step-IsBalanced world joining s is small agrees keys balance = elim (join_writer world s) [
    | inl ends ↦ subst (IsBalanced r) (sym ends) (move-IsBalanced s finishing keys balance)
    | inr idle ↦ subst (IsBalanced r) (sym idle) (stay-IsBalanced s joining is keys balance)
  ]
  reader_step-IsBalanced world finishing s is small agrees keys balance =
      finish_step-IsBalanced world.expected world.duration_ms s keys balance
  reader_step-IsBalanced world returned s is small agrees keys balance =
      stay-IsBalanced s returned is keys balance

  serve-IsBalanced :
      (qs : List ChunkRequest) (s : System) → IsBalanced r s → IsBalanced r (serve qs s)
  unfolding serve
  serve-IsBalanced [] s h = elim (Bool-cases (s.stream.writes_done || s.stream.broken)) [
    | inl over ↦ rw (over, if◌then◌else◌) (record { keys = h.keys; balance = h.balance })
    | inr open_still ↦ rw (open_still, if◌then◌else◌) h
  ]
  serve-IsBalanced (q ∷ qs) s h = elim (Bool-cases s.stream.broken) [
    | inl broken ↦ simp (broken, if◌then◌else◌) (record { keys = h.keys; balance = h.balance })
    | inr works ↦ simp (works, if◌then◌else◌) (record { keys = h.keys; balance = h.balance })
  ]

  pub server_step-IsBalanced :
      (v : Server) (s : System) → IsBalanced r s → IsBalanced r (server_step v s)
  unfolding server_step
  server_step-IsBalanced serving s h = serve-IsBalanced s.stream.requests s h
  server_step-IsBalanced (done status) s h = h
