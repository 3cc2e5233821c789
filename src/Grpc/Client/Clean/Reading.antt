-- ===== src/Grpc/Client/Clean/Reading.antt =====
-- The steps of the reader and of the server towards an end at which nothing is logged.
use grpccapnp.Base.{
  ℕ, zero, suc, ◌≤◌, ◌<◌, ◌≡◌, refl, sym, ap, ◌∙◌, subst, List, [], ◌∷◌, Option, none, some, arith,
  length, ◌||◌, Bool-cases, inl, inr, if◌then◌else◌, ◌⊎◌, length-append,
}
use grpccapnp.Common.Reversal.{reverse_bytes}
use grpccapnp.Base.Int.{ℤ}
use grpccapnp.Common.Metrics.{record_chunk_sent, record_chunk_rtt_us, log_error}
use grpccapnp.Grpc.Client.Finish.{finish_step-eq}
use grpccapnp.Grpc.Server.{ChunkRequest, ChunkResponse}
use grpccapnp.Grpc.Client.Inflight.{SentChunkInfo}
use grpccapnp.Grpc.Client.{
  ended, Reader, receiving, matching, verifying, joining, finishing, returned, Server, serving,
  done, System, World, take_response, match_found, verify_step, finish_step, no_such_request,
  reader_step, serve, server_step, size_mismatch, content_mismatch,
}
use grpccapnp.Grpc.Client.Agreement.Reading.{take_nothing}
use grpccapnp.Grpc.Client.Clean.{logged, logged-log, finish_step-clean}
use grpccapnp.Grpc.Client.Clean.Invariant.{Told, Joined, IsClean, same-Joined}

-- The flags stay, and messages only become more.
abbrev pub Calm : System → System → Type 0
Calm s t =
    (t.writer ≡ s.writer)
    × (t.writer_thread_finished_sending ≡ s.writer_thread_finished_sending)
    × (t.writer_stream_broken ≡ s.writer_stream_broken)
    × (t.stream.broken ≡ s.stream.broken)
    × (logged s ≤ logged t)

Calm-IsClean :
    (expected : ℕ) (s t : System)
    → Calm s t
    → Joined expected t.reader t
    → IsClean expected s
    → IsClean expected t
Calm-IsClean expected s t (w, sent, gave, broken, more) joined h = record {
  gave_up = λ e. elim (h.gave_up (sym gave ∙ e)) [
    | inl b ↦ inl (broken ∙ b)
    | inr l ↦ inr (omega (arith, l, more))
  ];
  told = rw (w, sent, gave) h.told;
  joined = joined;
}

zero_or_more : (n : ℕ) → (n ≡ 0) ⊎ (0 < n)
zero_or_more zero = inl refl
zero_or_more (suc n) = inr (omega arith)

join_ended :
    (world : World) (s : System)
    → ((reader_step world joining s ≡ record s { reader = finishing }) × (s.writer ≡ ended))
      ⊎ (reader_step world joining s ≡ s)
unfolding reader_step
join_ended world s = ground arith

module _ (expected : ℕ) where
  take_response-IsClean :
      (ps : List ChunkResponse) (s : System)
      → IsClean expected s
      → IsClean expected (take_response ps s)
  unfolding take_response
  take_response-IsClean [] s h = elim (take_nothing s) [
    | inl e ↦
        subst (IsClean expected) (sym e)
          (record { gave_up = h.gave_up; told = h.told; joined = tt })
    | inr e ↦ subst (IsClean expected) (sym e) h
  ]
  take_response-IsClean (p ∷ ps) s h = elim (Bool-cases s.stream.broken) [
    | inl broken ↦
        simp (broken, if◌then◌else◌)
          (record { gave_up = λ e. inl broken; told = h.told; joined = tt })
    | inr works ↦
        simp (works, if◌then◌else◌)
          (record {
            gave_up = λ e. elim (h.gave_up e) [
              | inl b ↦ absurd (ground (arith, b, works))
              | inr l ↦ inr l
            ];
            told = h.told;
            joined = tt;
          })
  ]

  match_found-IsClean :
      (p : ChunkResponse) (s : System) (o : Option SentChunkInfo)
      → IsClean expected s
      → IsClean expected (match_found p s o)
  unfolding match_found
  match_found-IsClean p s none h =
      let message =
        no_such_request p.original_client_chunk_id s.received_responses_count
          (length s.inflight_requests_map) in
      Calm-IsClean expected s _ (refl, refl, refl, refl, omega (arith, logged-log message s)) tt h
  match_found-IsClean p s (some info) h = record { gave_up = h.gave_up; told = h.told; joined = tt }

  verify_step-Calm :
      (rtt_us : ℕ → ℤ) (info : SentChunkInfo) (p : ChunkResponse) (s : System)
      → Calm s (verify_step rtt_us info p s) × ((verify_step rtt_us info p s).reader ≡ receiving)
  unfolding verify_step record_chunk_sent record_chunk_rtt_us log_error
  verify_step-Calm rtt_us info p s =
      let size =
        size_mismatch info.client_assigned_id
          (length (reverse_bytes info.original_data_for_verification))
          (length p.reversed_chunk_data) in
      ground (
        arith,
        length-append s.metrics.errors (size ∷ []),
        length-append s.metrics.errors (content_mismatch info.client_assigned_id ∷ []),
      )

  finish_step-IsClean :
      (duration : ℤ) (s : System)
      → s.writer ≡ ended
      → IsClean expected s
      → IsClean expected (finish_step expected duration s)
  finish_step-IsClean duration s is h =
      let (m, e, _) = finish_step-eq expected duration s in
      let told : Told ended s.writer_thread_finished_sending s.writer_stream_broken =
        subst (λ w. Told w s.writer_thread_finished_sending s.writer_stream_broken) is h.told in
      subst (IsClean expected) (sym e) (record {
        gave_up = λ g. elim (h.gave_up g) [
          | inl b ↦ inl b
          | inr l ↦ elim (zero_or_more (length m.errors)) [
            | inl z ↦
                absurd (omega (arith, l, finish_step-clean expected duration s (ap logged e ∙ z)))
            | inr p ↦ inr p
          ]
        ];
        told = h.told;
        joined = (
          is,
          λ z.
              let (quiet, empty, unbroken, all) =
                finish_step-clean expected duration s (ap logged e ∙ z) in
              elim (Bool-cases s.writer_stream_broken) [
                | inl g ↦ elim (h.gave_up g) [
                  | inl b ↦ absurd (ground (arith, b, unbroken))
                  | inr l ↦ absurd (omega (arith, l, quiet))
                ]
                | inr kept ↦ elim told [
                  | inl sent ↦ (empty, all sent kept)
                  | inr g ↦ absurd (ground (arith, g, kept))
                ]
              ],
        );
      })

pub reader_step-IsClean :
    (world : World) (v : Reader) (s : System)
    → Joined world.expected v s
    → IsClean world.expected s
    → IsClean world.expected (reader_step world v s)
unfolding reader_step
reader_step-IsClean world receiving s j h =
    take_response-IsClean world.expected s.stream.responses s h
reader_step-IsClean world (matching p) s j h = match_found-IsClean world.expected p s _ h
reader_step-IsClean world (verifying info p) s j h =
    let (calm, is) = verify_step-Calm world.expected world.rtt_us info p s in
    let t = verify_step world.rtt_us info p s in
    Calm-IsClean world.expected s t calm (subst (λ v. Joined world.expected v t) (sym is) tt) h
reader_step-IsClean world joining s j h = elim (join_ended world s) [
  | inl (e, over) ↦
      subst (IsClean world.expected) (sym e)
        (record { gave_up = h.gave_up; told = h.told; joined = over })
  | inr e ↦ subst (IsClean world.expected) (sym e) h
]
reader_step-IsClean world finishing s j h =
    finish_step-IsClean world.expected world.duration_ms s j h
reader_step-IsClean world returned s j h = h

serve-IsClean :
    (expected : ℕ) (qs : List ChunkRequest) (s : System)
    → IsClean expected s
    → IsClean expected (serve qs s)
unfolding serve
serve-IsClean expected [] s h = elim (Bool-cases (s.stream.writes_done || s.stream.broken)) [
  | inl over ↦
      rw (over, if◌then◌else◌)
        (record {
          gave_up = h.gave_up;
          told = h.told;
          joined = same-Joined expected s.reader s _ refl refl (λ c. c) h.joined;
        })
  | inr open_still ↦ rw (open_still, if◌then◌else◌) h
]
serve-IsClean expected (q ∷ qs) s h = elim (Bool-cases s.stream.broken) [
  | inl broken ↦
      simp (broken, if◌then◌else◌)
        (record {
          gave_up = λ e. inl broken;
          told = h.told;
          joined = same-Joined expected s.reader s _ refl refl (λ c. c) h.joined;
        })
  | inr works ↦
      simp (works, if◌then◌else◌)
        (record {
          gave_up =
              λ e. elim (h.gave_up e) [ inl b ↦ absurd (ground (arith, b, works)) | inr l ↦ inr l ];
          told = h.told;
          joined = same-Joined expected s.reader s _ refl refl (λ c. c) h.joined;
        })
]

pub server_step-IsClean :
    (expected : ℕ) (v : Server) (s : System)
    → IsClean expected s
    → IsClean expected (server_step v s)
unfolding server_step
server_step-IsClean expected serving s h = serve-IsClean expected s.stream.requests s h
server_step-IsClean expected (done status) s h = h
