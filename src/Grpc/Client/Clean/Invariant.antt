-- ===== src/Grpc/Client/Clean/Invariant.antt =====
-- What holds at each step of a run towards an end at which nothing is logged.
use grpccapnp.Base.{
  ℕ, ◌<◌, ◌≡◌, refl, sym, ◌∙◌, subst, Bool, true, arith, Bytes, length, is_empty, not, ◌&&◌, ltb,
  Bool-cases, inl, inr, if◌then◌else◌, ◌⊎◌, ◌≢◌,
}
use grpccapnp.Common.ChunkReader.{next_chunk, eof}
use grpccapnp.Grpc.Client.Inflight.{SentChunkInfo}
use grpccapnp.Grpc.Client.{
  max_inflight_requests, Writer, waiting, reading, writing, recording, leaving, closing, ended,
  Reader, receiving, matching, verifying, joining, finishing, returned, System,
  empty_chunk_before_eof, read_step, write_step, writer_step,
}
use grpccapnp.Grpc.Client.Agreement.Writing.{close_cases}
use grpccapnp.Grpc.Client.Clean.{logged, Clean, logged-log}

-- A writer that has told that it is finished has said so, or gave up.
abbrev pub Told : Writer → Bool → Bool → Type 0
Told closing sent gave_up = (sent ≡ true) ⊎ (gave_up ≡ true)
Told ended sent gave_up = (sent ≡ true) ⊎ (gave_up ≡ true)
Told _ sent gave_up = Unit {0}

-- Behind the join the writer has ended, and once `ProcessFile` has returned, nothing logged means
-- that all is verified.
abbrev pub Joined : ℕ → Reader → System → Type 0
Joined expected finishing s = s.writer ≡ ended
Joined expected returned s = (s.writer ≡ ended) × (logged s ≡ 0 → Clean expected s)
Joined expected _ s = Unit {0}

pub record IsClean (expected : ℕ) (s : System) : Type 0 where
  pub gave_up : s.writer_stream_broken ≡ true → (s.stream.broken ≡ true) ⊎ (0 < logged s)
  pub told : Told s.writer s.writer_thread_finished_sending s.writer_stream_broken
  pub joined : Joined expected s.reader s

pub same-Joined :
    (expected : ℕ) (v : Reader) (s t : System)
    → t.writer ≡ s.writer
    → logged t ≡ logged s
    → (Clean expected s → Clean expected t)
    → Joined expected v s
    → Joined expected v t
same-Joined expected receiving s t w l c h = tt
same-Joined expected (matching p) s t w l c h = tt
same-Joined expected (verifying info p) s t w l c h = tt
same-Joined expected joining s t w l c h = tt
same-Joined expected finishing s t w l c h = w ∙ h
same-Joined expected returned s t w l c (e, clean) = (w ∙ e, λ z. c (clean (sym l ∙ z)))

pub unjoined :
    (expected : ℕ) (v : Reader) (s t : System)
    → s.writer ≢ ended
    → Joined expected v s
    → Joined expected v t
unjoined expected receiving s t ne h = tt
unjoined expected (matching p) s t ne h = tt
unjoined expected (verifying info p) s t ne h = tt
unjoined expected joining s t ne h = tt
unjoined expected finishing s t ne h = absurd (ne h)
unjoined expected returned s t ne h = absurd (ne h.0)

module _ (expected : ℕ) (byte_size : Bytes → ℕ → ℕ) where
  read_step-IsClean :
      (s : System)
      → s.writer ≡ reading
      → IsClean expected s
      → IsClean expected (read_step byte_size s)
  unfolding read_step
  read_step-IsClean s is h =
      let file = (next_chunk s.file).0 in
      let chunk = (next_chunk s.file).1 in
      let going : s.writer ≢ ended = λ e. cc in
      elim (Bool-cases (is_empty chunk && eof file)) [
        | inl at_end ↦
            simp (at_end, if◌then◌else◌)
              (record {
                gave_up = h.gave_up;
                told = tt;
                joined = unjoined expected s.reader s _ going h.joined;
              })
        | inr more ↦ elim (Bool-cases (is_empty chunk && not (eof file))) [
          | inl fails ↦
              simp (more, fails, if◌then◌else◌)
                (record {
                  gave_up = λ e. inr (omega (arith, logged-log empty_chunk_before_eof s));
                  told = inr refl;
                  joined = unjoined expected s.reader s _ going h.joined;
                })
          | inr goes ↦
              simp (more, goes, if◌then◌else◌)
                (record {
                  gave_up = h.gave_up;
                  told = tt;
                  joined = unjoined expected s.reader s _ going h.joined;
                })
        ]
      ]

  write_step-IsClean :
      (info : SentChunkInfo) (s : System)
      → s.writer ≡ writing info
      → IsClean expected s
      → IsClean expected (write_step info s)
  unfolding write_step
  write_step-IsClean info s is h =
      let going : s.writer ≢ ended = λ e. cc in
      elim (Bool-cases s.stream.broken) [
        | inl broken ↦
            simp (broken, if◌then◌else◌)
              (record {
                gave_up = λ e. inl broken;
                told = tt;
                joined = unjoined expected s.reader s _ going h.joined;
              })
        | inr works ↦
            simp (works, if◌then◌else◌)
              (record {
                gave_up = λ e. elim (h.gave_up e) [
                  | inl b ↦ absurd (ground (arith, b, works))
                  | inr l ↦ inr l
                ];
                told = tt;
                joined = unjoined expected s.reader s _ going h.joined;
              })
      ]

  pub writer_step-IsClean :
      (w : Writer) (s : System)
      → s.writer ≡ w
      → Told w s.writer_thread_finished_sending s.writer_stream_broken
      → IsClean expected s
      → IsClean expected (writer_step byte_size w s)
  unfolding writer_step
  writer_step-IsClean waiting s is told h =
      elim (Bool-cases (ltb (length s.inflight_requests_map) max_inflight_requests)) [
        | inl room ↦
            rw (room, if◌then◌else◌)
              (record {
                gave_up = h.gave_up;
                told = tt;
                joined = unjoined expected s.reader s _ (λ e. cc) h.joined;
              })
        | inr full ↦ simp (full, if◌then◌else◌) h
      ]
  writer_step-IsClean reading s is told h = read_step-IsClean s is h
  writer_step-IsClean (writing info) s is told h = write_step-IsClean info s is h
  writer_step-IsClean (recording info) s is told h = record {
    gave_up = h.gave_up;
    told = tt;
    joined = unjoined expected s.reader s _ (λ e. cc) h.joined;
  }
  writer_step-IsClean leaving s is told h = record {
    gave_up = h.gave_up;
    told = inl refl;
    joined = unjoined expected s.reader s _ (λ e. cc) h.joined;
  }
  writer_step-IsClean closing s is told h = elim (close_cases s) [
    | inl e ↦ subst (IsClean expected) (sym e) (record {
      gave_up = h.gave_up;
      told = told;
      joined = unjoined expected s.reader s _ (λ e. cc) h.joined;
    })
    | inr e ↦ subst (IsClean expected) (sym e) (record {
      gave_up = h.gave_up;
      told = told;
      joined = unjoined expected s.reader s _ (λ e. cc) h.joined;
    })
  ]
  writer_step-IsClean ended s is told h = h
