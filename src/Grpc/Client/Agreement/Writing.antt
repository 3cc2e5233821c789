-- ===== src/Grpc/Client/Agreement/Writing.antt =====
-- The steps of the writer keep what belongs together.
use grpccapnp.Base.{
  ℕ, suc, ◌+◌, ◌^◌, ◌<◌, ◌≡◌, refl, sym, ap, ◌∙◌, true, arith, Bytes, length, is_empty, not, ◌&&◌,
  ltb, Bool-cases, ◌⊎◌, inl, inr, if◌then◌else◌,
}
use grpccapnp.Common.ChunkReader.{ChunkReader, next_chunk, eof}
use grpccapnp.Common.Metrics.{u64}
use grpccapnp.Grpc.Client.Inflight.{SentChunkInfo, Entries-assign}
use grpccapnp.Grpc.Client.Mismatches.{mismatches-log_error}
use grpccapnp.Grpc.Client.{
  max_inflight_requests, Writer, waiting, reading, writing, recording, leaving, closing, ended,
  System, request_of, entry, empty_chunk_before_eof, read_step, write_step, close_step, writer_step,
}
use grpccapnp.Grpc.Client.Agreement.{
  after, chunk_of, Sent, Asks, WriterAgrees, Agrees, All-snoc, later-Agrees,
}

pub close_cases :
    (s : System)
    → (close_step s ≡ record s { writer = ended })
      ⊎ (close_step s
          ≡ record s { writer = ended; stream = record s.stream { writes_done = true } })
unfolding close_step
close_cases s = ground arith

module _ (r : ChunkReader) (bad n : ℕ) (small : suc n < 2 ^ 64) where
  read_chunk-Agrees :
      (byte_size : Bytes → ℕ → ℕ) (s : System)
      → s.file ≡ after r s.client_chunk_id_counter
      → Agrees r bad n s
      → Agrees r bad (suc n) (
          let id = u64 (s.client_chunk_id_counter + 1) in
          record s {
            file = (next_chunk s.file).0;
            client_chunk_id_counter = id;
            writer = writing (entry byte_size id (next_chunk s.file).1);
          })
  unfolding entry
  read_chunk-Agrees byte_size s at_file a =
      let id : u64 (s.client_chunk_id_counter + 1) ≡ suc s.client_chunk_id_counter =
        omega (arith, a.counted, small) in
      let chunk : (next_chunk s.file).1 ≡ chunk_of r (u64 (s.client_chunk_id_counter + 1)) =
        ap (λ f. (next_chunk f).1) at_file ∙ sym (ap (chunk_of r) id) in
      record {
        counted = omega (arith, id, a.counted);
        writer = (
          ap (λ f. (next_chunk f).0) at_file ∙ sym (ap (after r) id),
          (refl, chunk, ap length chunk),
        );
        reader = a.reader;
        requests = a.requests;
        responses = a.responses;
        entries = a.entries;
        logged = a.logged;
      }

  read_step-Agrees :
      (byte_size : Bytes → ℕ → ℕ) (s : System)
      → s.file ≡ after r s.client_chunk_id_counter
      → Agrees r bad n s
      → Agrees r bad (suc n) (read_step byte_size s)
  unfolding read_step
  read_step-Agrees byte_size s at_file a =
      let file = (next_chunk s.file).0 in
      let chunk = (next_chunk s.file).1 in
      elim (Bool-cases (is_empty chunk && eof file)) [
        | inl at_end ↦
            rw (at_end, if◌then◌else◌)
              (record {
                counted = omega (arith, a.counted);
                writer = tt;
                reader = a.reader;
                requests = a.requests;
                responses = a.responses;
                entries = a.entries;
                logged = a.logged;
              })
        | inr more ↦ elim (Bool-cases (is_empty chunk && not (eof file))) [
          | inl fails ↦
              rw (more, fails, if◌then◌else◌)
                (record {
                  counted = omega (arith, a.counted);
                  writer = tt;
                  reader = a.reader;
                  requests = a.requests;
                  responses = a.responses;
                  entries = a.entries;
                  logged =
                      omega
                        (arith, a.logged, mismatches-log_error empty_chunk_before_eof s.metrics);
                })
          | inr goes ↦ rw (more, goes, if◌then◌else◌) (read_chunk-Agrees byte_size s at_file a)
        ]
      ]

  write_step-Agrees :
      (info : SentChunkInfo) (s : System)
      → WriterAgrees r s.client_chunk_id_counter s.file (writing info)
      → Agrees r bad n s
      → Agrees r bad (suc n) (write_step info s)
  unfolding write_step
  write_step-Agrees info s (at_file, (id, chunk, size)) a = elim (Bool-cases s.stream.broken) [
    | inl broken ↦
        rw (broken, if◌then◌else◌)
          (record {
            counted = omega (arith, a.counted);
            writer = tt;
            reader = a.reader;
            requests = a.requests;
            responses = a.responses;
            entries = a.entries;
            logged = a.logged;
          })
    | inr works ↦
        simp (works, if◌then◌else◌)
          (record {
            counted = omega (arith, a.counted);
            writer = (at_file, (id, chunk, size));
            reader = a.reader;
            requests =
                All-snoc (Asks r) s.stream.requests (request_of info) a.requests
                  (chunk ∙ sym (ap (chunk_of r) id));
            responses = a.responses;
            entries = a.entries;
            logged = a.logged;
          })
  ]

  close_step-Agrees : (s : System) → Agrees r bad n s → Agrees r bad (suc n) (close_step s)
  unfolding close_step
  close_step-Agrees s a = elim (Bool-cases s.writer_stream_broken) [
    | inl broken ↦
        rw (broken, if◌then◌else◌)
          (record {
            counted = omega (arith, a.counted);
            writer = tt;
            reader = a.reader;
            requests = a.requests;
            responses = a.responses;
            entries = a.entries;
            logged = a.logged;
          })
    | inr works ↦
        simp (works, if◌then◌else◌)
          (record {
            counted = omega (arith, a.counted);
            writer = tt;
            reader = a.reader;
            requests = a.requests;
            responses = a.responses;
            entries = a.entries;
            logged = a.logged;
          })
  ]

  pub writer_step-Agrees :
      (byte_size : Bytes → ℕ → ℕ) (w : Writer) (s : System)
      → s.writer ≡ w
      → WriterAgrees r s.client_chunk_id_counter s.file w
      → Agrees r bad n s
      → Agrees r bad (suc n) (writer_step byte_size w s)
  unfolding writer_step
  writer_step-Agrees byte_size waiting s is at_file a =
      elim (Bool-cases (ltb (length s.inflight_requests_map) max_inflight_requests)) [
        | inl room ↦
            rw (room, if◌then◌else◌)
              (record {
                counted = omega (arith, a.counted);
                writer = at_file;
                reader = a.reader;
                requests = a.requests;
                responses = a.responses;
                entries = a.entries;
                logged = a.logged;
              })
        | inr full ↦ rw (full, if◌then◌else◌) (later-Agrees r bad n s a)
      ]
  writer_step-Agrees byte_size reading s is at_file a = read_step-Agrees byte_size s at_file a
  writer_step-Agrees byte_size (writing info) s is sent a = write_step-Agrees info s sent a
  writer_step-Agrees byte_size (recording info) s is (at_file, (id, chunk, size)) a = record {
    counted = omega (arith, a.counted);
    writer = at_file;
    reader = a.reader;
    requests = a.requests;
    responses = a.responses;
    entries =
        Entries-assign (Sent r) info.client_assigned_id info s.inflight_requests_map
          (refl, chunk ∙ sym (ap (chunk_of r) id), size ∙ sym (ap (λ k. length (chunk_of r k)) id))
          a.entries;
    logged = a.logged;
  }
  writer_step-Agrees byte_size leaving s is free a = record {
    counted = omega (arith, a.counted);
    writer = tt;
    reader = a.reader;
    requests = a.requests;
    responses = a.responses;
    entries = a.entries;
    logged = a.logged;
  }
  writer_step-Agrees byte_size closing s is free a = close_step-Agrees s a
  writer_step-Agrees byte_size ended s is free a = later-Agrees r bad n s a
