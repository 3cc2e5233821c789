-- ===== src/Grpc/Client/Balance/Writing.antt =====
-- The steps of the writer keep the balance.
use grpccapnp.Base.{
  ℕ, suc, ◌+◌, ◌^◌, ◌≤◌, ◌<◌, ◌≡◌, refl, sym, ap, ◌∙◌, subst, none, arith, Bytes, length, is_empty,
  not, ◌&&◌, ltb, Bool-cases, inl, inr, if◌then◌else◌,
}
use grpccapnp.Common.ChunkReader.{ChunkReader, next_chunk, eof}
use grpccapnp.Common.Metrics.{u64}
use grpccapnp.Grpc.Client.Inflight.{SentChunkInfo, find, Entries, Entries-assign, assign_fresh}
use grpccapnp.Grpc.Client.{
  max_inflight_requests, Writer, waiting, reading, writing, recording, leaving, closing, ended,
  System, entry, read_step, write_step, close_step, writer_step,
}
use grpccapnp.Grpc.Client.Agreement.{after, chunk_of, WriterAgrees}
use grpccapnp.Grpc.Client.Agreement.Writing.{close_cases}
use grpccapnp.Grpc.Client.Balance.{Balance, Keys, IsBalanced, Entries-map, find_fresh}

module _ (r : ChunkReader) (bad n : ℕ) (small : suc n < 2 ^ 64) where
  read_step-IsBalanced :
      (byte_size : Bytes → ℕ → ℕ) (s : System)
      → s.file ≡ after r s.client_chunk_id_counter
      → s.client_chunk_id_counter ≤ n
      → Entries (λ k info. k ≤ s.client_chunk_id_counter) s.inflight_requests_map
      → Balance r s reading s.reader
      → IsBalanced r (read_step byte_size s)
  unfolding read_step entry
  read_step-IsBalanced byte_size s at_file counted keys balance =
      let file = (next_chunk s.file).0 in
      let chunk = (next_chunk s.file).1 in
      let id : u64 (s.client_chunk_id_counter + 1) ≡ suc s.client_chunk_id_counter =
        omega (arith, counted, small) in
      let size : length chunk ≡ length (chunk_of r (suc s.client_chunk_id_counter)) =
        ap (λ f. length (next_chunk f).1) at_file in
      elim (Bool-cases (is_empty chunk && eof file)) [
        | inl at_end ↦ simp (at_end, if◌then◌else◌) (record { keys = keys; balance = balance })
        | inr more ↦ elim (Bool-cases (is_empty chunk && not (eof file))) [
          | inl fails ↦
              simp (more, fails, if◌then◌else◌) (record { keys = keys; balance = inl refl })
          | inr goes ↦
              simp (more, goes, if◌then◌else◌, id)
                (record {
                  keys =
                      Entries-map _ _ s.inflight_requests_map (λ k info h. omega (arith, h)) keys;
                  balance = elim balance [ inl b ↦ inl b | inr e ↦ inr (omega (arith, e, size)) ];
                })
        ]
      ]

  write_step-IsBalanced :
      (info : SentChunkInfo) (s : System)
      → Entries (λ k info. k < s.client_chunk_id_counter) s.inflight_requests_map
      → Balance r s (writing info) s.reader
      → IsBalanced r (write_step info s)
  unfolding write_step
  write_step-IsBalanced info s keys balance = elim (Bool-cases s.stream.broken) [
    | inl broken ↦
        simp (broken, if◌then◌else◌)
          (record {
            keys = Entries-map _ _ s.inflight_requests_map (λ k info h. omega (arith, h)) keys;
            balance = inl refl;
          })
    | inr works ↦ simp (works, if◌then◌else◌) (record { keys = keys; balance = balance })
  ]

  recording-IsBalanced :
      (byte_size : Bytes → ℕ → ℕ) (info : SentChunkInfo) (s : System)
      → info.client_assigned_id ≡ s.client_chunk_id_counter
      → Entries (λ k info. k < s.client_chunk_id_counter) s.inflight_requests_map
      → Balance r s (recording info) s.reader
      → IsBalanced r (writer_step byte_size (recording info) s)
  unfolding writer_step
  recording-IsBalanced byte_size info s id keys balance =
      let m = s.inflight_requests_map in
      let fresh : find info.client_assigned_id m ≡ none =
        ap (λ k. find k m) id ∙ find_fresh s.client_chunk_id_counter m keys in
      let (_, added) = assign_fresh info.client_assigned_id info m fresh in
      record {
        keys =
            Entries-assign _ info.client_assigned_id info m (omega (arith, id))
              (Entries-map _ _ m (λ k info h. omega (arith, h)) keys);
        balance = elim balance [ inl b ↦ inl b | inr e ↦ inr (omega (arith, e, added)) ];
      }

  close_step-IsBalanced :
      (s : System)
      → Keys ended s.client_chunk_id_counter s.inflight_requests_map
      → Balance r s ended s.reader
      → IsBalanced r (close_step s)
  close_step-IsBalanced s keys balance = elim (close_cases s) [
    | inl e ↦ subst (IsBalanced r) (sym e) (record { keys = keys; balance = balance })
    | inr e ↦ subst (IsBalanced r) (sym e) (record { keys = keys; balance = balance })
  ]

  pub writer_step-IsBalanced :
      (byte_size : Bytes → ℕ → ℕ) (w : Writer) (s : System)
      → s.writer ≡ w
      → WriterAgrees r s.client_chunk_id_counter s.file w
      → s.client_chunk_id_counter ≤ n
      → Keys w s.client_chunk_id_counter s.inflight_requests_map
      → Balance r s w s.reader
      → IsBalanced r (writer_step byte_size w s)
  unfolding writer_step
  writer_step-IsBalanced byte_size waiting s is agrees counted keys balance =
      elim (Bool-cases (ltb (length s.inflight_requests_map) max_inflight_requests)) [
        | inl room ↦ rw (room, if◌then◌else◌) (record { keys = keys; balance = balance })
        | inr full ↦
            simp (full, if◌then◌else◌)
              (record {
                keys =
                    subst (λ w. Keys w s.client_chunk_id_counter s.inflight_requests_map) (sym is)
                      keys;
                balance = subst (λ w. Balance r s w s.reader) (sym is) balance;
              })
      ]
  writer_step-IsBalanced byte_size reading s is agrees counted keys balance =
      read_step-IsBalanced byte_size s agrees counted keys balance
  writer_step-IsBalanced byte_size (writing info) s is agrees counted keys balance =
      write_step-IsBalanced info s keys balance
  writer_step-IsBalanced byte_size (recording info) s is (_, sent) counted keys balance =
      recording-IsBalanced byte_size info s sent.0 keys balance
  writer_step-IsBalanced byte_size leaving s is agrees counted keys balance = record {
    keys = keys;
    balance = balance;
  }
  writer_step-IsBalanced byte_size closing s is agrees counted keys balance =
      close_step-IsBalanced s keys balance
  writer_step-IsBalanced byte_size ended s is agrees counted keys balance = record {
    keys = subst (λ w. Keys w s.client_chunk_id_counter s.inflight_requests_map) (sym is) keys;
    balance = subst (λ w. Balance r s w s.reader) (sym is) balance;
  }
