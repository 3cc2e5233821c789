-- ===== src/Grpc/Server.antt =====
-- src/grpc_app/grpc_server.cpp, with the messages of src/benchmark.proto. The requests that
-- `stream->Read` yields are a list, and whether the i-th `stream->Write` succeeds is an argument.
pub mod Main
use grpccapnp.Base.{
  ℕ, zero, suc, ◌+◌, ◌<◌, ◌≡◌, refl, subst, Bool, true, false, List, [], ◌∷◌, map, Bytes, length,
  take, arith, if◌then◌else◌,
}
use grpccapnp.Common.Reversal.{reverse_bytes}

pub record ChunkRequest : Type 0 where
  pub data_chunk : Bytes
  pub client_assigned_chunk_id : ℕ

pub record ChunkResponse : Type 0 where
  pub reversed_chunk_data : Bytes
  pub original_client_chunk_id : ℕ

-- `Status::OK`, and the status code UNKNOWN.
pub data Status : Type 0 where
  ok unknown : Status

-- The response that the body of the loop builds for a request.
unfoldable pub respond : ChunkRequest → ChunkResponse
respond request = record {
  reversed_chunk_data = reverse_bytes request.data_chunk;
  original_client_chunk_id = request.client_assigned_chunk_id;
}

-- What has been sent to the client, and the status of the call.
pub record Served : Type 0 where
  pub responses : List ChunkResponse
  pub status : Status

-- The loop from the i-th request on.
pub process_file_chunks : (ℕ → Bool) → ℕ → List ChunkRequest → Served
process_file_chunks writes i [] = record { responses = []; status = ok }
process_file_chunks writes i (request ∷ requests) =
    let rest = process_file_chunks writes (i + 1) requests in
    if writes i
    then record { responses = respond request ∷ rest.responses; status = rest.status }
    else record { responses = []; status = unknown }

-- The next `n` writes, from the i-th on, succeed.
abbrev pub Succeed : (ℕ → Bool) → ℕ → ℕ → Type 0
Succeed writes i n = (j : ℕ) → j < n → writes (i + j) ≡ true

Succeed-now : (writes : ℕ → Bool) (i n : ℕ) → Succeed writes i (suc n) → writes i ≡ true
Succeed-now writes i n h =
    let e : i + 0 ≡ i = omega arith in subst (λ m. writes m ≡ true) e (h 0 (omega arith))

Succeed-later : (writes : ℕ → Bool) (i n : ℕ) → Succeed writes i (suc n) → Succeed writes (i + 1) n
Succeed-later writes i n h j lt =
    let e : i + suc j ≡ i + 1 + j = omega arith in
    subst (λ m. writes m ≡ true) e (h (suc j) (omega arith))

-- As long as the writes succeed, the server answers every request of the stream, in the order of
-- the requests, and the call ends with OK.
pub process_file_chunks-ok :
    (writes : ℕ → Bool) (i : ℕ) (requests : List ChunkRequest)
    → Succeed writes i (length requests)
    → process_file_chunks writes i requests
      ≡ record { responses = map respond requests; status = ok }
unfolding process_file_chunks
process_file_chunks-ok writes i [] h = refl
process_file_chunks-ok writes i (request ∷ requests) h =
    rw
      (
        Succeed-now writes i (length requests) h,
        process_file_chunks-ok writes (i + 1) requests (Succeed-later writes i (length requests) h),
      )
      refl

-- If a write fails and those before it succeed, the call ends with UNKNOWN, and what was sent are the answers to the requests
-- before the one whose answer could not be written.
pub process_file_chunks-unknown :
    (writes : ℕ → Bool) (i k : ℕ) (requests : List ChunkRequest)
    → k < length requests
    → Succeed writes i k
    → writes (i + k) ≡ false
    → process_file_chunks writes i requests
      ≡ record { responses = map respond (take k requests); status = unknown }
unfolding process_file_chunks
process_file_chunks-unknown writes i k [] lt h f = ground arith
process_file_chunks-unknown writes i zero (request ∷ requests) lt h f =
    let now : writes i ≡ false = subst (λ m. writes m ≡ false) (omega arith) f in rw now refl
process_file_chunks-unknown writes i (suc k) (request ∷ requests) lt h f =
    let f' : writes (i + 1 + k) ≡ false = subst (λ m. writes m ≡ false) (omega arith) f in
    rw
      (
        Succeed-now writes i k h,
        process_file_chunks-unknown writes (i + 1) k requests (omega arith)
            (Succeed-later writes i k h) f',
      )
      refl
