-- ===== src/Grpc/Client/Fair/Tests.antt =====
-- A fair schedule of `ProcessFile` on a file of three bytes in chunks of two.
use grpccapnp.Base.{
  ◌+◌, ℕ, zero, suc, ◌≡◌, refl, List, [], ◌∷◌, arith, flatten, length, All, inl, inr,
}
use mathlib.Core.List.{Memᴰ}
use mathlib.Core.List.Memᴰ
use grpccapnp.Base.Chunks.{chunks_of, pieces}
use grpccapnp.Common.ChunkReader.WholeFile.{fresh}
use grpccapnp.Grpc.Client.{returned, Action, writer_moves, reader_moves, server_moves, run, start}
use grpccapnp.Grpc.Client.Tests.{world, metrics, three, three-IsSound}
use grpccapnp.Grpc.Client.Inflight.{payload}
use grpccapnp.Grpc.Client.Tally.{dropped}
use grpccapnp.Grpc.Client.Fair.Accounts.{fair_schedule_accounts}
use grpccapnp.Grpc.Client.Fair.Termination.{IsFair, fair_schedule_ends}

-- The reader before the server, and the server before the writer.
abbrev backwards : List Action
backwards = reader_moves ∷ reader_moves ∷ server_moves ∷ writer_moves ∷ []

abbrev repeated : ℕ → List (List Action)
repeated zero = []
repeated (suc k) = backwards ∷ repeated k

backwards-IsFair : IsFair backwards
backwards-IsFair = (
  Memᴰ.tail (Memᴰ.tail (Memᴰ.tail (Memᴰ.head refl))),
  Memᴰ.head refl,
  Memᴰ.tail (Memᴰ.tail (Memᴰ.head refl)),
  λ m. elim (Memᴰ.cases_cons m) [
    | inl e ↦ cc
    | inr m₁ ↦ elim (Memᴰ.cases_cons m₁) [
      | inl e ↦ cc
      | inr m₂ ↦ elim (Memᴰ.cases_cons m₂) [
        | inl e ↦ cc
        | inr m₃ ↦ elim (Memᴰ.cases_cons m₃) [ inl e ↦ cc | inr m₄ ↦ elim m₄ [ ] ]
      ]
    ]
  ],
)

repeated-IsFair : (k : ℕ) → All IsFair (repeated k)
repeated-IsFair zero = tt
repeated-IsFair (suc k) = (backwards-IsFair, repeated-IsFair k)

fair_schedule_ends_example :
    (run world (flatten (repeated 28)) (start (fresh "test_file.dat" 2 three) metrics)).reader
    ≡ returned
unfolding chunks_of pieces
fair_schedule_ends_example =
    fair_schedule_ends world (repeated 28) "test_file.dat" 2 three metrics three-IsSound
      (omega arith) (omega arith) (repeated-IsFair 28) (omega arith)

fair_schedule_accounts_example :
    let s = run world (flatten (repeated 28)) (start (fresh "test_file.dat" 2 three) metrics) in
    (s.reader ≡ returned)
    × (s.total_bytes_verified_payload_by_reader + payload s.inflight_requests_map ≡ 3)
    × (length s.inflight_requests_map + 0 ≡ dropped s.metrics.errors)
unfolding chunks_of pieces flatten
fair_schedule_accounts_example =
    fair_schedule_accounts world (repeated 28) "test_file.dat" 2 three metrics three-IsSound
      (omega arith) (omega arith) (omega arith) (omega arith) (repeated-IsFair 28) (omega arith)
