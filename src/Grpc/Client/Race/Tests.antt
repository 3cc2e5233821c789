-- ===== src/Grpc/Client/Race/Tests.antt =====
-- A deadlock of `ProcessFile` on a file of 2000 bytes in chunks of one, and a request that is lost.
use grpccapnp.Base.{
  ℕ, zero, suc, ◌≡◌, refl, ◌≢◌, ap, [], ◌∷◌, ◌++◌, false, arith, some, Bytes, length,
}
use grpccapnp.Base.Chunks.{length-chunks_of}
use grpccapnp.Common.Stream.{File, IsSound}
use grpccapnp.Common.ChunkReader.WholeFile.{fresh}
use grpccapnp.Grpc.Client.{
  returned, max_inflight_requests, no_such_request, writer_moves, reader_moves, server_moves,
  stream_breaks, entry, read_step, write_step, writer_step, act, run, start,
}
use grpccapnp.Grpc.Client.Tests.{world, metrics, three, three-IsSound}
use grpccapnp.Grpc.Client.Inflight.{SentChunkInfo, find}
use grpccapnp.Grpc.Client.Race.{overtaking}
use grpccapnp.Grpc.Client.Race.Forever.{lost_for_good}
use grpccapnp.Common.ChunkReader.{next_chunk, eof}
use grpccapnp.Grpc.Client.Race.Deadlock.{races, races_starve}

sevens : ℕ → Bytes
sevens zero = []
sevens (suc k) = 7 ∷ sevens k

length-sevens : (k : ℕ) → length (sevens k) ≡ k
unfolding sevens
length-sevens zero = refl
length-sevens (suc k) = ap suc (length-sevens k)

abbrev large : File
large = record { bytes = sevens 2000; size = length (sevens 2000); broken = false }

large-IsSound : IsSound large
large-IsSound = record { sized = refl; works = refl }

races_starve_example :
    (run world
      (races max_inflight_requests ++ writer_moves ∷ stream_breaks ∷ [])
      (start (fresh "test_file.dat" 1 large) metrics)).reader
    ≢ returned
races_starve_example =
    races_starve world (writer_moves ∷ stream_breaks ∷ []) "test_file.dat" 1 large metrics
      large-IsSound (omega arith)
      (omega (arith, length-sevens 2000, length-chunks_of 1 (sevens 2000) (omega arith)))

abbrev info : SentChunkInfo
info = record {
  client_assigned_id = 1;
  original_payload_size = 2;
  on_wire_request_size_bytes = 2;
  original_data_for_verification = 1 ∷ 2 ∷ [];
}

-- The first request is written, and not yet in the map; afterwards the next one is sent and answered.
lost_for_good_example :
    let s =
      run world
        (writer_moves ∷ writer_moves ∷ writer_moves ∷ [])
        (start (fresh "test_file.dat" 2 three) metrics) in
    ((run world overtaking s).metrics.errors
      ≡ s.metrics.errors
        ++ no_such_request 1 s.received_responses_count (length s.inflight_requests_map) ∷ [])
    × (find 1
          (run world
            (overtaking
              ++ writer_moves ∷ writer_moves ∷ writer_moves ∷ writer_moves ∷ server_moves
                ∷ reader_moves ∷ reader_moves ∷ reader_moves ∷ [])
            s).inflight_requests_map
        ≡ some info)
unfolding run act writer_step read_step write_step entry next_chunk eof
lost_for_good_example =
    lost_for_good world (writer_moves ∷ writer_moves ∷ writer_moves ∷ [])
      (writer_moves ∷ writer_moves ∷ writer_moves ∷ writer_moves ∷ server_moves ∷ reader_moves
        ∷ reader_moves ∷ reader_moves ∷ [])
      "test_file.dat" 2 three metrics info three-IsSound (omega arith) (omega arith) (omega arith)
      refl refl refl refl refl refl
