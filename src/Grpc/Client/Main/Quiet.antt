-- ===== src/Grpc/Client/Main/Quiet.antt =====
-- What a run of the gRPC client's `main` with no message has come to.
use grpccapnp.Base.{
  ◌≡◌, ◌≢◌, refl, sym, ap, ◌∙◌, Bool, not, [], Option, none, some, arith, if◌then◌else◌, eq_of_some,
  Bool-cases, inl, inr, length,
}
use grpccapnp.Common.GenerateFile.{Generated, generate_test_file}
use grpccapnp.Common.ChunkReader
use grpccapnp.Common.ChunkReader.{ChunkReader, Failure, Result, ok, err}
use grpccapnp.Common.Metrics.{make, log_error}
use grpccapnp.Grpc.Client.{
  Message, stream_not_created, exception, Reader, receiving, matching, verifying, joining,
  finishing, returned, start,
}
use grpccapnp.Grpc.Client.Faults.{occur}
use grpccapnp.Grpc.Client.Faults.Clean.{returned_quietly}
use grpccapnp.Grpc.Client.Main.{
  world_of, Setting, Report, Processed, completed, new_metrics, after_run, process_opened,
  process_file, finish, generate_new_file, transfer, after_generation, session,
}

-- The threads have run over this reader, and it is all verified.
abbrev pub Verified : Setting → ChunkReader → Type 0
Verified w reader =
    let s = occur (world_of w) w.events (start reader (new_metrics w)) in
    (s.reader ≡ returned)
    × (s.inflight_requests_map ≡ [])
    × (s.total_bytes_verified_payload_by_reader ≡ w.target_file_size_bytes)

after_run-Verified :
    (w : Setting) (reader : ChunkReader) (v : Reader) (r : Report)
    → let s = occur (world_of w) w.events (start reader (new_metrics w)) in
      s.reader ≡ v
      → finish (after_run v s.metrics) ≡ some r
      → r.metrics.errors ≡ []
      → Verified w reader
unfolding finish after_run
after_run-Verified w reader returned r e is quiet =
    let (empty, all) =
      returned_quietly (world_of w) w.events reader (new_metrics w) e
        (ap (λ q. q.metrics.errors) (eq_of_some is) ∙ quiet) in
    (e, empty, all)
after_run-Verified w reader receiving r e is quiet = absurd (ground (arith, is))
after_run-Verified w reader (matching response) r e is quiet = absurd (ground (arith, is))
after_run-Verified w reader (verifying info response) r e is quiet = absurd (ground (arith, is))
after_run-Verified w reader joining r e is quiet = absurd (ground (arith, is))
after_run-Verified w reader finishing r e is quiet = absurd (ground (arith, is))

-- A message that was logged is there.
logged :
    (w : Setting) (m : Message) (r : Report)
    → r.metrics ≡ log_error m (new_metrics w)
    → r.metrics.errors ≢ []
unfolding log_error make
logged w m r e quiet = absurd (omega (arith, ap length (sym (ap (λ q. q.errors) e) ∙ quiet)))

process_opened-Verified :
    (w : Setting) (q : Result ChunkReader) (r : Report)
    → finish (process_opened w (new_metrics w) q) ≡ some r
    → r.metrics.errors ≡ []
    → (reader : ChunkReader) × (q ≡ ok reader) × Verified w reader
unfolding finish process_opened
process_opened-Verified w (err failure) r is quiet =
    absurd (logged w (exception failure) r (ap (λ q. q.metrics) (sym (eq_of_some is))) quiet)
process_opened-Verified w (ok reader) r is quiet = elim (Bool-cases w.stream_created) [
  | inl created ↦
      let s = occur (world_of w) w.events (start reader (new_metrics w)) in
      let step : Bool → Option Processed = λ q.
        if not q
        then some (completed (log_error stream_not_created (new_metrics w)))
        else after_run s.reader s.metrics in
      (
        reader,
        refl,
        after_run-Verified w reader s.reader r refl (ap (λ q. finish (step q)) (sym created) ∙ is)
            quiet,
      )
  | inr failed ↦
      let s = occur (world_of w) w.events (start reader (new_metrics w)) in
      let step : Bool → Option Processed = λ q.
        if not q
        then some (completed (log_error stream_not_created (new_metrics w)))
        else after_run s.reader s.metrics in
      absurd (
        logged w stream_not_created r
          (ap (λ q. q.metrics) (sym (eq_of_some (ap (λ q. finish (step q)) (sym failed) ∙ is))))
          quiet)
]

abbrev Clean : Setting → Type 0
Clean w =
    (reader : ChunkReader) × (ChunkReader.make w.probed w.opened w.test_filename w.chunk_size
      ≡ ok reader)
    × Verified w reader

transfer-Clean : (w : Setting) (r : Report) → transfer w ≡ some r → r.metrics.errors ≡ [] → Clean w
unfolding transfer process_file
transfer-Clean w r is quiet =
    process_opened-Verified w (ChunkReader.make w.probed w.opened w.test_filename w.chunk_size) r is
      quiet

after_generation-Clean :
    (w : Setting) (g : Option Generated) (r : Report)
    → after_generation w g ≡ some r
    → r.exit_code ≡ 0
    → r.metrics.errors ≡ []
    → Clean w
unfolding after_generation
after_generation-Clean w none r is exit quiet = absurd (ground (arith, is))
after_generation-Clean w (some g) r is exit quiet =
    let step : Bool → Option Report = λ q.
      if q
      then transfer w
      else some (record { exit_code = 1; metrics = (new_metrics w); files = [] }) in
    elim (Bool-cases g.result) [
      | inl generated ↦ transfer-Clean w r (ap step (sym generated) ∙ is) quiet
      | inr failed ↦
          let ended = eq_of_some (ap step (sym failed) ∙ is) in
          absurd (omega (arith, ap (λ q. q.exit_code) ended ∙ exit))
    ]

-- Whatever the file system, the disk, the schedule and the exceptions in the threads: if the program exits with 0 and its metrics hold no
-- message, then the test file opened, `ProcessFile` has returned, no request is left in the map, and
-- the number of verified payload bytes is the expected size of the file.
pub session_clean :
    (w : Setting) (r : Report)
    → session w ≡ some r
    → r.exit_code ≡ 0
    → r.metrics.errors ≡ []
    → (reader : ChunkReader) × (ChunkReader.make w.probed w.opened w.test_filename w.chunk_size
        ≡ ok reader)
      × Verified w reader
unfolding session
session_clean w r is exit quiet =
    let g = generate_test_file w.opens w.disk w.rng w.target_file_size_bytes in
    let step : Bool → Option Report = λ q. if q then after_generation w g else transfer w in
    elim (Bool-cases (generate_new_file w.existing w.target_file_size_bytes)) [
      | inl new ↦ after_generation-Clean w g r (ap step (sym new) ∙ is) exit quiet
      | inr kept ↦ transfer-Clean w r (ap step (sym kept) ∙ is) quiet
    ]
