-- ===== src/Grpc/Client/Mismatches.antt =====
-- The failed verifications among the messages that `ProcessFile` of src/grpc_app/grpc_client.cpp logs.
use grpccapnp.Base.{ℕ, ◌+◌, ◌≡◌, List, [], ◌∷◌, ◌++◌, arith}
use grpccapnp.Common.Metrics.{MetricsAggregator, log_error}
use grpccapnp.Grpc.Client.{Message, size_mismatch, content_mismatch}

abbrev pub weight : Message → ℕ
weight (size_mismatch id expected got) = 1
weight (content_mismatch id) = 1
weight _ = 0

-- How many messages say that a verification failed.
abbrev pub mismatches : List Message → ℕ
mismatches [] = 0
mismatches (m ∷ ms) = weight m + mismatches ms

mismatches-append :
    (ms : List Message) (m : Message) → mismatches (ms ++ m ∷ []) ≡ mismatches ms + weight m
mismatches-append [] m = omega arith
mismatches-append (x ∷ ms) m = omega (arith, mismatches-append ms m)

pub mismatches-log_error :
    (m : Message) (metrics : MetricsAggregator Message)
    → mismatches (log_error m metrics).errors ≡ mismatches metrics.errors + weight m
unfolding log_error
mismatches-log_error m metrics = mismatches-append metrics.errors m
