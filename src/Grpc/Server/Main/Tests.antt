-- ===== src/Grpc/Server/Main/Tests.antt =====
-- The gRPC server's `main` where the port is taken.
use grpccapnp.Base.{◌≡◌, refl, false, [], ◌∷◌}
use grpccapnp.Grpc.Server.Main.{
  process_starting, failed_to_start, process_shut_down, run_server, main,
}

-- The status is that of a server that has run.
failed_start :
    main (λ builder. false) ≡ (process_starting ∷ failed_to_start ∷ process_shut_down ∷ [], 0)
unfolding main run_server
failed_start = refl
