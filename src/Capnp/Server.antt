-- ===== src/Capnp/Server.antt =====
-- src/capnp_app/capnp_server.cpp: the methods of its two capabilities. The KJ event loop and the RPC
-- system are not modelled: a call of the client is a call of the handler. Server/Main is `main`.
pub mod Main
use grpccapnp.Base.{ℕ, ◌+◌, ◌≡◌, refl, Bytes, List, [], ◌∷◌, reverse, is_empty, if◌then◌else◌, Bool}
use grpccapnp.Common.Reversal.{reverse_bytes}

-- `ChunkHandlerImpl::processChunk`: the data of the response for the data of the request. The
-- `memcpy` is made only if there is something to copy.
unfoldable pub process_chunk : Bytes → Bytes
process_chunk request_data =
    let chunk_vec = if is_empty request_data then [] else request_data in reverse_bytes chunk_vec

-- What `listener->accept().wait()` can come to.
pub data Accept : Type 0 where
  connection null_connection kj_exception std_exception unknown_exception : Accept

-- A method returns with its result, or throws again what it has caught.
pub data Method {ℓ} (A : Type ℓ) : Type ℓ where
  ready : A → Method A
  rethrown : Method A

-- `processChunk`, where the message or the result may throw a `kj::Exception`.
pub process_chunk_method : Bool → Bytes → Method Bytes
process_chunk_method throws request_data =
    if throws then rethrown else ready (process_chunk request_data)

-- `doneStreaming` only reports.
pub done_streaming : Method (Unit {0})
done_streaming = ready tt

-- The capability that a client holds: the methods of `ChunkHandlerImpl`, which keeps no state.
pub record ChunkHandler : Type 0 where
  pub process : Bool → Bytes → Method Bytes
  pub finish : Method (Unit {0})

-- `FileProcessorImpl::startStreaming`: a new handler for each call.
pub start_streaming : Method ChunkHandler
start_streaming = ready (record { process = process_chunk_method; finish = done_streaming })

-- Also on an empty request, for which nothing is copied, the response is the reversed request.
pub process_chunk-reverse : (c : Bytes) → process_chunk c ≡ reverse c
unfolding process_chunk reverse_bytes
process_chunk-reverse [] = refl
process_chunk-reverse (b ∷ bs) = refl
