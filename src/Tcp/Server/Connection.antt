-- ===== src/Tcp/Server/Connection.antt =====
-- A session on its connection: the operations complete as the bytes from the client come in, and the
-- client takes what is written. (Behind the last of its bytes the client has closed its side.)
use grpccapnp.Base.{ℕ, zero, suc, Bytes, [], ◌++◌, flatten, Option, none, some, length}
use mathlib.Core.Option
use grpccapnp.Tcp.Messaging.Stream.{receive_header, receive_body}
use grpccapnp.Tcp.Server.{
  ErrorCode, Outcome, done, failed, Session, reading_header, reading_body, writing, closed,
  on_header, on_body, on_written,
}

-- What a read comes to, and the bytes that are left behind it.
abbrev pub outcome {ℓ} : {A : Type ℓ} → Option (A × Bytes) → Outcome A
outcome none = failed ErrorCode.eof
outcome (some (a, rest)) = done a

abbrev pub behind {ℓ} : {A : Type ℓ} → Option (A × Bytes) → Bytes
behind none = []
behind (some (a, rest)) = rest

-- The bytes that the session writes until it is closed; `none` means that the fuel ran out.
unfoldable pub serve : ℕ → Session → Bytes → Option Bytes
serve zero s input = none
serve (suc fuel) s input = elim s.pending [
  | reading_header ↦
      let read = receive_header input in serve fuel (on_header (outcome read) s) (behind read)
  | reading_body ↦
      let read = receive_body (length s.read_body_buffer) input in
      serve fuel (on_body (outcome read) s) (behind read)
  | writing buffers ↦
      Option.map (λ sent. flatten buffers ++ sent) (serve fuel (on_written (done tt) s) input)
  | closed ↦ some []
]
