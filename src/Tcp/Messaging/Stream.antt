-- ===== src/Tcp/Messaging/Stream.antt =====
-- Messages in the byte stream of a connection. As documented, `boost::asio::async_read` on a buffer of n
-- bytes completes with the next n bytes of the stream, however they were cut into segments, or with
-- `eof` if the peer has closed the connection before that many came; `async_write` of several buffers
-- sends their bytes in order.
use grpccapnp.Base.{
  ℕ, ◌%◌, ◌^◌, ◌<◌, ◌≡◌, refl, ap, ap₂, ◌∙◌, List, [], ◌∷◌, ◌++◌, flatten, Option, none, some,
  arith, Bytes, length, length-append, take, drop, leb, if◌then◌else◌, append-nil, inl, inr,
  Bool-cases,
}
use grpccapnp.Tcp.Messaging.{
  Header, header_bytes, encode_length, prepare_message, parse_header, parse_encode,
}

-- A read into a header buffer.
unfoldable pub receive_header : Bytes → Option (Header × Bytes)
receive_header (a ∷ b ∷ c ∷ d ∷ rest) =
    some (record { byte_0 = a; byte_1 = b; byte_2 = c; byte_3 = d }, rest)
receive_header _ = none

-- A read into a body buffer of n bytes.
unfoldable pub receive_body : ℕ → Bytes → Option (Bytes × Bytes)
receive_body n stream = if leb n (length stream) then some (take n stream, drop n stream) else none

-- The bytes that a message puts on the wire, and those of a sequence of messages.
abbrev pub frame : Bytes → Bytes
frame payload = flatten (prepare_message payload)

abbrev pub frames : List Bytes → Bytes
frames [] = []
frames (payload ∷ payloads) = frame payload ++ frames payloads

pub frame-eq :
    (payload : Bytes)
    → frame payload ≡ header_bytes (encode_length (length payload % 2 ^ 32)) ++ payload
unfolding prepare_message flatten
frame-eq [] = refl
frame-eq (b ∷ bs) =
    ap (λ body. header_bytes (encode_length (length (b ∷ bs) % 2 ^ 32)) ++ body)
      (append-nil (b ∷ bs))

take-length : (xs ys : Bytes) → take (length xs) (xs ++ ys) ≡ xs
take-length [] ys = refl
take-length (x ∷ xs) ys = ap (◌∷◌ x) (take-length xs ys)

drop-length : (xs ys : Bytes) → drop (length xs) (xs ++ ys) ≡ ys
drop-length [] ys = refl
drop-length (x ∷ xs) ys = drop-length xs ys

pub receive_header-frame :
    (payload rest : Bytes)
    → receive_header (frame payload ++ rest)
      ≡ some (encode_length (length payload % 2 ^ 32), payload ++ rest)
unfolding receive_header
receive_header-frame payload rest = ap (λ bytes. receive_header (bytes ++ rest)) (frame-eq payload)

pub parse_frame :
    (payload : Bytes)
    → length payload < 2 ^ 32
    → parse_header (encode_length (length payload % 2 ^ 32)) ≡ length payload
parse_frame payload small =
    let whole : length payload % 2 ^ 32 ≡ length payload = omega arith in
    ap (λ n. parse_header (encode_length n)) whole ∙ parse_encode (length payload) small

pub receive_body-append :
    (payload rest : Bytes) → receive_body (length payload) (payload ++ rest) ≡ some (payload, rest)
unfolding receive_body
receive_body-append payload rest =
    elim (Bool-cases (leb (length payload) (length (payload ++ rest)))) [
      | inl fits ↦
          rw (fits, if◌then◌else◌)
            (ap₂ (λ a b. some (a, b)) (take-length payload rest) (drop-length payload rest))
      | inr short ↦ absurd (ground (arith, short, length-append payload rest))
    ]

pub receive_body-short : (n : ℕ) (stream : Bytes) → length stream < n → receive_body n stream ≡ none
unfolding receive_body
receive_body-short n stream short = ground arith
