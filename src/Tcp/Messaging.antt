-- ===== src/Tcp/Messaging.antt =====
-- GO++PROJECT/src/cpp_tcp_benchmark/common/include/tcp_messaging.hpp: a message is a header of four
-- bytes, the length of the payload in network byte order, and the payload. `htonl` with `memcpy` puts
-- the most significant byte first, whatever the byte order of the host.
pub mod Stream
use grpccapnp.Base.{
  ℕ, ◌+◌, ◌*◌, ◌/◌, ◌%◌, ◌^◌, ◌<◌, ◌≡◌, refl, ap₂, List, [], ◌∷◌, arith, Byte, Bytes, length,
  is_empty, if◌then◌else◌,
}

-- `std::array<char, HEADER_SIZE>`
pub record Header : Type 0 where
  pub byte_0 : Byte
  pub byte_1 : Byte
  pub byte_2 : Byte
  pub byte_3 : Byte

abbrev pub header_size : ℕ
header_size = 4

abbrev pub header_bytes : Header → Bytes
header_bytes h = h.byte_0 ∷ h.byte_1 ∷ h.byte_2 ∷ h.byte_3 ∷ []

-- `htonl(n)`, copied into the buffer.
unfoldable pub encode_length : ℕ → Header
encode_length n = record {
  byte_0 = n / 2 ^ 24;
  byte_1 = n / 2 ^ 16 % 256;
  byte_2 = n / 2 ^ 8 % 256;
  byte_3 = n % 256;
}

-- The buffers of a message: an empty payload has none.
unfoldable pub prepare_message : Bytes → List Bytes
unfolding encode_length
prepare_message payload =
    let header = header_bytes (encode_length (length payload % 2 ^ 32)) in
    if is_empty payload then header ∷ [] else header ∷ payload ∷ []

-- `ntohl` of the four bytes.
unfoldable pub parse_header : Header → ℕ
parse_header h = h.byte_0 * 2 ^ 24 + h.byte_1 * 2 ^ 16 + h.byte_2 * 2 ^ 8 + h.byte_3

abbrev pub IsOctets : Header → Type 0
IsOctets h = (h.byte_0 < 256) × (h.byte_1 < 256) × (h.byte_2 < 256) × (h.byte_3 < 256)

pub parse_encode : (n : ℕ) → n < 2 ^ 32 → parse_header (encode_length n) ≡ n
unfolding parse_header encode_length
parse_encode n small = omega arith

-- A length below 2 ^ 32 is read back from its header, whose bytes are octets; and any four octets are
-- the header of the length that they are read as, which is below 2 ^ 32.
pub parse_header-encode_length :
    (n : ℕ) (h : Header)
    → n < 2 ^ 32
    → IsOctets h
    → (parse_header (encode_length n) ≡ n)
      × IsOctets (encode_length n)
      × (encode_length (parse_header h) ≡ h)
      × (parse_header h < 2 ^ 32)
unfolding parse_header encode_length
parse_header-encode_length n h small octets = (omega arith, omega arith, ground arith, omega arith)
