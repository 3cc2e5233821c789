-- ===== src/Common/Reversal.antt =====
-- src/common/include/reversal_utils.hpp: the reversal that the servers perform and the clients
-- verify. `std::reverse` is the list reversal; the in-place result is the returned vector.
use grpccapnp.Base.{Bytes, reverse}

unfoldable pub reverse_bytes : Bytes → Bytes
reverse_bytes data' = reverse data'

-- A `std::string` is its bytes.
unfoldable pub reverse_string : Bytes → Bytes
reverse_string data' = reverse data'
