-- ===== src/Tcp/Reversal.antt =====
-- GO++PROJECT/src/cpp_tcp_benchmark/common/include/reversal_utils.hpp. `std::reverse` is the list
-- reversal; the in-place result is the returned vector.
use grpccapnp.Base.{Bytes, reverse}

unfoldable pub reverse_vector_content : Bytes → Bytes
reverse_vector_content data' = reverse data'

unfoldable pub get_reversed_vector_content : Bytes → Bytes
get_reversed_vector_content data' = let reversed_data = reverse data' in reversed_data
