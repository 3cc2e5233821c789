-- ===== src/Common/Double.antt =====
-- The `double` arithmetic that the reports use, as a parameter: a type, the conversions from
-- `size_t` and `long long`, and the operations, with no law assumed of them.
use grpccapnp.Base.{ℕ}
use grpccapnp.Base.Int.{ℤ}

pub record Double : Type 1 where
  pub Carrier : Type 0
  pub of_size : ℕ → Carrier
  pub of_int : ℤ → Carrier
  pub add : Carrier → Carrier → Carrier
  pub sub : Carrier → Carrier → Carrier
  pub mul : Carrier → Carrier → Carrier
  pub div : Carrier → Carrier → Carrier
  pub sqrt : Carrier → Carrier
