-- ===== src/Common/Formulas.antt =====
-- An arithmetic of `double` that says which operations were performed, for the runs at concrete inputs.
use grpccapnp.Base.{ℕ}
use grpccapnp.Base.Int.{ℤ}
use grpccapnp.Common.Double.{Double}

-- A `double` as the formula that computes it.
pub data Formula : Type 0 where
  size : ℕ → Formula
  int : ℤ → Formula
  plus minus times over : Formula → Formula → Formula
  root : Formula → Formula

abbrev pub formulas : Double
formulas = record {
  Carrier = Formula;
  of_size = size;
  of_int = int;
  add = plus;
  sub = minus;
  mul = times;
  div = over;
  sqrt = root;
}
