-- ===== src/Powers/Tests.antt =====
-- Powers of ten and of three.
use taurus_cdt.Prelude.{◌≡◌, ok, arith}
use taurus_cdt.Powers.{pow}
use taurus_cdt.Powers.Exact.{pow-exact}

pow-exact_example : pow 8 6 3 ≡ ok 216
pow-exact_example = pow-exact 8 6 3 (omega arith) (omega arith)
