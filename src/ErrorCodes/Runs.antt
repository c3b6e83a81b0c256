-- ===== src/ErrorCodes/Runs.antt =====
-- Concrete runs, and the theorems at concrete inputs.
use pacsys.Prelude.{◌≡◌, refl, arith}
use pacsys.Prelude.Int.{pos, negsuc}
use pacsys.ErrorCodes.{make_error, parse_error}
use pacsys.ErrorCodes.RoundTrip.{make_error-parse_error}

-- `ACNET_REQTMO = make_error(1, -6)`.
acnet_reqtmo : make_error (pos 1) (negsuc 5) ≡ negsuc 1534
unfolding make_error
acnet_reqtmo = refl

make_error-parse_error_example :
    make_error (pos (parse_error (negsuc 1534)).0) (parse_error (negsuc 1534)).1 ≡ negsuc 1534
make_error-parse_error_example = make_error-parse_error (negsuc 1534) (omega arith) (omega arith)
