-- ===== src/ErrorCodes/RoundTrip.antt =====
-- Status codes taken apart and put together.
use pacsys.Prelude.{ℕ, ◌<◌, ◌≡◌, arith}
use pacsys.Prelude.Int.{ℤ, pos, negsuc, ◌≤ℤ◌}
use pacsys.ErrorCodes.{make_error, parse_error, normalize_error_code}

-- A facility of one byte and a signed byte of an error number come back from their code.
parse_error-make_error :
    (facility : ℕ) (error_number : ℤ)
    → facility < 256
    → negsuc 127 ≤ℤ error_number
    → error_number ≤ℤ pos 127
    → parse_error (make_error (pos facility) error_number) ≡ (facility, error_number)
unfolding parse_error make_error
parse_error-make_error f (pos n) hf lo hi = ground arith
parse_error-make_error f (negsuc n) hf lo hi = ground arith

-- A code that fits a signed 16-bit word is the code of its own parts.
pub make_error-parse_error :
    (code : ℤ)
    → negsuc 32767 ≤ℤ code
    → code ≤ℤ pos 32767
    → make_error (pos (parse_error code).0) (parse_error code).1 ≡ code
unfolding parse_error make_error
make_error-parse_error (pos n) lo hi = ground arith
make_error-parse_error (negsuc n) lo hi = ground arith

-- An unsigned byte is normalised to the signed byte that `parse_error` finds for it in a code.
normalize-eq-parse_error :
    (facility byte : ℕ)
    → facility < 256
    → byte < 256
    → (parse_error (make_error (pos facility) (pos byte))).1 ≡ normalize_error_code (pos byte)
unfolding parse_error make_error normalize_error_code
normalize-eq-parse_error f b hf hb = ground arith
