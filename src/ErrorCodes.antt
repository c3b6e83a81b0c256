-- ===== src/ErrorCodes.antt =====
-- pacsys/acnet/errors.py: the arithmetic of ACNET status codes.
pub mod RoundTrip
mod Runs
use pacsys.Prelude.{ℕ, ◌-◌, ltb, if◌then◌else◌}
use pacsys.Prelude.Int.{ℤ, pos, ◌+ℤ◌, ◌-ℤ◌, ◌*ℤ◌, mod_ℤ, div_ℤ, ltb_ℤ}

-- `make_error`. Facility and error number may be any integers.
unfoldable pub make_error : ℤ → ℤ → ℤ
unfolding ◌+ℤ◌ ◌*ℤ◌
make_error facility error_number = facility +ℤ error_number *ℤ pos 256

-- `parse_error`: `code & 0xFF`, and `(code >> 8) & 0xFF` taken as a signed byte.
unfoldable pub parse_error : ℤ → ℕ × ℤ
unfolding ◌-ℤ◌
parse_error code =
    let facility = mod_ℤ code 256 in
    let error_number = mod_ℤ (div_ℤ code 256) 256 in
    (facility, if ltb 127 error_number then pos error_number -ℤ pos 256 else pos error_number)

-- `normalize_error_code`.
unfoldable pub normalize_error_code : ℤ → ℤ
unfolding ◌-ℤ◌
normalize_error_code code = if ltb_ℤ (pos 127) code then code -ℤ pos 256 else code
