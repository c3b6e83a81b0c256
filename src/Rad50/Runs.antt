-- ===== src/Rad50/Runs.antt =====
-- Concrete runs, and the theorems at concrete inputs.
use pacsys.Rad50.RoundTrip.{decode-encode, encode-decode}
use pacsys.Prelude.{◌≡◌, refl, arith, codes}
use pacsys.Rad50.{encode, decode, char_to_index}

encode_dpm : encode (codes "DPM") ≡ 0x1b8d
unfolding encode char_to_index
encode_dpm = refl

-- The docstring of `decode` says "DPM   " here.
decode_0x4a2 : decode 0x000004A2 ≡ codes " %Z   "
unfolding decode
decode_0x4a2 = refl

decode-encode_example : decode (encode (codes "dpm-x")) ≡ codes "DPM X "
decode-encode_example = decode-encode (codes "dpm-x")

encode-decode_example : encode (decode 0x1b8d) ≡ 0x1b8d
encode-decode_example = encode-decode 0x1b8d (omega arith) (omega arith)
