-- ===== src/Rad50.antt =====
-- pacsys/acnet/rad50.py: six characters of a task name in a 32-bit word, base 40.
-- Text is ASCII; the proofs are in the modules below.
pub mod RoundTrip
mod Runs
use mathlib.Core.List.{reverse}
use pacsys.Prelude.{
  ℕ, zero, suc, ◌+◌, ◌-◌, ◌*◌, ◌/◌, ◌%◌, ◌^◌, bit_or, List, [], ◌∷◌, ◌++◌, Text, codes, to_upper,
  is_upper, is_digit, ◌==◌, if◌then◌else◌, take, drop, replicate, length, get_or,
}

-- `RAD50_CHARS`.
abbrev pub rad50_chars : Text
rad50_chars = codes " ABCDEFGHIJKLMNOPQRSTUVWXYZ$.%0123456789"

-- `_char_to_index`, with the early returns as a chain of tests.
unfoldable pub char_to_index : ℕ → ℕ
unfolding to_upper
char_to_index c =
    let u = to_upper c in
    if is_upper u
    then u - b'A' + 1
    else if is_digit u
    then u - b'0' + 30
    else if u == b'$'
    then 27
    else if u == b'.'
    then 28
    else if u == b'%'
    then 29
    else 0

-- `s.ljust(6)[:6]`.
unfoldable pub pad6 : Text → Text
pad6 s = take 6 (s ++ replicate (6 - length s) 32)

-- `for i in range(...): v = v * 40 + _char_to_index(s[i])`, over the characters read.
unfoldable pub encode_loop : ℕ → Text → ℕ
encode_loop v [] = v
encode_loop v (c ∷ cs) = encode_loop (v * 40 + char_to_index c) cs

-- `encode`. The padded text has six characters, so both loops run three times.
unfoldable pub encode : Text → ℕ
unfolding pad6 encode_loop
encode s =
    let p = pad6 s in
    let v1 = encode_loop 0 (take 3 p) in
    let v2 = encode_loop 0 (take 3 (drop 3 p)) in bit_or (v2 * 2 ^ 16) v1

-- `for _ in range(n): chars.append(RAD50_CHARS[v % 40]); v //= 40`.
unfoldable decode_loop : ℕ → ℕ → Text → Text
decode_loop zero v chars = chars
decode_loop (suc n) v chars =
    decode_loop n (v / 40) (chars ++ (get_or rad50_chars (v % 40) 32 ∷ []))

-- `decode`.
unfoldable pub decode : ℕ → Text
unfolding decode_loop
decode rad50 =
    let v1 = rad50 % 2 ^ 16 in
    let v2 = rad50 / 2 ^ 16 % 2 ^ 16 in
    reverse (decode_loop 3 v1 []) ++ reverse (decode_loop 3 v2 [])

-- `str.rstrip()` on a text whose only blanks are spaces.
unfoldable strip_leading : Text → Text
strip_leading [] = []
strip_leading (c ∷ cs) = if c == 32 then strip_leading cs else c ∷ cs

unfoldable rstrip : Text → Text
unfolding strip_leading
rstrip s = reverse (strip_leading (reverse s))

-- `decode_stripped`.
unfoldable pub decode_stripped : ℕ → Text
unfolding decode rstrip
decode_stripped rad50 = rstrip (decode rad50)
