-- ===== src/Packet/Parse.antt =====
-- Parsing against the documented layout of the 18-byte header, and the choice of the class.
use pacsys.Prelude.{
  ℕ, ◌+◌, ◌*◌, ◌/◌, ◌%◌, ◌≤◌, ◌<◌, ◌≡◌, ◌↔◌, ap, ◌∙◌, bit_and, List, ◌∷◌, length, ok, err,
  value_error, ◌==◌, arith,
}
use pacsys.Prelude.Int.{ℤ, pos, negsuc, ◌≤ℤ◌, mod_ℤ}
use pacsys.Packet.{
  AcnetPacket, Header, header, parse, classify, read_header, is_request, is_reply, is_message,
  is_cancel, signed16,
}

-- The layout that the head of packet.py documents: 16- and 32-bit fields low byte first, but for
-- the two nodes, which have the high byte first.
abbrev le16 : ℕ → List ℕ → List ℕ
le16 w rest = w % 256 ∷ w / 256 ∷ rest

abbrev be16 : ℕ → List ℕ → List ℕ
be16 w rest = w / 256 ∷ w % 256 ∷ rest

abbrev pub layout : Header → List ℕ
layout h = le16 h.flags (
    le16 (mod_ℤ h.status 65536) (
      be16 h.server (
        be16 h.client (
          le16 (h.server_task % 65536) (
            le16 (h.server_task / 65536)
              (le16 h.client_task_id (le16 h.id (le16 h.length_field h.payload))))))))

-- Each field fits its place in the layout.
pub record Fits (h : Header) : Type 0 where
  pub flags : h.flags < 65536
  pub status_low : negsuc 32767 ≤ℤ h.status
  pub status_high : h.status ≤ℤ pos 32767
  pub server : h.server < 65536
  pub client : h.client < 65536
  pub server_task : h.server_task < 4294967296
  pub client_task_id : h.client_task_id < 65536
  pub id : h.id < 65536
  pub length_field : h.length_field < 65536

signed16-mod_ℤ : (s : ℤ) → negsuc 32767 ≤ℤ s → s ≤ℤ pos 32767 → signed16 (mod_ℤ s 65536) ≡ s
signed16-mod_ℤ (pos n) lo hi = ground arith
signed16-mod_ℤ (negsuc n) lo hi = ground arith

join16 : (w : ℕ) → w % 256 + 256 * (w / 256) ≡ w
join16 w = omega arith

join16_be : (w : ℕ) → 256 * (w / 256) + w % 256 ≡ w
join16_be w = omega arith

join32 : (w : ℕ) → w % 65536 + 65536 * (w / 65536) ≡ w
join32 w = omega arith

read_header-layout : (h : Header) → Fits h → read_header (layout h) ≡ h
unfolding read_header
read_header-layout h f = λ i. record {
  flags = join16 h.flags i;
  status = status i;
  server = join16_be h.server i;
  client = join16_be h.client i;
  server_task = task i;
  client_task_id = join16 h.client_task_id i;
  id = join16 h.id i;
  length_field = join16 h.length_field i;
  payload = h.payload;
}
  where
    status : signed16 (mod_ℤ h.status 65536 % 256 + 256 * (mod_ℤ h.status 65536 / 256)) ≡ h.status
    status = rw (join16 (mod_ℤ h.status 65536)) (signed16-mod_ℤ h.status f.status_low f.status_high)

    task :
        h.server_task % 65536 % 256
          + 256 * (h.server_task % 65536 / 256)
          + 65536 * (h.server_task / 65536 % 256 + 256 * (h.server_task / 65536 / 256))
        ≡ h.server_task
    task = omega arith

parse_long : (b : List ℕ) → 18 ≤ length b → parse b ≡ ok (classify (read_header b))
unfolding parse
parse_long b h = ground arith

-- `parse` raises on fewer than 18 bytes, and on no other input.
parse_short : (b : List ℕ) → (parse b ≡ err value_error) ↔ (length b < 18)
unfolding parse
parse_short b = ground arith

header-classify : (h : Header) → header (classify h) ≡ h
unfolding header classify
header-classify h = ground arith

-- A packet has this header and is of the class that the flags say under the mask 0x20E.
unfoldable pub IsPacketOf : Header → AcnetPacket → Type 0
IsPacketOf h p =
    (header p ≡ h)
    × (is_reply p ≡ (bit_and h.flags 0x20E == 4))
    × (is_message p ≡ (bit_and h.flags 0x20E == 0))
    × (is_request p ≡ (bit_and h.flags 0x20E == 2))
    × (is_cancel p ≡ (bit_and h.flags 0x20E == 0x200))

classify-IsPacketOf : (h : Header) → IsPacketOf h (classify h)
unfolding IsPacketOf classify is_reply is_message is_request is_cancel header
classify-IsPacketOf h = (ground arith, ground arith, ground arith, ground arith, ground arith)

-- A header laid out as documented, with any payload behind it, is parsed to a packet with every field of it, which
-- is a reply, a message, a request or a cancellation exactly if its flags under the mask 0x20E are 4, 0, 2 or 0x200.
pub parse-layout :
    (h : Header) → Fits h → (p : AcnetPacket) × ((parse (layout h) ≡ ok p) × IsPacketOf h p)
parse-layout h f = (
  classify h,
  (
    parse_long (layout h) (omega arith)
        ∙ ap (λ (g : Header). ok (classify g)) (read_header-layout h f),
    classify-IsPacketOf h,
  ),
)
