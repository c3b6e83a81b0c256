-- ===== src/Packet.antt =====
-- pacsys/acnet/packet.py and the flags of pacsys/acnet/constants.py: ACNET packets. Bytes are
-- numbers below 256; `struct.unpack_from` reads them at fixed offsets.
pub mod Parse
pub mod Ids
mod Runs
use pacsys.Prelude.{
  ℕ, ◌+◌, ◌-◌, ◌*◌, ◌/◌, ◌%◌, ◌^◌, bit_and, bit_or, Bool, true, false, List, length, get_or, drop,
  Text, Result, ok, err, value_error, ltb, ◌==◌, if◌then◌else◌,
}
use pacsys.Prelude.Int.{ℤ, pos, negsuc, mod_ℤ, eqb_ℤ}
use pacsys.Rad50.{decode_stripped}

abbrev acnet_header_size : ℕ
acnet_header_size = 18

abbrev acnet_flg_type : ℕ
acnet_flg_type = 0x000E

abbrev acnet_flg_usm : ℕ
acnet_flg_usm = 0x0000

abbrev acnet_flg_req : ℕ
acnet_flg_req = 0x0002

abbrev acnet_flg_rpy : ℕ
acnet_flg_rpy = 0x0004

abbrev acnet_flg_can : ℕ
acnet_flg_can = 0x0200

abbrev acnet_flg_mlt : ℕ
acnet_flg_mlt = 0x0001

-- The fields of `AcnetPacket`.
pub record Header : Type 0 where
  pub flags : ℕ
  pub status : ℤ
  pub server : ℕ
  pub client : ℕ
  pub server_task : ℕ
  pub client_task_id : ℕ
  pub id : ℕ
  pub length_field : ℕ
  pub payload : List ℕ

-- The class hierarchy: the base class and its four subclasses. A request also carries the flag
-- that `cancel` sets.
pub data AcnetPacket : Type 0 where
  plain : Header → AcnetPacket
  reply : Header → AcnetPacket
  message : Header → AcnetPacket
  request : Header → Bool → AcnetPacket
  cancel : Header → AcnetPacket

unfoldable pub header : AcnetPacket → Header
header (plain h) = h
header (reply h) = h
header (message h) = h
header (request h c) = h
header (cancel h) = h

-- `struct.unpack_from` with "<H", ">H", "<I" and "<h" at an offset.
abbrev byte_at : List ℕ → ℕ → ℕ
byte_at data_bytes i = get_or data_bytes i 0

abbrev unpack_u16_le : List ℕ → ℕ → ℕ
unpack_u16_le b i = byte_at b i + 256 * byte_at b (i + 1)

abbrev unpack_u16_be : List ℕ → ℕ → ℕ
unpack_u16_be b i = 256 * byte_at b i + byte_at b (i + 1)

abbrev unpack_u32_le : List ℕ → ℕ → ℕ
unpack_u32_le b i = unpack_u16_le b i + 65536 * unpack_u16_le b (i + 2)

abbrev pub signed16 : ℕ → ℤ
signed16 w = if ltb w 32768 then pos w else negsuc (65535 - w)

-- The choice of the subclass at the end of `AcnetPacket.parse`.
unfoldable pub classify : Header → AcnetPacket
classify h =
    let msg_type = bit_and h.flags (bit_or acnet_flg_type acnet_flg_can) in
    if msg_type == acnet_flg_rpy
    then reply h
    else if msg_type == acnet_flg_usm
    then message h
    else if msg_type == acnet_flg_req
    then request h false
    else if msg_type == acnet_flg_can
    then cancel h
    else plain h

unfoldable pub read_header : List ℕ → Header
read_header b = record {
  flags = unpack_u16_le b 0;
  status = signed16 (unpack_u16_le b 2);
  server = unpack_u16_be b 4;
  client = unpack_u16_be b 6;
  server_task = unpack_u32_le b 8;
  client_task_id = unpack_u16_le b 12;
  id = unpack_u16_le b 14;
  length_field = unpack_u16_le b 16;
  payload = drop acnet_header_size b;
}

-- `AcnetPacket.parse`.
unfoldable pub parse : List ℕ → Result AcnetPacket
unfolding classify read_header
parse b =
    if ltb (length b) acnet_header_size then err value_error else ok (classify (read_header b))

unfoldable pub is_request : AcnetPacket → Bool
is_request (request h c) = true
is_request _ = false

unfoldable pub is_reply : AcnetPacket → Bool
is_reply (reply h) = true
is_reply _ = false

unfoldable pub is_message : AcnetPacket → Bool
is_message (message h) = true
is_message _ = false

unfoldable pub is_cancel : AcnetPacket → Bool
is_cancel (cancel h) = true
is_cancel _ = false

unfoldable server_task_name : Header → Text
unfolding decode_stripped
server_task_name h = decode_stripped h.server_task

-- `server_trunk` and `server_node`; `client_trunk` and `client_node`.
unfoldable pub server_trunk : Header → ℕ
server_trunk h = h.server / 2 ^ 8 % 2 ^ 8

unfoldable pub server_node : Header → ℕ
server_node h = h.server % 2 ^ 8

unfoldable client_trunk : Header → ℕ
client_trunk h = h.client / 2 ^ 8 % 2 ^ 8

unfoldable client_node : Header → ℕ
client_node h = h.client % 2 ^ 8

-- `AcnetReply.__init__` sets `_last`, and `success` compares the status.
unfoldable last : Header → Bool
last h = bit_and h.flags acnet_flg_mlt == 0

unfoldable success : Header → Bool
success h = eqb_ℤ h.status (pos 0)

-- `ReplyId.from_client_and_id`.
unfoldable from_client_and_id : ℕ → ℕ → ℕ
from_client_and_id client msg_id = bit_or (client * 2 ^ 16) msg_id

-- `AcnetRequest.__init__` sets `_reply_id` and `_multiple_reply`.
unfoldable pub reply_id : Header → ℤ
unfolding from_client_and_id
reply_id h = if eqb_ℤ h.status (pos 0) then pos (from_client_and_id h.client h.id) else h.status

unfoldable multiple_reply : Header → Bool
multiple_reply h = ltb 0 (bit_and h.flags acnet_flg_mlt)

-- `AcnetRequest.is_multicast`.
unfoldable is_multicast : Header → Bool
is_multicast h = h.server % 2 ^ 16 == 0xFF

unfoldable pub node_value : ℕ → ℕ → ℕ
node_value trunk node = bit_or (trunk % 2 ^ 8 * 2 ^ 8) (node % 2 ^ 8)

unfoldable pub node_parts : ℕ → ℕ × ℕ
node_parts value = (value / 2 ^ 8 % 2 ^ 8, value % 2 ^ 8)
