-- ===== src/Packet/Runs.antt =====
-- Concrete runs, and the theorems at concrete inputs.
use pacsys.Prelude.{◌+◌, ◌*◌, ◌≡◌, refl, [], ◌∷◌, arith, ok}
use pacsys.Prelude.Int.{pos}
use pacsys.Packet.{AcnetPacket, Header, parse, reply_id}
use pacsys.Packet.Parse.{IsPacketOf, layout, parse-layout}

abbrev request_header : Header
request_header = record {
  flags = 3;
  status = pos 0;
  server = 0x0a06;
  client = 0x0b07;
  server_task = 0x1b8d;
  client_task_id = 17;
  id = 300;
  length_field = 20;
  payload = 1 ∷ 2 ∷ [];
}

parse-layout_example :
    (p : AcnetPacket) × ((parse (layout request_header) ≡ ok p) × IsPacketOf request_header p)
parse-layout_example = parse-layout request_header (omega arith)

reply_id_request : reply_id request_header ≡ pos (0x0b07 * 65536 + 300)
unfolding reply_id
reply_id_request = refl
