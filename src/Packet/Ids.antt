-- ===== src/Packet/Ids.antt =====
-- Node numbers and reply identifiers.
use pacsys.Prelude.{ℕ, ◌/◌, ◌%◌, ◌^◌, ◌<◌, ◌≡◌, refl, arith}
use pacsys.Prelude.Bits.{bit_or-shifted}
use pacsys.Prelude.Int.{pos}
use pacsys.Packet.{Header, node_value, node_parts, server_trunk, server_node, reply_id}

-- `node_parts` of a node value are the low bytes of the trunk and of the node that made it.
node_parts-node_value :
    (trunk node : ℕ) → node_parts (node_value trunk node) ≡ (trunk % 256, node % 256)
unfolding node_parts node_value
node_parts-node_value trunk node =
    rw (bit_or-shifted 8 (trunk % 2 ^ 8) (node % 2 ^ 8) (omega arith)) (ground arith)

-- A 16-bit node value is the value of its own parts, and these are the trunk and node of a
-- packet that names it as its server.
node_value-node_parts :
    (h : Header)
    → h.server < 65536
    → (node_value (node_parts h.server).0 (node_parts h.server).1 ≡ h.server)
      × (node_parts h.server ≡ (server_trunk h, server_node h))
unfolding node_parts node_value server_trunk server_node
node_value-node_parts h p = (
  rw (bit_or-shifted 8 (h.server / 2 ^ 8 % 2 ^ 8 % 2 ^ 8) (h.server % 2 ^ 8 % 2 ^ 8) (omega arith))
      (omega arith),
  refl,
)

-- Two requests of status 0 with 16-bit client nodes and message ids have the same reply id only if
-- client and message id agree; one of another status is named by the status alone.
reply_id_injective :
    (g h : Header)
    → g.status ≡ pos 0
    → h.status ≡ pos 0
    → g.id < 65536
    → h.id < 65536
    → reply_id g ≡ reply_id h
    → (g.client ≡ h.client) × (g.id ≡ h.id)
unfolding reply_id
reply_id_injective g h eg eh pg ph e =
    ground (arith, bit_or-shifted 16 g.client g.id, bit_or-shifted 16 h.client h.id)
