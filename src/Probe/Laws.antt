-- ===== src/Probe/Laws.antt =====
-- A run of internal/probe/probe.go against the readers of internal/mcproto and internal/proxy.
use ciallo.Common.{Bytes, [], length}
use ciallo.Go.Reader.{Reader}
use ciallo.Go.Writer.{Writer}
use ciallo.Mcproto.Packet.{Packet, new_packet}
use ciallo.Mcproto.Handshake.{build_handshake, next_state_status}
use ciallo.Mcproto.Status.{status_request_packet_id}
use ciallo.Probe.Description.{Fields, flatten}
use ciallo.Probe.{Options, Probed, Root}

-- What a run puts on the connection.
abbrev pub handshake_of : Options → Packet
handshake_of o = build_handshake o.protocol_version o.host o.port next_state_status

abbrev pub request_packet : Packet
request_packet = new_packet status_request_packet_id []

-- What a run returns of an answer.
abbrev pub report : (Fields → Bytes) → Options → Bytes → Root → Probed
report marshal o document root = record {
  addr = o.addr;
  host = o.host;
  protocol = o.protocol_version;
  version = root.version;
  players = root.players;
  description = flatten marshal root.description;
  raw_json_length = length document;
}
