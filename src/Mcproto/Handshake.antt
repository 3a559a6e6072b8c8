-- ===== src/Mcproto/Handshake.antt =====
-- The handshake of internal/mcproto/handshake.go.
pub mod Laws
use ciallo.Common.{
  ℕ, ◌+◌, ◌*◌, ◌/◌, ◌%◌, Bytes, [], ◌∷◌, ◌++◌, ltb, if◌then◌else◌, length, ◌==◌, nat_eq, true,
  false,
}
use ciallo.Common.Int.{ℤ}
use ciallo.Go.Errors.{
  Error, Result, ok, err, ◌>>=◌, ◌>>◌, wrap, not_handshake, bad_protocol_version,
  bad_server_address, bad_next_state, server_port_short, eof,
}
use ciallo.Go.Reader.{Reader, bytes_reader}
use ciallo.Mcproto.VarInt.{read_var_int, encode_var_int}
use ciallo.Mcproto.Packet.{Packet, read_packet, new_packet}
use ciallo.Mcproto.Strings.{refuse, read_string, encode_string}

abbrev pub handshake_packet_id : ℕ
handshake_packet_id = 0x00

-- A `NextState` is any int32; the proxy knows two of them.
abbrev pub next_state_status : ℕ
next_state_status = 1

abbrev pub next_state_login : ℕ
next_state_login = 2

pub record Handshake : Type 0 where
  pub protocol_version : ℕ
  pub server_address : Bytes
  pub server_port : ℕ
  pub next_state : ℕ

-- `r.Len() < 2` is an error; otherwise `binary.BigEndian.Uint16` of the next two bytes.
read_port_bytes : Bytes → Error → Result (ℕ × Reader)
read_port_bytes (high ∷ low ∷ rest) stop =
    ok (high * 256 + low, record { pending = rest; stop = stop })
read_port_bytes _ stop = err server_port_short

unfoldable pub read_port : Reader → Result (ℕ × Reader)
unfolding read_port_bytes
read_port r = read_port_bytes r.pending r.stop

unfoldable pub parse_handshake : Packet → Result Handshake
parse_handshake p = do
  refuse (if p.id == handshake_packet_id then false else true) (not_handshake p.id)
  (protocol, _, r1) ← wrap bad_protocol_version (read_var_int (bytes_reader p.body))
  (address, r2) ← wrap bad_server_address (read_string r1 255)
  (port, r3) ← read_port r2
  (next, _, _) ← wrap bad_next_state (read_var_int r3)
  ok (record {
    protocol_version = protocol;
    server_address = address;
    server_port = port;
    next_state = next;
  })

-- `binary.BigEndian.PutUint16`
abbrev pub port_bytes : ℕ → Bytes
port_bytes port = (port / 256 % 256) ∷ (port % 256) ∷ []

abbrev pub handshake_body : ℕ → Bytes → ℕ → ℕ → Bytes
handshake_body protocol host port next =
    encode_var_int protocol ++ (encode_string host ++ (port_bytes port ++ encode_var_int next))

unfoldable pub build_handshake : ℕ → Bytes → ℕ → ℕ → Packet
build_handshake protocol host port next =
    new_packet handshake_packet_id (handshake_body protocol host port next)

-- `handleConn` reads the first packet of a connection and parses it.
unfoldable pub read_handshake : Reader → ℤ → Result (Handshake × Packet × Reader)
read_handshake r max_len = do (p, r1) ← read_packet r max_len; h ← parse_handshake p; ok (h, p, r1)
