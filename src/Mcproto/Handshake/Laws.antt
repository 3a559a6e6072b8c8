-- ===== src/Mcproto/Handshake/Laws.antt =====
-- Handshakes of internal/mcproto/handshake.go, built and parsed.
use ciallo.Common.{ℕ, ◌^◌, ◌≤◌, ◌<◌, ◌≡◌, ◌≢◌, Bytes, [], ◌∷◌, ◌++◌, length, arith, ℕ_discrete}
use ciallo.Go.Errors.{Error, ok, err, eof, not_handshake}
use ciallo.Mcproto.VarInt.{IsInt32, encode_var_int}
use ciallo.Mcproto.VarInt.Encode.{encode_var_int-groups, length-groups}
use ciallo.Mcproto.VarInt.RoundTrip.{read_var_int-encode, read_var_int-encode_last}
use ciallo.Mcproto.Packet.{Packet, new_packet}
use ciallo.Mcproto.Strings.{encode_string}
use ciallo.Mcproto.Strings.Laws.{IsText, read_string-encode}
use ciallo.Mcproto.Handshake.{read_port, parse_handshake, port_bytes, build_handshake}

append-cons-ne : (xs : Bytes) (y : ℕ) (ys : Bytes) → xs ++ (y ∷ ys) ≢ []
append-cons-ne [] y ys e = cc
append-cons-ne (x ∷ xs) y ys e = cc

read_port-bytes :
    (port : ℕ) (rest : Bytes) (stop : Error)
    → port < 2 ^ 16
    → read_port (record { pending = port_bytes port ++ rest; stop = stop })
      ≡ ok (port, record { pending = rest; stop = stop })
unfolding read_port
read_port-bytes port rest stop h = ground arith

-- `ParseHandshake` reads the four fields back from the packet that `BuildHandshake` made of them,
-- for every int32 protocol and state, every uint16 port and every host that the protocol allows.
pub parse_handshake-build :
    (protocol : ℕ) (host : Bytes) (port next : ℕ)
    → IsInt32 protocol
    → IsText 255 host
    → port < 2 ^ 16
    → IsInt32 next
    → parse_handshake (build_handshake protocol host port next)
      ≡ ok (record {
        protocol_version = protocol;
        server_address = host;
        server_port = port;
        next_state = next;
      })
unfolding parse_handshake build_handshake new_packet ℕ_discrete
parse_handshake-build protocol host port next hp hh hport hn =
    let tail : Bytes = port_bytes port ++ encode_var_int next in
    rw (
      read_var_int-encode protocol (encode_string host ++ tail) eof hp,
      read_string-encode host tail eof 255 hh (omega (arith, hh.bytes)) (append-cons-ne host _ _),
      read_port-bytes port (encode_var_int next) eof hport,
      read_var_int-encode_last next eof hn,
    )

pub length-encode-le : (v : ℕ) → IsInt32 v → length (encode_var_int v) ≤ 5
length-encode-le v h = rw (encode_var_int-groups v h) (omega (arith, length-groups 4 v))

-- A first packet of another kind is no handshake.
pub parse_handshake_wrong_id :
    (p : Packet) → p.id ≢ 0 → parse_handshake p ≡ err (not_handshake p.id)
unfolding parse_handshake
parse_handshake_wrong_id p h = ground arith
