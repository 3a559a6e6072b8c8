-- ===== src/Mcproto/Login.antt =====
-- internal/mcproto/login.go
use ciallo.Common.{
  ℕ, ◌≡◌, ◌≢◌, Bytes, [], ◌++◌, if◌then◌else◌, ◌==◌, nat_eq, true, false, arith, ℕ_discrete,
}
use ciallo.Go.Errors.{Result, ok, eof, ◌>>=◌, ◌>>◌, not_login_start}
use ciallo.Go.Reader.{bytes_reader}
use ciallo.Mcproto.Packet.{Packet, new_packet}
use ciallo.Mcproto.Strings.{refuse, read_string, encode_string}
use ciallo.Mcproto.Strings.Laws.{IsText, read_string-encode}

abbrev pub login_start_packet_id : ℕ
login_start_packet_id = 0x00

abbrev pub login_disconnect_packet_id : ℕ
login_disconnect_packet_id = 0x00

-- `ParseLoginStart` gives the user name; the protocol version is not looked at.
unfoldable pub parse_login_start : Packet → ℕ → Result Bytes
parse_login_start p protocol_version = do
  refuse (if p.id == login_start_packet_id then false else true) (not_login_start p.id)
  (username, _) ← read_string (bytes_reader p.body) 16
  ok username

pub build_login_start : Bytes → Bytes → Packet
build_login_start username trailing =
    new_packet login_start_packet_id (encode_string username ++ trailing)

unfoldable pub build_login_disconnect : Bytes → Packet
build_login_disconnect reason = new_packet login_disconnect_packet_id (encode_string reason)

-- `ParseLoginStart` reads the user name back from the packet that `BuildLoginStart` made, whatever
-- the client's version appends to it, unless both are empty.
pub parse_login_start-build :
    (username trailing : Bytes) (protocol_version : ℕ)
    → IsText 16 username
    → username ++ trailing ≢ []
    → parse_login_start (build_login_start username trailing) protocol_version ≡ ok username
unfolding parse_login_start build_login_start new_packet ℕ_discrete
parse_login_start-build username trailing protocol_version h some_byte =
    rw (read_string-encode username trailing eof 16 h (omega (arith, h.bytes)) some_byte)
