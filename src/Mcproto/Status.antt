-- ===== src/Mcproto/Status.antt =====
-- internal/mcproto/status.go
use ciallo.Common.{
  ℕ, suc, zero, ◌/◌, ◌%◌, ◌≡◌, ◌≢◌, refl, Bytes, [], ◌∷◌, ◌++◌, if◌then◌else◌, ◌==◌, nat_eq,
  bytes_eq, true, false, length, arith, ℕ_discrete, Option, none, some, append-nil,
}
use ciallo.Common.Int.{ℤ, pos, ltb_ℤ}
use ciallo.Common.Dict.{lookup}
use ciallo.Go.Errors.{Result, ok, err, eof, ◌>>=◌, ◌>>◌, not_status_response, ping_payload_length}
use ciallo.Go.Defaults.{or_text}
use ciallo.Go.Json.{Json}
use ciallo.Go.Reader.{bytes_reader}
use ciallo.Go.Text.{codes}
use ciallo.Mcproto.Packet.{Packet, new_packet}
use ciallo.Mcproto.Strings.{refuse, read_string, encode_string}
use ciallo.Mcproto.Strings.Laws.{IsText, read_string-encode}

abbrev pub status_request_packet_id : ℕ
status_request_packet_id = 0x00

abbrev pub status_response_packet_id : ℕ
status_response_packet_id = 0x00

abbrev pub status_ping_packet_id : ℕ
status_ping_packet_id = 0x01

abbrev pub status_pong_packet_id : ℕ
status_pong_packet_id = 0x01

unfoldable pub build_status_response : Bytes → Packet
build_status_response json = new_packet status_response_packet_id (encode_string json)

unfoldable pub build_pong : Bytes → Result Packet
build_pong payload =
    if length payload == 8
    then ok (new_packet status_pong_packet_id payload)
    else err (ping_payload_length (length payload))

-- `binary.BigEndian.PutUint64` of an int64, by its bit pattern; the lowest `n` bytes.
abbrev big_endian : ℕ → ℕ → Bytes
big_endian zero v = []
big_endian (suc n) v = big_endian n (v / 256) ++ (v % 256 ∷ [])

unfoldable pub build_ping : ℕ → Packet
build_ping value = new_packet status_ping_packet_id (big_endian 8 value)

unfoldable pub parse_status_json : Packet → Result Bytes
parse_status_json p = do
  refuse (if p.id == status_response_packet_id then false else true) (not_status_response p.id)
  (json, _) ← read_string (bytes_reader p.body) 32767
  ok json

abbrev nonempty : Bytes → Option Bytes
nonempty [] = none
nonempty (b ∷ bs) = some (b ∷ bs)

abbrev and_then {ℓ κ} : {A : Type ℓ} {B : Type κ} → Option A → (A → Option B) → Option B
and_then none f = none
and_then (some a) f = f a

pub record FallbackStatusOptions : Type 0 where
  pub version_name : Bytes
  pub players_max : ℤ

module _ (json : Json) where
  -- `ExtractMOTD`; an empty description counts as none.
  unfoldable pub extract_motd : Bytes → Option Bytes
  extract_motd status_json =
      and_then (json.unmarshal_fields status_json)
        λ root. and_then (lookup (codes "description") root) nonempty

  unfoldable pub build_fallback_status_with_options :
      ℕ → Bytes → FallbackStatusOptions → Result Packet
  build_fallback_status_with_options protocol motd options = do
    let version_name = or_text options.version_name (codes "ciallo fallback")
    let players_max = if ltb_ℤ options.players_max (pos 0) then pos 0 else options.players_max
    let description = or_text motd (codes "{\"text\":\"Server status temporarily unavailable\"}")
    document ← json.marshal_status version_name protocol players_max description
    ok (build_status_response document)

  unfoldable pub build_fallback_status : ℕ → Bytes → Result Packet
  build_fallback_status protocol motd =
      build_fallback_status_with_options protocol motd
        (record { version_name = []; players_max = pos 0 })

-- `ParseStatusJSON` reads back the document of a response that `BuildStatusResponse` made, for
-- every document that is not empty and keeps the protocol's limit.
pub parse_status_json-build :
    (document : Bytes)
    → IsText 32767 document
    → document ≢ []
    → parse_status_json (build_status_response document) ≡ ok document
unfolding parse_status_json build_status_response new_packet ℕ_discrete
parse_status_json-build document h some_byte = rw (
  ← append-nil (encode_string document),
  read_string-encode document [] eof 32767 h (omega (arith, h.bytes))
      (λ e. some_byte (rw append-nil at e)),
)

-- `BuildPong` answers every ping that `BuildPing` made, with the ping's own eight bytes.
pub build_pong-ping :
    (v : ℕ)
    → build_pong (build_ping v).body ≡ ok (new_packet status_pong_packet_id (build_ping v).body)
unfolding build_pong build_ping ℕ_discrete
build_pong-ping v = unfold new_packet in refl
