-- ===== src/Mcproto/Tests.antt =====
-- Packets and strings of a client of protocol 772, byte by byte.
use ciallo.Common.{◌≤◌, ◌<◌, ◌≡◌, refl, Bytes, [], ◌∷◌, ◌++◌, All, arith, ℕ_discrete}
use ciallo.Common.Int.{pos}
use ciallo.Go.Errors.{ok, err, eof}
use ciallo.Go.Reader.{Reader, bytes_reader}
use ciallo.Go.Text.{codes}
use ciallo.Go.Utf8.{runes, is_valid, decode_rune}
use ciallo.Mcproto.VarInt.{read_var_int, encode_var_int, var_int_size, check_packet_length}
use ciallo.Mcproto.VarInt.Decode.{IsMarked, read_var_int_cut}
use ciallo.Mcproto.VarInt.RoundTrip.{read_var_int-encode}
use ciallo.Mcproto.VarInt.Shortest.{var_int_size_least}
use ciallo.Mcproto.Packet.{Packet, read_packet, new_packet}
use ciallo.Mcproto.Packet.Read.{Packs, read_packet-new, read_packet-Packs}
use ciallo.Mcproto.Strings.{utf16_code_units}
use ciallo.Mcproto.Strings.Laws.{IsText}
use ciallo.Mcproto.Status.{parse_status_json, build_status_response, parse_status_json-build}

encode_var_int_300 : encode_var_int 300 ≡ 172 ∷ 2 ∷ []
unfolding encode_var_int
encode_var_int_300 = refl

read_var_int-encode_example :
    read_var_int (record { pending = encode_var_int 300 ++ (7 ∷ []); stop = eof })
    ≡ ok (300, encode_var_int 300, record { pending = 7 ∷ []; stop = eof })
read_var_int-encode_example = read_var_int-encode 300 (7 ∷ []) eof (omega arith)

-- 3 in two bytes, one more than it needs.
abbrev padded : Reader
padded = bytes_reader (131 ∷ 0 ∷ 9 ∷ [])

abbrev after_padded : Reader
after_padded = bytes_reader (9 ∷ [])

padded_reads : read_var_int padded ≡ ok (3, 131 ∷ 0 ∷ [], after_padded)
unfolding read_var_int ℕ_discrete
padded_reads = refl

var_int_size_least_example : var_int_size 3 ≤ 2
var_int_size_least_example =
    var_int_size_least padded 3 (131 ∷ 0 ∷ []) after_padded
      (omega arith, (omega arith, (omega arith, tt))) padded_reads

abbrev five_marked : Bytes
five_marked = 255 ∷ 255 ∷ 255 ∷ 255 ∷ 255 ∷ []

marked : (128 ≤ 255) × (255 < 256)
marked = (omega arith, omega arith)

five_marked-IsMarked : All IsMarked five_marked
five_marked-IsMarked = (marked, (marked, (marked, (marked, (marked, tt)))))

read_var_int_cut_example : read_var_int (record { pending = 255 ∷ 128 ∷ []; stop = eof }) ≡ err eof
read_var_int_cut_example =
    read_var_int_cut (255 ∷ 128 ∷ []) eof (marked, ((omega arith, omega arith), tt)) (omega arith)

read_packet-new_example :
    read_packet
      (record { pending = (new_packet 2 (5 ∷ 6 ∷ [])).raw ++ (7 ∷ []); stop = eof })
      (pos 3)
    ≡ ok (new_packet 2 (5 ∷ 6 ∷ []), record { pending = 7 ∷ []; stop = eof })
unfolding new_packet encode_var_int
read_packet-new_example =
    read_packet-new 2 (5 ∷ 6 ∷ []) (7 ∷ []) eof (pos 3) (omega arith) (omega arith) (omega arith)

-- The length 3, the id 2 and two bytes of data.
abbrev packet_reader : Reader
packet_reader = bytes_reader (3 ∷ 2 ∷ 5 ∷ 6 ∷ 7 ∷ [])

abbrev packet : Packet
packet = record { id = 2; body = 5 ∷ 6 ∷ []; payload = 2 ∷ 5 ∷ 6 ∷ []; raw = 3 ∷ 2 ∷ 5 ∷ 6 ∷ [] }

packet_reads : read_packet packet_reader (pos 64) ≡ ok (packet, bytes_reader (7 ∷ []))
unfolding read_packet read_var_int check_packet_length ciallo.Go.Reader.read_full ℕ_discrete
packet_reads = refl

read_packet-Packs_example : Packs packet_reader (pos 64) packet (bytes_reader (7 ∷ []))
read_packet-Packs_example =
    read_packet-Packs packet_reader (pos 64) packet (bytes_reader (7 ∷ [])) packet_reads

steve_IsText : IsText 16 (codes "Steve")
unfolding is_valid utf16_code_units runes decode_rune
steve_IsText = record { valid = refl; units = omega arith; bytes = omega arith }

document_IsText : IsText 32767 (codes "{\"description\":\"hi\"}")
unfolding is_valid utf16_code_units runes decode_rune
document_IsText = record { valid = refl; units = omega arith; bytes = omega arith }

document_reads_back :
    parse_status_json (build_status_response (codes "{\"description\":\"hi\"}"))
    ≡ ok (codes "{\"description\":\"hi\"}")
document_reads_back =
    parse_status_json-build (codes "{\"description\":\"hi\"}") document_IsText (λ e. cc)
