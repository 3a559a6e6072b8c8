-- ===== src/Cache/Tests.antt =====
-- A cache over a day of one key. The JSON of the tests takes a whole document for its description
-- and writes the description alone.
use ciallo.Common.{◌≡◌, refl, Bytes, [], ◌∷◌, arith, ℕ_discrete, none, some, ◌≢◌, bytes_eq}
use ciallo.Common.Int.{pos, ◌+ℤ◌}
use ciallo.Common.Dict.{lookup}
use ciallo.Go.Errors.{ok}
use ciallo.Go.Json.{Json}
use ciallo.Go.Text.{codes}
use ciallo.Go.Utf8.{runes, is_valid, decode_rune}
use ciallo.Mcproto.VarInt.{read_var_int, encode_var_int, check_packet_length}
use ciallo.Mcproto.Packet.{Packet, read_packet, new_packet}
use ciallo.Mcproto.Strings.{read_string, encode_string, read_bytes, utf16_code_units}
use ciallo.Mcproto.Status.{
  FallbackStatusOptions, build_status_response, build_fallback_status_with_options,
  parse_status_json, extract_motd,
}
use ciallo.Cache.{
  Entry, Entries, new_status_cache, get_fresh, set_with_fallback, get_fallback_with_options,
  extract_motd_of, finish_get_fresh,
}
use ciallo.Cache.Laws.{get_fallback_after_miss}
use ciallo.Cache.Race.{store_lost}

abbrev json : Json
json = record {
  unmarshal_fields = λ document. some ((codes "description", document) ∷ []);
  marshal_status = λ version protocol players description. ok description;
}

abbrev key : Bytes
key = codes "a"

abbrev response : Bytes
response = (build_status_response (codes "hi")).raw

abbrev stored : Entries
stored = set_with_fallback json new_status_cache key response (pos 10) (pos 100) (pos 5)

motd_of_response : extract_motd_of json response ≡ codes "hi"
unfolding extract_motd_of read_packet read_var_int encode_var_int check_packet_length
    ciallo.Go.Reader.read_full new_packet build_status_response encode_string read_string read_bytes
    parse_status_json extract_motd is_valid utf16_code_units runes decode_rune lookup ℕ_discrete
    bytes_eq
motd_of_response = refl

some_motd : extract_motd_of json response ≢ []
some_motd e = let same = motd_of_response in cc

abbrev options : FallbackStatusOptions
options = record { version_name = codes "v"; players_max = pos 3 }

abbrev fallback_packet : Packet
fallback_packet = build_status_response (codes "hi")

fallback_builds :
    build_fallback_status_with_options json 772 (extract_motd_of json response) options
    ≡ ok fallback_packet
unfolding build_fallback_status_with_options
fallback_builds = rw motd_of_response refl

get_fallback_after_miss_example :
    (get_fresh stored key (pos 20) (pos 21) ≡ (none, stored))
    × (get_fallback_with_options json stored key 772 options (pos 22)
        ≡ (some fallback_packet.raw, stored))
unfolding ◌+ℤ◌
get_fallback_after_miss_example =
    get_fallback_after_miss json new_status_cache key response (pos 10) (pos 100) (pos 5)
      (omega arith) 772 options (pos 20) (pos 21) (pos 22) fallback_packet (omega arith)
      (omega arith) (omega arith) (omega arith) some_motd fallback_builds

abbrev old : Entry
old = record { response = []; motd = []; fresh_until = pos 1; stale_until = pos 2 }

store_lost_example :
    lookup key
      (finish_get_fresh
        (lookup key ((key, old) ∷ []))
        (set_with_fallback json ((key, old) ∷ []) key response (pos 10) (pos 100) (pos 5))
        key
        (pos 4)
        (pos 6)).1
    ≡ none
unfolding lookup bytes_eq ℕ_discrete
store_lost_example =
    store_lost json ((key, old) ∷ []) key response (pos 10) (pos 100) (pos 5) old (pos 4) (pos 6)
      refl (omega arith) (omega arith)
