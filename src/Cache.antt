-- ===== src/Cache.antt =====
-- internal/cache/status_cache.go. A time that the code reads from its clock is an argument. Each
-- critical section is one function, so that another goroutine's may come between two of them.
pub mod Laws
pub mod Race
pub mod Tests
use ciallo.Common.{
  ℕ, ◌-◌, ◌^◌, Bytes, [], ◌∷◌, Bool, true, false, ◌||◌, not, if◌then◌else◌, Option, none, some,
  bytes_eq, length, leb,
}
use ciallo.Common.Int.{ℤ, pos, ltb_ℤ, leb_ℤ}
use ciallo.Common.Dict.{Dict, lookup, insert, delete}
use ciallo.Go.Errors.{Result, ok, err}
use ciallo.Go.Json.{Json}
use ciallo.Go.Reader.{bytes_reader}
use ciallo.Go.Time.{Time, Duration, before, after, add}
use ciallo.Mcproto.VarInt.{max_packet_length}
use ciallo.Mcproto.Packet.{Packet, read_packet}
use ciallo.Mcproto.Status.{
  FallbackStatusOptions, parse_status_json, extract_motd, build_fallback_status_with_options,
}

-- Go's `data` is `response` here.
pub record Entry : Type 0 where
  pub response : Bytes
  pub motd : Bytes
  pub fresh_until : Time
  pub stale_until : Time

-- `map[string]entry`
abbrev pub Entries : Type 0
Entries = Dict Bytes Entry

pub new_status_cache : Entries
new_status_cache = []

-- The second critical section of `GetFresh`, after `item` was read and found not fresh.
pub evict : Entries → Bytes → Entry → Time → Entries
evict entries key item now = if after now item.stale_until then delete key entries else entries

-- `GetFresh` from the point where it has read `found`; the clock is read once or twice.
unfoldable pub finish_get_fresh :
    Option Entry → Entries → Bytes → Time → Time → Option Bytes × Entries
finish_get_fresh none entries key now now' = (none, entries)
finish_get_fresh (some item) entries key now now' =
    if not (before now item.fresh_until)
    then (none, evict entries key item now')
    else (some item.response, entries)

unfoldable pub get_fresh : Entries → Bytes → Time → Time → Option Bytes × Entries
get_fresh entries key now now' = finish_get_fresh (lookup key entries) entries key now now'

-- `Get`
abbrev pub get : Entries → Bytes → Time → Time → Option Bytes × Entries
get = get_fresh

abbrev or_nil : Option Bytes → Bytes
or_nil none = []
or_nil (some b) = b

abbrev is_nil : Bytes → Bool
is_nil [] = true
is_nil (_ ∷ _) = false

module _ (json : Json) where
  abbrev motd_of_json : Result Bytes → Bytes
  motd_of_json (ok status_json) = or_nil (extract_motd json status_json)
  motd_of_json (err e) = []

  abbrev motd_of_packet {ℓ} : {R : Type ℓ} → Result (Packet × R) → Bytes
  motd_of_packet (ok (p, _)) = motd_of_json (parse_status_json p)
  motd_of_packet (err e) = []

  -- `extractMOTD`; nil is the empty slice.
  pub extract_motd_of : Bytes → Bytes
  extract_motd_of response =
      motd_of_packet (read_packet (bytes_reader response) (pos max_packet_length))

  abbrev pub new_entry : Bytes → Duration → Duration → Time → Entry
  new_entry response ttl fallback_ttl now =
      let until = add now ttl in
      record {
        response = response;
        motd = extract_motd_of response;
        fresh_until = until;
        stale_until = if ltb_ℤ (pos 0) fallback_ttl then add until fallback_ttl else until;
      }

  pub set_with_fallback : Entries → Bytes → Bytes → Duration → Duration → Time → Entries
  set_with_fallback entries key response ttl fallback_ttl now =
      if leb_ℤ ttl (pos 0)
      then entries
      else insert key (new_entry response ttl fallback_ttl now) entries

  -- `Set`
  unfoldable pub set : Entries → Bytes → Bytes → Duration → Time → Entries
  set entries key response ttl now = set_with_fallback entries key response ttl (pos 0) now

  abbrev raw_of : Result Packet → Option Bytes
  raw_of (ok p) = some p.raw
  raw_of (err e) = none

  -- `GetFallbackWithOptions` from the point where it has read `found`.
  pub finish_get_fallback :
      Option Entry → Entries → Bytes → ℕ → FallbackStatusOptions → Time → Option Bytes × Entries
  finish_get_fallback none entries key protocol options now = (none, entries)
  finish_get_fallback (some item) entries key protocol options now =
      if after now item.stale_until || is_nil item.motd
      then (none, delete key entries)
      else (raw_of (build_fallback_status_with_options json protocol item.motd options), entries)

  pub get_fallback_with_options :
      Entries → Bytes → ℕ → FallbackStatusOptions → Time → Option Bytes × Entries
  get_fallback_with_options entries key protocol options now =
      finish_get_fallback (lookup key entries) entries key protocol options now

  -- `GetFallback`
  unfoldable pub get_fallback : Entries → Bytes → ℕ → Time → Option Bytes × Entries
  get_fallback entries key protocol now =
      get_fallback_with_options entries key protocol
        (record { version_name = []; players_max = pos 0 }) now
