-- ===== src/Cache/Laws.antt =====
-- Reads, stores and fallbacks on the table of internal/cache/status_cache.go.
use ciallo.Common.{
  ℕ, ◌≡◌, ◌≢◌, Bytes, [], not, if◌then◌else◌, none, some, bytes_eq, ◌==◌, ◌&&◌, arith,
}
use ciallo.Common.Int.{pos, leb_ℤ, ◌≤ℤ◌, ◌<ℤ◌}
use ciallo.Common.Dict.{lookup, lookup-insert, lookup-delete}
use ciallo.Go.Errors.{ok}
use ciallo.Go.Json.{Json}
use ciallo.Go.Time.{Time, Duration, before, after, add}
use ciallo.Mcproto.Packet.{Packet}
use ciallo.Mcproto.Status.{FallbackStatusOptions, build_fallback_status_with_options}
use ciallo.Cache.{
  Entries, evict, finish_get_fresh, get_fresh, extract_motd_of, new_entry, set_with_fallback,
  finish_get_fallback, get_fallback_with_options,
}

-- A store with a positive TTL puts its entry under the key and leaves the other keys alone; with
-- another TTL it does nothing.
pub lookup-set :
    (json : Json) (entries : Entries) (j key response : Bytes) (ttl fallback_ttl : Duration)
    (t : Time)
    → lookup j (set_with_fallback json entries key response ttl fallback_ttl t) ≡ (
        if leb_ℤ ttl (pos 0)
        then lookup j entries
        else (if j == key
            then some (new_entry json response ttl fallback_ttl t)
            else lookup j entries))
unfolding set_with_fallback
lookup-set json entries j key response ttl fallback_ttl t =
    ground (arith, lookup-insert j key (new_entry json response ttl fallback_ttl t) entries)

module _ (json : Json) (entries : Entries) (key response : Bytes) (ttl fallback_ttl : Duration)
    (t : Time) (positive : pos 0 <ℤ ttl) where
  lookup-set_self :
      lookup key (set_with_fallback json entries key response ttl fallback_ttl t)
      ≡ some (new_entry json response ttl fallback_ttl t)
  lookup-set_self = ground (arith, lookup-set json entries key key response ttl fallback_ttl t)

  -- A response that was stored with a positive TTL is served unchanged at every time before the
  -- TTL is over, and the read leaves the cache as it is.
  pub get_fresh-set :
      (now now' : Time)
      → now <ℤ add t ttl
      → get_fresh (set_with_fallback json entries key response ttl fallback_ttl t) key now now'
        ≡ (some response, set_with_fallback json entries key response ttl fallback_ttl t)
  unfolding get_fresh finish_get_fresh
  get_fresh-set now now' h = rw lookup-set_self (ground arith)

  -- From the end of the TTL on a read misses, but keeps the entry while the fallback TTL runs; the
  -- fallback then is the status document built from the stored description, if there is one.
  pub get_fallback_after_miss :
      (protocol : ℕ) (options : FallbackStatusOptions) (now now' now'' : Time) (p : Packet)
      → add t ttl ≤ℤ now
      → now' ≤ℤ add (add t ttl) fallback_ttl
      → now'' ≤ℤ add (add t ttl) fallback_ttl
      → pos 0 <ℤ fallback_ttl
      → extract_motd_of json response ≢ []
      → build_fallback_status_with_options json protocol (extract_motd_of json response) options
        ≡ ok p
      → let after_set = set_with_fallback json entries key response ttl fallback_ttl t in
        (get_fresh after_set key now now' ≡ (none, after_set))
        × (get_fallback_with_options json after_set key protocol options now''
            ≡ (some p.raw, after_set))
  unfolding get_fresh finish_get_fresh evict get_fallback_with_options finish_get_fallback
  get_fallback_after_miss protocol options now now' now'' p h h' h'' fb motd built =
      (rw lookup-set_self (ground arith), rw lookup-set_self (ground arith))

-- What a read of the key does in every case: it serves a fresh entry, keeps an entry that is not yet
-- stale, and drops one that is stale; no other key is touched.
pub get_fresh_cases :
    (entries : Entries) (j key : Bytes) (now now' : Time)
    → ((get_fresh entries key now now').0 ≡ elim (lookup key entries) [
      | none ↦ none
      | some item ↦ if before now item.fresh_until then some item.response else none
    ])
      × (lookup j (get_fresh entries key now now').1 ≡ elim (lookup key entries) [
        | none ↦ lookup j entries
        | some item ↦
            if not (before now item.fresh_until) && (after now' item.stale_until && j == key)
            then none
            else lookup j entries
      ])
unfolding get_fresh finish_get_fresh evict
get_fresh_cases entries j key now now' = ground (arith, lookup-delete j key entries)
