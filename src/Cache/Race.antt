-- ===== src/Cache/Race.antt =====
-- The cache under several goroutines: a read is two critical sections, between which any other
-- section may run.
use ciallo.Common.{ℕ, ◌≡◌, Bytes, Option, none, some, bytes_eq, arith}
use ciallo.Common.Int.{◌≤ℤ◌, ◌<ℤ◌}
use ciallo.Common.Dict.{lookup, lookup-delete, NodupKeys}
use ciallo.Go.Json.{Json}
use ciallo.Go.Time.{Time, Duration}
use ciallo.Mcproto.Status.{FallbackStatusOptions}
use ciallo.Cache.{Entry, Entries, evict, finish_get_fresh, set_with_fallback, finish_get_fallback}

-- A critical section that writes. What a read or a fallback has found is any entry, since the table
-- may have changed since.
pub data Step (json : Json) : Entries → Entries → Type 0 where
  store :
      (e : Entries) (key response : Bytes) (ttl fallback_ttl : Duration) (now : Time)
      → Step json e (set_with_fallback json e key response ttl fallback_ttl now)
  end_read :
      (e : Entries) (found : Option Entry) (key : Bytes) (now now' : Time)
      → Step json e (finish_get_fresh found e key now now').1
  end_fallback :
      (e : Entries) (found : Option Entry) (key : Bytes) (protocol : ℕ)
      (options : FallbackStatusOptions) (now : Time)
      → Step json e (finish_get_fallback json found e key protocol options now).1

pub data Reach (json : Json) (start : Entries) : Entries → Type 0 where
  here : Reach json start start
  next : {e f : Entries} → Reach json start e → Step json e f → Reach json start f

-- The table is a map, and no entry stays fresh longer than it stays at all.
pub record IsSound (entries : Entries) : Type 0 where
  pub distinct : NodupKeys entries
  pub ordered :
      (k : Bytes) (item : Entry)
      → lookup k entries ≡ some item
      → item.fresh_until ≤ℤ item.stale_until

-- A store can be lost: where a read has found an entry that is stale by now, and another goroutine
-- stores a response under the key before the read's second section, that section deletes the new
-- entry, however fresh it is.
pub store_lost :
    (json : Json) (e : Entries) (key response : Bytes) (ttl fallback_ttl : Duration) (t : Time)
    (old : Entry) (now now' : Time)
    → lookup key e ≡ some old
    → old.fresh_until ≤ℤ now
    → old.stale_until <ℤ now'
    → lookup key
        (finish_get_fresh
          (lookup key e)
          (set_with_fallback json e key response ttl fallback_ttl t)
          key
          now
          now').1
      ≡ none
unfolding finish_get_fresh evict
store_lost json e key response ttl fallback_ttl t old now now' found expired stale = rw found (
    ground
      (arith, lookup-delete key key (set_with_fallback json e key response ttl fallback_ttl t)))
