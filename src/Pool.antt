-- ===== src/Pool.antt =====
-- internal/pool/pool.go. Every method holds the mutex for its whole body, so a method is one step;
-- the time that it reads is an argument. A connection is a number, and a method also returns the
-- connections that it closes. A nil connection is no argument of `put` here: no caller has one.
pub mod Laws
pub mod Ownership
pub mod Tests
use ciallo.Common.{
  ℕ, ◌*◌, Bytes, List, [], ◌∷◌, ◌++◌, Bool, true, false, if◌then◌else◌, Option, none, some,
  bytes_eq, length,
}
use ciallo.Common.Int.{ℤ, pos, leb_ℤ, ltb_ℤ}
use ciallo.Common.Dict.{Dict, lookup, insert}
use ciallo.Go.Time.{Time, Duration, sub, second}

pub record Options : Type 0 where
  pub max_idle_per_backend : ℤ
  pub idle_timeout : Duration

pub record PooledConn : Type 0 where
  pub conn : ℕ
  pub added_at : Time

-- The head of an idle list is the end of Go's slice, from which `Get` takes.
pub record Pool : Type 0 where
  pub options : Options
  pub idle : Dict Bytes (List PooledConn)
  pub closed : Bool

-- `New`
pub new_pool : Options → Pool
new_pool o = record {
  options = record {
    max_idle_per_backend =
        if leb_ℤ o.max_idle_per_backend (pos 0) then pos 1 else o.max_idle_per_backend;
    idle_timeout = if leb_ℤ o.idle_timeout (pos 0) then pos (30 * second) else o.idle_timeout;
  };
  idle = [];
  closed = false;
}

abbrev pub or_empty : Option (List PooledConn) → List PooledConn
or_empty none = []
or_empty (some cs) = cs

-- `p.idle[backend]`, nil for a missing key.
abbrev pub idle_of : Pool → Bytes → List PooledConn
idle_of p backend = or_empty (lookup backend p.idle)

-- `now.Sub(item.addedAt) <= p.options.IdleTimeout`
abbrev pub is_live : Duration → Time → PooledConn → Bool
is_live timeout now item = leb_ℤ (sub now item.added_at) timeout

-- What the loop of `Get` hands out, leaves and closes.
pub record Taken : Type 0 where
  pub handed : Option ℕ
  pub left : List PooledConn
  pub closes : List ℕ

pub take_live : Duration → Time → List PooledConn → Taken
take_live timeout now [] = record { handed = none; left = []; closes = [] }
take_live timeout now (item ∷ rest) =
    let more = take_live timeout now rest in
    if is_live timeout now item
    then record { handed = some item.conn; left = rest; closes = [] }
    else record more { closes = item.conn ∷ more.closes }

pub record Got : Type 0 where
  pub result : Option ℕ
  pub pool : Pool
  pub closes : List ℕ

-- The loop writes the map only if it runs.
abbrev pub store_left : Pool → Bytes → List PooledConn → List PooledConn → Pool
store_left p backend [] left = p
store_left p backend (_ ∷ _) left = record p { idle = insert backend left p.idle }

-- `Get`; its context changes nothing.
pub get : Pool → Bytes → Time → Got
get p backend now =
    let taken = take_live p.options.idle_timeout now (idle_of p backend) in
    if p.closed then record { result = none; pool = p; closes = [] } else record {
      result = taken.handed;
      pool = store_left p backend (idle_of p backend) taken.left;
      closes = taken.closes;
    }

pub keep_live : Duration → Time → List PooledConn → List PooledConn
keep_live timeout now [] = []
keep_live timeout now (item ∷ rest) =
    let kept = keep_live timeout now rest in if is_live timeout now item then item ∷ kept else kept

pub close_dead : Duration → Time → List PooledConn → List ℕ
close_dead timeout now [] = []
close_dead timeout now (item ∷ rest) =
    let dead = close_dead timeout now rest in
    if is_live timeout now item then dead else item.conn ∷ dead

-- `NeedsConn`
pub needs_conn : Pool → Bytes → Time → Bool × Pool × List ℕ
needs_conn p backend now =
    let timeout = p.options.idle_timeout in
    let kept = keep_live timeout now (idle_of p backend) in
    if p.closed then (false, p, []) else (
      ltb_ℤ (pos (length kept)) p.options.max_idle_per_backend,
      record p { idle = insert backend kept p.idle },
      close_dead timeout now (idle_of p backend),
    )

-- `Put`
pub put : Pool → Bytes → ℕ → Time → Pool × List ℕ
put p backend conn now =
    if p.closed
    then (p, conn ∷ [])
    else (if leb_ℤ p.options.max_idle_per_backend (pos (length (idle_of p backend)))
        then (p, conn ∷ [])
        else (
          record p {
            idle =
                insert backend (record { conn = conn; added_at = now } ∷ idle_of p backend) p.idle;
          },
          [],
        ))

abbrev pub conns : List PooledConn → List ℕ
conns [] = []
conns (item ∷ rest) = item.conn ∷ conns rest

pub all_conns : Dict Bytes (List PooledConn) → List ℕ
all_conns [] = []
all_conns ((_, cs) ∷ rest) = conns cs ++ all_conns rest

-- `Close`
pub close : Pool → Pool × List ℕ
close p = if p.closed then (p, []) else (record p { idle = []; closed = true }, all_conns p.idle)
