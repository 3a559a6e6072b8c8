-- ===== src/Proxy/Pipe/Both.antt =====
-- `ProxyBidirectional` of internal/proxy/pipe.go: the two goroutines of `copyOne`, whose reads and
-- writes interleave. A connection that is closed gives `net.ErrClosed` to reads and writes. The return of
-- a loop and the `once.Do` after it are one step.
pub mod Laws
pub mod Ends
pub mod Tests
use ciallo.Common.{
  ℕ, suc, ◌+◌, ◌≡◌, Bytes, [], ◌∷◌, ◌++◌, Bool, true, false, ◌||◌, if◌then◌else◌, Option, none,
  some,
}
use ciallo.Go.Errors.{Error, listener_closed}
use ciallo.Go.Writer.{Writer}
use ciallo.Proxy.Pipe.{PipeStats, forward}

-- One loop of `copyWithIdle` under way: `read` is what `src.Read` gave when its bytes are not yet
-- written, `taken` are the bytes of the reads before, and `ended` says that the loop has returned.
pub record Copy : Type 0 where
  pub dst : Writer
  pub taken : Bytes
  pub written : ℕ
  pub read : Option (Bytes × Option Error)
  pub ended : Bool

-- `closed` says that both connections are, and `closes` counts the calls of `closeBoth`.
pub record Relay : Type 0 where
  pub up : Copy
  pub down : Copy
  pub closed : Bool
  pub closes : ℕ

pub start_copy : Writer → Copy
start_copy dst = record { dst = dst; taken = []; written = 0; read = none; ended = false }

pub start_relay : Writer → Writer → Relay
start_relay backend client = record {
  up = start_copy backend;
  down = start_copy client;
  closed = false;
  closes = 0;
}

abbrev pub fails : {A : Type 0} → Option A → Bool
fails none = false
fails (some _) = true

-- `src.Read`
pub take_read : Bool → Bytes × Option Error → Copy → Copy
take_read closed result c = record c {
  read = some (if closed then ([], some listener_closed) else result);
}

-- `dst.Write` of what was read.
abbrev pub send : Bool → Writer → Bytes → ℕ × (Option Error × Writer)
send closed dst [] = (0, (none, dst))
send closed dst (b ∷ bs) = if closed then (0, (some listener_closed, dst)) else forward dst (b ∷ bs)

-- The write and what follows it in the loop.
pub after_read : Bool → Bytes → Option Error → Copy → Copy
after_read closed chunk read_error c =
    let step = send closed c.dst chunk in
    record {
      dst = step.1.1;
      taken = c.taken ++ chunk;
      written = c.written + step.0;
      read = none;
      ended = fails step.1.0 || fails read_error;
    }

-- `once.Do(closeBoth)` where a loop has returned.
pub close_once : Bool → Relay → Relay
close_once false r = r
close_once true r = record r { closed = true; closes = if r.closed then r.closes else suc r.closes }

-- A step of one goroutine.
pub data CopyStep (closed : Bool) : Copy → Copy → Type 0 where
  reads :
      (c : Copy) (result : Bytes × Option Error)
      → c.ended ≡ false
      → c.read ≡ none
      → CopyStep closed c (take_read closed result c)
  writes :
      (c : Copy) (chunk : Bytes) (read_error : Option Error)
      → c.ended ≡ false
      → c.read ≡ some (chunk, read_error)
      → CopyStep closed c (after_read closed chunk read_error c)

pub data Step : Relay → Relay → Type 0 where
  ups :
      (r : Relay) {c : Copy}
      → CopyStep r.closed r.up c
      → Step r (close_once c.ended (record r { up = c }))
  downs :
      (r : Relay) {c : Copy}
      → CopyStep r.closed r.down c
      → Step r (close_once c.ended (record r { down = c }))

-- A history, with the number of its steps.
pub data Run (start : Relay) : ℕ → Relay → Type 0 where
  here : Run start 0 start
  next : {n : ℕ} {r s : Relay} → Run start n r → Step r s → Run start (suc n) s

-- What `ProxyBidirectional` returns, which waits for both loops.
pub stats : Relay → PipeStats
stats r = record { client_to_backend = r.up.written; backend_to_client = r.down.written }
