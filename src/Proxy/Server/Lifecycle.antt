-- ===== src/Proxy/Server/Lifecycle.antt =====
-- The life of the server of internal/proxy/server.go: ListenAndServe, Serve, Ready and Shutdown. A
-- connection is a number, and the listener is what package net documents of it: a queue of connections
-- until it is closed, and net.ErrClosed for each call after that.
pub mod Ends
pub mod Tests
use ciallo.Common.{
  ℕ, suc, ◌≡◌, List, [], ◌∷◌, ◌++◌, Bool, true, false, ◌||◌, if◌then◌else◌, Option, none, some,
}
use ciallo.Go.Errors.{Error, Result, ok, err, listener_closed}

pub record Listener : Type 0 where
  pub backlog : List ℕ
  pub closed : Bool

-- Where the call of `Serve` stands.
pub data Phase : Type 0 where
  idle accepting : Phase
  returned : Option Error → Phase

-- `ln` is the server's field, `ctx_err` is `ctx.Err()`, `watching` says that the goroutine of `Serve`
-- waits for the context, and `handled` are the connections that a goroutine of `handleConn` has.
pub record Life : Type 0 where
  pub ln : Option Listener
  pub ctx_err : Option Error
  pub watching : Bool
  pub phase : Phase
  pub handled : List ℕ

abbrev pub new_life : Life
new_life = record { ln = none; ctx_err = none; watching = false; phase = idle; handled = [] }

abbrev pub is_set {ℓ} : {A : Type ℓ} → Option A → Bool
is_set none = false
is_set (some _) = true

pub ready : Life → Bool
ready s = is_set s.ln

abbrev pub take_conn : List ℕ → Option (Result ℕ × Listener)
take_conn [] = none
take_conn (conn ∷ conns) = some (ok conn, record { backlog = conns; closed = false })

-- `ln.Accept`, or none while it blocks.
pub accept : Listener → Option (Result ℕ × Listener)
accept l = if l.closed then some (err listener_closed, l) else take_conn l.backlog

-- `ln.Close`
unfoldable pub close_listener : Listener → Listener × Option Error
close_listener l =
    if l.closed then (l, some listener_closed) else (record { backlog = []; closed = true }, none)

-- The start of `Serve`, up to its loop.
unfoldable pub start_serve : Life → Listener → Life
start_serve s l = record s { ln = some l; watching = true; phase = accepting }

pub listen_and_serve : Life → Result Listener → Life
listen_and_serve s (ok l) = start_serve s l
listen_and_serve s (err e) = record s { phase = returned (some e) }

abbrev pub is_listener_closed : Error → Bool
is_listener_closed listener_closed = true
is_listener_closed _ = false

-- What `Serve` returns at an error of `Accept`.
pub serve_result : Option Error → Error → Option Error
serve_result ctx_err e = if is_listener_closed e || is_set ctx_err then ctx_err else some e

-- A turn of the loop of `Serve`.
pub after_accept : Life → Result ℕ → Listener → Life
after_accept s (ok conn) l = record s { ln = some l; handled = s.handled ++ (conn ∷ []) }
after_accept s (err e) l = record s { ln = some l; phase = returned (serve_result s.ctx_err e) }

abbrev or_expired : Option Error → Option Error → Option Error
or_expired none closing = closing
or_expired (some e) closing = some e

abbrev pub shutdown_on : Life → Option Error → Option Listener → Life × Option Error
shutdown_on s expired none = (s, none)
shutdown_on s expired (some l) =
    let (l', closing) = close_listener l in (record s { ln = some l' }, or_expired expired closing)

-- `Shutdown`, with the error of its context if the context ends before the close returns.
unfoldable pub shutdown : Life → Option Error → Life × Option Error
shutdown s expired = shutdown_on s expired s.ln

-- The goroutine of `Serve` once its context is done.
unfoldable pub watch : Life → Life
watch s = record ((shutdown s none).0) { watching = false }

-- What happens on its own in a server: a turn of the loop, also one in which `Accept` fails for a
-- reason of its own, and the goroutine that waits for the context.
pub data Step : Life → Life → Type 0 where
  accepts :
      (s : Life) {l l' : Listener} {r : Result ℕ}
      → s.phase ≡ accepting
      → s.ln ≡ some l
      → accept l ≡ some (r, l')
      → Step s (after_accept s r l')
  fails :
      (s : Life) {l : Listener} (e : Error)
      → s.phase ≡ accepting
      → s.ln ≡ some l
      → Step s (after_accept s (err e) l)
  watches : (s : Life) {e : Error} → s.ctx_err ≡ some e → s.watching ≡ true → Step s (watch s)

abbrev pub queue : ℕ → Listener → Listener
queue conn l = if l.closed then l else record l { backlog = l.backlog ++ (conn ∷ []) }

abbrev pub connect_on : Life → ℕ → Option Listener → Life
connect_on s conn none = s
connect_on s conn (some l) = record s { ln = some (queue conn l) }

-- A client connects.
pub connect : Life → ℕ → Life
connect s conn = connect_on s conn s.ln

-- The context ends.
pub cancel : Life → Error → Life
cancel s e = record s { ctx_err = some e }

-- A history: the steps of the server, counted, among connections of clients, counted, and calls of
-- `Shutdown`.
pub data Run (s : Life) : ℕ → ℕ → Life → Type 0 where
  here : Run s 0 0 s
  steps : {n a : ℕ} {t u : Life} → Run s n a t → Step t u → Run s (suc n) a u
  connects : {n a : ℕ} {t : Life} → Run s n a t → (conn : ℕ) → Run s n (suc a) (connect t conn)
  shuts :
      {n a : ℕ} {t : Life}
      → Run s n a t
      → (expired : Option Error) → Run s n a ((shutdown t expired).0)
