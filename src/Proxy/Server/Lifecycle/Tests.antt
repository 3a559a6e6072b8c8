-- ===== src/Proxy/Server/Lifecycle/Tests.antt =====
-- Runs of the life of the server of internal/proxy/server.go.
use ciallo.Common.{◌≤◌, ◌≡◌, refl, ◌⊎◌, [], ◌∷◌, true, false, some}
use ciallo.Go.Errors.{ok, err, listener_closed, context_canceled, net_error}
use ciallo.Proxy.Server.Lifecycle.{
  Listener, Life, returned, new_life, ready, accept, start_serve, listen_and_serve, after_accept,
  serve_result, close_listener, shutdown, watch, cancel, connect, Step, accepts, watches, Run, here,
  steps, connects,
}
use ciallo.Proxy.Server.Lifecycle.Ends.{serve-Returns}

abbrev two_waiting : Listener
two_waiting = record { backlog = 7 ∷ 8 ∷ []; closed = false }

abbrev started : Life
started = start_serve new_life two_waiting

-- One of the two is accepted and a third connects.
abbrev busy : Life
busy = connect (after_accept started (ok 7) (record { backlog = 8 ∷ []; closed = false })) 9

busy-Run : Run started 1 1 busy
unfolding start_serve accept after_accept
busy-Run = connects (steps here (accepts started refl refl refl)) 9

-- The context ends, one more is accepted, and a fourth connects before the listener closes.
abbrev canceled : Life
canceled = cancel busy context_canceled

abbrev later : Life
later = connect (after_accept canceled (ok 8) (record { backlog = 9 ∷ []; closed = false })) 10

abbrev watched : Life
watched = watch later

abbrev ended : Life
ended = after_accept watched (err listener_closed) (record { backlog = []; closed = true })

ended-Run : Run canceled 3 1 ended
unfolding start_serve accept after_accept cancel connect watch shutdown close_listener
ended-Run =
    let first : Run canceled 1 1 later =
      connects (steps here (accepts canceled refl refl refl)) 10 in
    let second : Run canceled 2 1 watched = steps first (watches later refl refl) in
    steps second (accepts watched refl refl refl)

served : (ended.phase ≡ returned (some context_canceled)) × (ended.handled ≡ 7 ∷ 8 ∷ [])
unfolding start_serve after_accept cancel connect watch shutdown close_listener serve_result
served = (refl, refl)

unready : ready (listen_and_serve new_life (err (net_error []))) ≡ false
unfolding listen_and_serve ready
unready = refl

serve-Returns_example :
    (3 ≤ 5)
    × (ready ended ≡ true)
    × ((ended.phase ≡ returned (some context_canceled)) ⊎ ((v : Life) × Step ended v))
unfolding start_serve after_accept connect
serve-Returns_example =
    serve-Returns new_life two_waiting context_canceled refl busy-Run refl ended-Run
